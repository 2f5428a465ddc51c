-- ===== src/Smtc.antt =====
-- internal/smtc: the service that watches the media sessions of Windows and tells its subscribers
-- what plays. One goroutine runs every handler; a handler takes what WinRT answers as an argument
-- and returns the new state with the events that it hands to `fanOut`, in their order.
pub mod Types
pub mod Async
pub mod State
pub mod Thumbnail
pub mod Media
pub mod Playback
pub mod Subscribers
pub mod Names
pub mod Sessions
pub mod Control
pub mod Loop
pub mod Mock
pub mod Start
pub mod Com
