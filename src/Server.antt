-- ===== src/Server.antt =====
-- internal/server: the HTTP and WebSocket server, which keeps the latest state and passes it on.
pub mod Hub
pub mod State
pub mod Dispatch
pub mod Connection
pub mod Api
pub mod Paths
pub mod HotReload
pub mod Running
