-- ===== src/Lib.antt =====
-- Verification of smtc-now-playing, a Windows program that reads what the system's media session
-- plays and passes it on to web pages.
--
-- The parts and how they interact. The program (cmd/smtc-now-playing) takes a mutex, loads the
-- configuration and starts the service, the server and the window in one group. The service
-- (internal/smtc) runs one event loop: WinRT callbacks, timers and calls from other goroutines post
-- functions to it, its handlers read the current session and tell their subscribers events. The server
-- (internal/server) is such a subscriber. It keeps a snapshot of the song and its progress, encodes
-- them as messages (internal/wsproto) and broadcasts these through the hub, which owns the WebSocket
-- connections. Clients control playback by messages or HTTP requests, which the server turns into calls
-- of the service. The window (internal/gui), with its tray icon and the preview of a theme
-- (internal/webview), is another subscriber: it shows the sessions, selects one, and saves the
-- configuration (internal/config) when a setting changes. Beside these stands the check for updates
-- (internal/updater).
--
-- Which file models which part; the functions of the source keep their words, in lower case.
-- - Prelude: shared names. Texts (strings and byte slices as lists of numbers), Int (int and int64
--   with their wrap), Float (float64 by its bits), Decimal (%d), Tests, Lists, Chain.
-- - Json: documents as trees, with the decoding of encoding/json into structs.
-- - Domain: internal/domain/domain.go. Escape and Equal are its proofs.
-- - Smtc.Types, Smtc.State: internal/smtc/types.go and the fields of smtc.go.
-- - Smtc.Async: waitForAsync and the nullable readers of helpers.go; Smtc.Names: friendlyAppName.
-- - Smtc.Thumbnail: readThumbnail of thumbnail.go, with its cache.
-- - Smtc.Media: media.go, the handler of media properties and the retries for a cover. Handler, Events
--   and Retries are its proofs.
-- - Smtc.Playback: playback.go; Progress is its proofs.
-- - Smtc.Sessions: session.go, enumeration, choice and switch; Switching, Naming and Clearing.
-- - Smtc.Subscribers: Subscribe, Unsubscribe, fanOut and the closing of channels in smtc.go; Delivery
--   and Closing.
-- - Smtc.Control: control.go; Requests.
-- - Smtc.Loop: the loop of Run, cleanupRun, SelectDevice and GetSessions of smtc.go; Soundness,
--   Queueing, Fairness, Selecting and Retrying.
-- - Smtc.Start: Run of smtc.go before and after its loop, with initSessionManager and
--   subscribeSessionsChanged of session.go; Balance.
-- - Smtc.Com: the vtable calls of thumbnail.go and pollAsyncProgress.
-- - Smtc.Mock: internal/smtc/mock_provider.go; Agreement.
-- - Wsproto: internal/wsproto/wsproto.go; RoundTrip.
-- - Server.Hub: internal/server/hub.go; Set, Runs, Trace, Delivery and Steps.
-- - Server.State: the snapshot and the events in server.go; Tracking, Cover, Deduplication, Following,
--   Turns, Parts and Waiting.
-- - Server.Dispatch: executeWSControl of server.go and handleControl of api.go; Agreement.
-- - Server.Connection: OnOpen, OnClose, OnPing, OnPong, OnMessage, the reading of a connection and the
--   heartbeat of server.go; Messages, Heartbeat and Greeting.
-- - Server.Api: handleNowPlaying, handleSessions, handleCapabilities, localhostOnly and isLocalhost of
--   api.go and middleware.go; Agreement.
-- - Server.Paths: safeJoin of server.go, on lists of path components, and the handlers of the script and
--   the theme's files; Containment.
-- - Server.Running: New and Run of server.go, the routes and what each request calls; Guarding.
-- - Server.HotReload: runHotReload of server.go; Debounce.
-- - Config: the configuration of config.go, its checks and its document. Config.Reading: Load, the two
--   formats and the paths; Loading. Config.Saving: saveConfigToFile; Atomic.
-- - Updater: updater.go; Versions.
-- - Gui: internal/gui/gui.go, its state and the calls it makes. Gui.Making: the window and its controls.
--   Gui.Serving: the settings read back, the server's button and the preview; Addresses. Gui.Devices: the
--   list of devices; Selection. Gui.Menu: the tray's menu; Choices. Gui.Window: the handlers of messages
--   and controls; Keeping, Files, Quiet, Persistence, Previews and Filling. Gui.Tray: systray.go; Restoring.
-- - Preview: internal/webview/webview.go; Resizing.
-- - App: cmd/smtc-now-playing/main.go; Closing.
-- - Tests: sample data, and the theorems at concrete inputs.
--
-- How state is modelled. A handler takes the state and what the outside answers, and returns the new
-- state and the events or calls it makes, in order. What WinRT, the file system, the network and the
-- clock answer is an argument: a record of replies, a time, the fault that happens. The text of
-- json.Marshal and the SHA-256 in hexadecimal are functions given to the definitions that use them.
-- What a control of the window shows is an argument as well (`World`), and the libraries of the widgets,
-- the preview and the shell are asked by a list of calls. net.ParseIP is a parameter of isLocalhost,
-- and of safeJoin strings.EqualFold and the path that Windows makes of an absolute one.
-- Goroutines are sequences of steps in any order: each function on the service's loop is one step,
-- each command of the hub is one, the calls under one lock are, and so is OnOpen from its reading of
-- the snapshot on; what others do before that is an argument of it.
--
-- Bounds and fuel. Numbers are unbounded where the source's cannot reach their bound; where they can,
-- the wrap or the saturation is written out (seek, repeat mode, the size of a cover, Atoi, the
-- coordinates of a resize). The loops are recursions on their lists. `decimal` runs on fuel, one more
-- than the number, which has no more digits than that; `poll`, which waits for a read without a bound of
-- its own, runs on a number of rounds, and its theorem says which number is enough.
--
-- Not modelled: what the libraries of widgets, WebView2 and the shell do themselves; the callback
-- OnRootLoaded, which fits the preview to its page, and the script that the preview injects, which is
-- JavaScript; the sending of files and the upgrade of connections, which net/http and gws do; the
-- access log; the layout in memory of the COM tables; the program cmd/smtc-test, which
-- prints what the service tells; the version, the themes and the scripts.
pub mod Prelude
pub mod Domain
pub mod Smtc
pub mod Json
pub mod Wsproto
pub mod Server
pub mod Config
pub mod Updater
pub mod Gui
pub mod Preview
pub mod App
mod Tests
