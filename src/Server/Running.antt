-- ===== src/Server/Running.antt =====
-- internal/server/server.go: how the server is made and run, and its routes. The requests go through
-- net/http; a path is the list of the parts between its slashes.
pub mod Guarding
use smtc_now_playing.Prelude.{
  map, ℕ, Bool, true, false, Option, none, some, List, [], ◌∷◌, ◌++◌, Text, codes, text_eq, ◌==◌,
  ◌&&◌, ◌||◌, if◌then◌else◌,
}
use smtc_now_playing.Prelude.Decimal.{print_int}
use smtc_now_playing.Config.{Config}
use smtc_now_playing.Json.{Json}
use smtc_now_playing.Server.Hub.{new_hub}
use smtc_now_playing.Server.State.{Server, no_snapshot}
use smtc_now_playing.Server.Dispatch.{ServiceCall, Handled, handle_control}
use smtc_now_playing.Server.Api.{localhost_only}

pub data NewError : Type 0 where
  nil_config nil_service : NewError

-- A server with its configuration and the address of its HTTP server.
pub record Built : Type 0 where
  pub server : Server
  pub cfg : Config
  pub addr : Text

pub data Made : Type 0 where
  made : Built → Made
  not_made : NewError → Made

-- The address of `newHTTPServer`.
unfoldable pub http_address : Config → Text
http_address c = b':' ∷ print_int c.server.port

-- `New`, on a configuration and a service that may be nil.
unfoldable pub new : Option Config → Bool → Made
new none service = not_made nil_config
new (some c) false = not_made nil_service
new (some c) true = made (record {
  server = record { state = no_snapshot; hub = new_hub };
  cfg = c;
  addr = http_address c;
})

-- `Address`, which is empty without an HTTP server.
unfoldable pub address : Option Text → Text
address none = []
address (some addr) = addr

-- `SetTheme`.
unfoldable pub set_theme : Text → Config → Config
set_theme theme c = record c { ui = record c.ui { theme = theme } }

abbrev pub subscribe_buf_size : ℕ
subscribe_buf_size = 64

-- What `Run` starts and stops.
pub data RunCall : Type 0 where
  start_hub start_process_events start_hot_reload start_listening : RunCall
  subscribe : ℕ → RunCall
  shutdown_hub shutdown_http unsubscribe : RunCall

-- What ends it: the context, the watcher or the listener.
pub data Ended : Type 0 where
  context_done watcher_failed listener_failed : Ended

abbrev pub watch_files : Bool → List RunCall
watch_files true = start_hot_reload ∷ []
watch_files false = []

abbrev pub shutdown_calls : Bool → List RunCall
shutdown_calls true = shutdown_hub ∷ shutdown_http ∷ unsubscribe ∷ []
shutdown_calls false = shutdown_hub ∷ unsubscribe ∷ []

-- `Run`, whose error is that of its end; `shutdownHTTPServer` does nothing without an HTTP server.
unfoldable pub run : Config → Bool → Ended → List RunCall × Ended
run c has_http ended = (
  (start_hub
        ∷ subscribe subscribe_buf_size
        ∷ start_process_events
        ∷ watch_files c.server.hot_reload)
      ++ (start_listening ∷ shutdown_calls has_http),
  ended,
)

-- The handlers that the routes name.
pub data Route : Type 0 where
  now_playing_route sessions_route capabilities_route web_socket_route theme_route : Route
  control_route album_art_route script_route : Text → Route
  not_allowed : Route

-- A pattern for GET matches HEAD too.
abbrev pub is_get : Text → Bool
is_get m = text_eq m (codes "GET") || text_eq m (codes "HEAD")

abbrev pub is_post : Text → Bool
is_post m = text_eq m (codes "POST")

-- The pattern "GET /" takes every path that no other pattern takes.
abbrev pub or_theme : Text → Route
or_theme m = if is_get m then theme_route else not_allowed

abbrev api_route : Text → Text → Route
api_route m part =
    if is_get m && text_eq part (codes "now-playing")
    then now_playing_route
    else if is_get m && (text_eq part (codes "devices") || text_eq part (codes "sessions"))
    then sessions_route
    else if is_get m && text_eq part (codes "capabilities")
    then capabilities_route
    else or_theme m

-- A wildcard takes a part that is not empty.
abbrev two_parts : Text → Text → Text → Route
two_parts m first [] = or_theme m
two_parts m first (c ∷ part) =
    if text_eq first (codes "api")
    then api_route m (c ∷ part)
    else if is_get m && text_eq first (codes "albumArt")
    then album_art_route (c ∷ part)
    else if is_get m && text_eq first (codes "script")
    then script_route (c ∷ part)
    else or_theme m

abbrev three_parts : Text → Text → Text → Text → Route
three_parts m first second [] = or_theme m
three_parts m first second (c ∷ action) =
    if is_post m && (text_eq first (codes "api") && text_eq second (codes "control"))
    then control_route (c ∷ action)
    else or_theme m

-- `setupRoutes`: which handler serves a method and a path.
unfoldable pub route : Text → List Text → Route
route m [] = or_theme m
route m (a ∷ []) = if is_get m && text_eq a (codes "ws") then web_socket_route else or_theme m
route m (a ∷ b ∷ []) = two_parts m a b
route m (a ∷ b ∷ c ∷ []) = three_parts m a b c
route m (a ∷ b ∷ c ∷ d ∷ rest) = or_theme m

-- A call of the service: of a control method, or of one that only reads.
pub data RequestCall : Type 0 where
  control_call : ServiceCall → RequestCall
  get_sessions_call get_capabilities_call : RequestCall

-- The calls of the service that a request makes by its route, in their order; `local` is `isLocalhost` of
-- the request. The WebSocket's route makes those of `OnOpen`; what the connection's messages call is
-- `on_message`'s.
unfoldable pub request_calls :
    (ServiceCall → Option Text) → Config → Bool → Route → Option Json → List RequestCall
request_calls service c local (control_route action) body =
    map control_call
      (localhost_only c.server.allow_remote local (handle_control service action body)).0
request_calls service c local sessions_route body = get_sessions_call ∷ []
request_calls service c local capabilities_route body = get_capabilities_call ∷ []
request_calls service c local web_socket_route body = get_capabilities_call ∷ get_sessions_call ∷ []
request_calls service c local _ body = []
