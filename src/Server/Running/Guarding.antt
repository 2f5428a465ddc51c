-- ===== src/Server/Running/Guarding.antt =====
-- Who may control playback by a request, and where it is listened.
use smtc_now_playing.Prelude.{
  Bool, true, Option, List, [], ◌∷◌, Text, codes, text_eq_iff, ◌≡◌, ◌≢◌, ◌⊎◌, refl, arith,
}
use smtc_now_playing.Json.{Json}
use smtc_now_playing.Config.{Config}
use smtc_now_playing.Server.Dispatch.{ServiceCall}
use smtc_now_playing.Server.Api.{localhost_only}
use smtc_now_playing.Server.Running.{
  Route, control_route, now_playing_route, sessions_route, capabilities_route, web_socket_route,
  theme_route, album_art_route, script_route, not_allowed, route, RequestCall, control_call,
  request_calls,
}

-- The control methods that are called.
unfoldable pub controls : List RequestCall → List ServiceCall
controls [] = []
controls (control_call c ∷ calls) = c ∷ controls calls
controls (_ ∷ calls) = controls calls

-- A route calls no control method, unless it is that of a control request that is let through.
calls_of_control :
    (service : ServiceCall → Option Text) (c : Config) (local : Bool) (r : Route)
    (body : Option Json)
    → controls (request_calls service c local r body) ≢ []
    → ((action : Text) × (r ≡ control_route action))
      × ((c.server.allow_remote ≡ true) ⊎ (local ≡ true))
unfolding request_calls localhost_only controls
calls_of_control service c local now_playing_route body h = absurd (h refl)
calls_of_control service c local sessions_route body h = absurd (h refl)
calls_of_control service c local capabilities_route body h = absurd (h refl)
calls_of_control service c local web_socket_route body h = absurd (h refl)
calls_of_control service c local theme_route body h = absurd (h refl)
calls_of_control service c local (album_art_route a) body h = absurd (h refl)
calls_of_control service c local (script_route a) body h = absurd (h refl)
calls_of_control service c local not_allowed body h = absurd (h refl)
calls_of_control service c local (control_route a) body h = ((a, refl), ground arith)

-- Only a POST of three parts has the route of a control request.
route_control :
    (m : Text) (path : List Text) {action : Text}
    → route m path ≡ control_route action
    → (m ≡ codes "POST") × (path ≡ codes "api" ∷ codes "control" ∷ action ∷ [])
unfolding route
route_control m [] h = ground arith
route_control m (a ∷ []) h = ground arith
route_control m (a ∷ [] ∷ []) h = ground arith
route_control m (a ∷ (x ∷ b) ∷ []) h = ground arith
route_control m (a ∷ b ∷ [] ∷ []) h = ground arith
route_control m (a ∷ b ∷ (x ∷ c) ∷ []) h = ground (
  arith,
  text_eq_iff m (codes "POST"),
  text_eq_iff a (codes "api"),
  text_eq_iff b (codes "control"),
)
route_control m (a ∷ b ∷ c ∷ d ∷ rest) h = ground arith

-- A request calls no control method of the service, unless it is a POST to /api/control/ with an action,
-- and comes from this computer or remote control is allowed.
pub request_calls-Guarded :
    (service : ServiceCall → Option Text) (c : Config) (local : Bool) (m : Text) (path : List Text)
    (body : Option Json)
    → controls (request_calls service c local (route m path) body) ≢ []
    → (m ≡ codes "POST")
      × ((action : Text) × (path ≡ codes "api" ∷ codes "control" ∷ action ∷ []))
      × ((c.server.allow_remote ≡ true) ⊎ (local ≡ true))
request_calls-Guarded service c local m path body h =
    let ((action, e), allowed) = calls_of_control service c local (route m path) body h in
    let (post, parts) = route_control m path e in (post, (action, parts), allowed)
