-- ===== src/Server/Dispatch/Agreement.antt =====
-- The HTTP interface and the messages control the same things.
use smtc_now_playing.Prelude.{false, Option, none, some, [], ◌∷◌, Text, codes, ◌≡◌, refl, arith}
use smtc_now_playing.Prelude.Int.{pos}
use smtc_now_playing.Json.{Json}
use smtc_now_playing.Server.Dispatch.{
  ServiceCall, Dispatch, call, bad_arguments, no_such_action, ws_dispatch, failed, invalid_body,
  respond, Handled, handle_control, call_with, ask_with, decode, set_seek_args, set_shuffle_args,
  set_repeat_args, seek_to, set_shuffle, set_repeat,
}

-- What an HTTP request makes of a dispatch.
abbrev pub http_response : (ServiceCall → Option Text) → Dispatch → Handled
http_response service (call c) = (c ∷ [], respond (service c))
http_response service bad_arguments = ([], invalid_body)
http_response service no_such_action = ([], failed 404 (codes "unknown action"))

http_response-call_with {ℓ} :
    {A : Type ℓ} (service : ServiceCall → Option Text) (f : A → ServiceCall) (o : Option A)
    → ask_with service f o ≡ http_response service (call_with f o)
http_response-call_with service f none = refl
http_response-call_with service f (some a) = refl

-- The HTTP interface makes of every action and arguments the service call that a message of the same
-- makes, and no other: status 200 with the service's answer where there is one, 400 for arguments that
-- do not fit, and 404 for an unknown action, both without a call.
pub handle_control-ws_dispatch :
    (service : ServiceCall → Option Text) (action : Text) (args : Option Json)
    → handle_control service action args ≡ http_response service (ws_dispatch action args)
unfolding handle_control ws_dispatch
handle_control-ws_dispatch service action args = ground (
  arith,
  http_response-call_with service seek_to (decode set_seek_args args (pos 0)),
  http_response-call_with service set_shuffle (decode set_shuffle_args args false),
  http_response-call_with service set_repeat (decode set_repeat_args args (pos 0)),
)
