-- ===== src/Server/Dispatch.antt =====
-- internal/server/server.go and api.go: the two ways in which a client controls playback, by a message
-- and by an HTTP request. A call of the service is a value, and the service answers it with an error's
-- text or `none` for nil.
pub mod Agreement
use smtc_now_playing.Prelude.{
  ℕ, suc, Bool, true, false, Option, none, some, List, [], ◌∷◌, ◌++◌, Text, codes, text_eq, not,
  ◌==◌, if◌then◌else◌,
}
use smtc_now_playing.Prelude.Int.{ℤ, pos}
use smtc_now_playing.Json.{
  Json, Fields, bool, str, obj, field, end, key_is, into_bool, into_int, into_struct,
}
use smtc_now_playing.Domain.{ControlCapabilities}

-- The controlling methods of `SMTCService`.
pub data ServiceCall : Type 0 where
  play pause stop_playback toggle_play_pause skip_next skip_previous : ServiceCall
  seek_to : ℤ → ServiceCall
  set_shuffle : Bool → ServiceCall
  set_repeat : ℤ → ServiceCall

-- What an action comes to before the service is asked: a call, arguments that do not fit, or no such
-- action.
pub data Dispatch : Type 0 where
  call : ServiceCall → Dispatch
  bad_arguments : Dispatch
  no_such_action : Dispatch

-- The structs of one field that the arguments of `seek`, `shuffle` and `repeat` are decoded into,
-- by that field; other fields are ignored.
unfoldable pub set_seek_args : Text → Json → ℤ → Option ℤ
set_seek_args k v n = if key_is (codes "position") k then into_int v n else some n

unfoldable pub set_shuffle_args : Text → Json → Bool → Option Bool
set_shuffle_args k v b = if key_is (codes "active") k then into_bool v b else some b

unfoldable pub set_repeat_args : Text → Json → ℤ → Option ℤ
set_repeat_args k v n = if key_is (codes "mode") k then into_int v n else some n

-- No document at all is a syntax error.
abbrev pub decode {ℓ} : {A : Type ℓ} → (Text → Json → A → Option A) → Option Json → A → Option A
decode set none zero_value = none
decode set (some doc) zero_value = into_struct set doc zero_value

abbrev pub call_with {ℓ} : {A : Type ℓ} → (A → ServiceCall) → Option A → Dispatch
call_with f none = bad_arguments
call_with f (some a) = call (f a)

-- The `switch` of `executeWSControl`, on the arguments of the message.
unfoldable pub ws_dispatch : Text → Option Json → Dispatch
ws_dispatch action args =
    if text_eq action (codes "play")
    then call play
    else if text_eq action (codes "pause")
    then call pause
    else if text_eq action (codes "stop")
    then call stop_playback
    else if text_eq action (codes "toggle")
    then call toggle_play_pause
    else if text_eq action (codes "next")
    then call skip_next
    else if text_eq action (codes "previous")
    then call skip_previous
    else if text_eq action (codes "seek")
    then call_with seek_to (decode set_seek_args args (pos 0))
    else if text_eq action (codes "shuffle")
    then call_with set_shuffle (decode set_shuffle_args args false)
    else if text_eq action (codes "repeat")
    then call_with set_repeat (decode set_repeat_args args (pos 0))
    else no_such_action

-- The error that `executeWSControl` returns; the decoder's own words are `decode_error`.
unfoldable pub execute_ws_control :
    (ServiceCall → Option Text) → Text → Text → Option Json → Option Text
execute_ws_control service decode_error action args = elim (ws_dispatch action args) [
  | call c ↦ service c
  | bad_arguments ↦ some decode_error
  | no_such_action ↦ some (codes "unknown action: " ++ action)
]

-- An HTTP response: its status and the document.
pub record Response : Type 0 where
  pub status : ℕ
  pub body : Json

-- `map[string]any{"success": …, "error": …}`, whose keys are encoded in order.
abbrev pub failed : ℕ → Text → Response
failed status e = record {
  status = status;
  body = obj (field (codes "error") (str e) (field (codes "success") (bool false) end));
}

abbrev pub invalid_body : Response
invalid_body = failed 400 (codes "invalid request body")

abbrev pub respond : Option Text → Response
respond (some e) = failed 200 e
respond none = record { status = 200; body = obj (field (codes "success") (bool true) end) }

-- The calls that a request makes, with its response.
abbrev pub Handled : Type 0
Handled = List ServiceCall × Response

abbrev pub ask : (ServiceCall → Option Text) → ServiceCall → Handled
ask service c = (c ∷ [], respond (service c))

abbrev pub ask_with {ℓ} :
    {A : Type ℓ} → (ServiceCall → Option Text) → (A → ServiceCall) → Option A → Handled
ask_with service f none = ([], invalid_body)
ask_with service f (some a) = ask service (f a)

-- `handleControl`, on the first document of the body, `none` if that is no JSON.
unfoldable pub handle_control : (ServiceCall → Option Text) → Text → Option Json → Handled
handle_control service action body =
    if text_eq action (codes "play")
    then ask service play
    else if text_eq action (codes "pause")
    then ask service pause
    else if text_eq action (codes "stop")
    then ask service stop_playback
    else if text_eq action (codes "toggle")
    then ask service toggle_play_pause
    else if text_eq action (codes "next")
    then ask service skip_next
    else if text_eq action (codes "previous")
    then ask service skip_previous
    else if text_eq action (codes "seek")
    then ask_with service seek_to (decode set_seek_args body (pos 0))
    else if text_eq action (codes "shuffle")
    then ask_with service set_shuffle (decode set_shuffle_args body false)
    else if text_eq action (codes "repeat")
    then ask_with service set_repeat (decode set_repeat_args body (pos 0))
    else ([], failed 404 (codes "unknown action"))

-- `indexByte`, `none` for -1.
unfoldable pub index_byte : Text → ℕ → Option ℕ
index_byte [] c = none
index_byte (d ∷ s) c =
    if d == c then some 0 else (elim (index_byte s c) [ none ↦ none | some i ↦ some (suc i) ])
