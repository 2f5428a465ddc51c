-- ===== src/Server/Connection/Messages.antt =====
-- What a message of a client comes to.
use smtc_now_playing.Prelude.{
  true, Option, none, some, [], ◌∷◌, Text, codes, text_eq, text_ne, ◌≡◌, ◌≢◌, refl, arith, ◌∙◌,
}
use smtc_now_playing.Prelude.Int.{ℤ}
use smtc_now_playing.Json.{
  Json, str, obj, field, end, key_is, into_text, into_fields, into_struct, fits_int64,
}
use smtc_now_playing.Wsproto.{
  Envelope, raw_field, protocol_version, msg_control, new_ping, new_pong, envelope_json,
  parse_control, set_control, msg_ping, msg_pong,
}
use smtc_now_playing.Wsproto.RoundTrip.{IsValid, parse_envelope-envelope_json}
use smtc_now_playing.Server.Connection.{
  write_message, start_control, on_message, on_envelope, handle_unknown_message,
}

-- The control message of a client.
abbrev pub control_envelope : Text → ℤ → Text → Option Json → Envelope
control_envelope id ts action args = record {
  type = msg_control;
  v = protocol_version;
  id = id;
  ts = ts;
  content = some (obj (field (codes "action") (str action) (raw_field (codes "args") args end)));
}

parse_control-control_envelope :
    (id : Text) (ts : ℤ) (action : Text) (args : Option Json)
    → parse_control (control_envelope id ts action args)
      ≡ some (record { action = action; args = args })
unfolding parse_control into_struct into_fields set_control key_is into_text text_eq
parse_control-control_envelope id ts action none = ground arith
parse_control-control_envelope id ts action (some v) = ground arith

on_message-envelope_json :
    (marshal : Envelope → Text) (now : ℤ) (e : Envelope)
    → IsValid e
    → on_message marshal now (some (envelope_json e)) ≡ on_envelope marshal now e
unfolding on_message
on_message-envelope_json marshal now e valid = rw (parse_envelope-envelope_json e valid) refl

-- A control message that names an action starts that action, under the message's id and with the
-- arguments as they were sent.
pub on_message_control :
    (marshal : Envelope → Text) (now : ℤ) (id : Text) (ts : ℤ) (action : Text) (args : Option Json)
    → fits_int64 ts ≡ true
    → action ≢ []
    → on_message marshal now (some (envelope_json (control_envelope id ts action args)))
      ≡ start_control id action args ∷ []
unfolding text_eq
on_message_control marshal now id ts action args stamp named =
    on_message-envelope_json marshal now (control_envelope id ts action args)
      (record { version = refl; typed = (λ h. cc); stamp = stamp })
    ∙ rw (parse_control-control_envelope id ts action args, text_ne action [] named) refl

-- A ping, encoded, is answered with the pong of its time stamp.
pub on_message_ping :
    (marshal : Envelope → Text) (now ts : ℤ)
    → fits_int64 ts ≡ true
    → on_message marshal now (some (envelope_json (new_ping ts)))
      ≡ write_message (marshal (new_pong ts)) ∷ []
unfolding new_ping text_eq
on_message_ping marshal now ts stamp =
    on_message-envelope_json marshal now (new_ping ts)
      (record { version = refl; typed = (λ h. cc); stamp = stamp })

-- A message of a type that the server does not know is answered with an error under its id; without
-- an id there is nobody to answer, and the connection is closed.
pub on_message_unknown :
    (marshal : Envelope → Text) (now : ℤ) (e : Envelope)
    → IsValid e
    → e.type ≢ msg_ping
    → e.type ≢ msg_pong
    → e.type ≢ msg_control
    → on_message marshal now (some (envelope_json e)) ≡ handle_unknown_message marshal now e
on_message_unknown marshal now e valid no_ping no_pong no_control =
    on_message-envelope_json marshal now e valid
    ∙ rw
        (
          text_ne e.type msg_ping no_ping,
          text_ne e.type msg_pong no_pong,
          text_ne e.type msg_control no_control,
        )
        refl
