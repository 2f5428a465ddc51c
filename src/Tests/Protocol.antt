-- ===== src/Tests/Protocol.antt =====
-- The data of the domain and the messages at concrete inputs.
use smtc_now_playing.Prelude.{some, codes, ◌≡◌, refl, arith}
use smtc_now_playing.Prelude.Int.{pos}
use smtc_now_playing.Json.{fits_int64}
use smtc_now_playing.Domain.{escape}
use smtc_now_playing.Domain.Escape.{unescape, unescape-escape}
use smtc_now_playing.Wsproto.{new_ping, envelope_json, parse_envelope, parsed}
use smtc_now_playing.Wsproto.RoundTrip.{IsValid, parse_envelope-envelope_json}

unescape-escape_example : unescape (escape (codes "a\n\\b")) ≡ some (codes "a\n\\b")
unescape-escape_example = unescape-escape (codes "a\n\\b")

ping-IsValid : IsValid (new_ping (pos 1000))
unfolding new_ping fits_int64
ping-IsValid = record { version = refl; typed = (λ h. cc); stamp = ground arith }

parse_envelope-envelope_json_example :
    parse_envelope (some (envelope_json (new_ping (pos 1000)))) ≡ parsed (new_ping (pos 1000))
parse_envelope-envelope_json_example =
    parse_envelope-envelope_json (new_ping (pos 1000)) ping-IsValid
