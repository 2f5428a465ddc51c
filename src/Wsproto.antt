-- ===== src/Wsproto.antt =====
-- internal/wsproto/wsproto.go: the messages of the WebSocket protocol. A raw JSON text is its
-- document, `none` for an empty one; `now` is `time.Now().UnixMilli()`.
pub mod RoundTrip
use smtc_now_playing.Prelude.{
  ℕ, Bool, true, false, Option, none, some, List, [], ◌∷◌, map, Text, codes, text_eq, if◌then◌else◌,
}
use smtc_now_playing.Prelude.Int.{ℤ, pos, int_eq}
use smtc_now_playing.Prelude.Float.{Float64, is_finite}
use smtc_now_playing.Json.{
  Json, Items, Fields, null, bool, num, float, str, arr, obj, nil, cons, end, field, array_of,
  key_is, into_text, into_int, into_struct,
}
use smtc_now_playing.Domain.{InfoData, ProgressData, SessionInfo}

abbrev pub protocol_version : ℤ
protocol_version = pos 2

abbrev pub heartbeat_interval_ms : ℕ
heartbeat_interval_ms = 30000

abbrev pub heartbeat_timeout_ms : ℕ
heartbeat_timeout_ms = 90000

-- The constants of `MessageType`, which is a string type.
abbrev pub msg_hello : Text
msg_hello = codes "hello"

abbrev pub msg_info : Text
msg_info = codes "info"

abbrev pub msg_progress : Text
msg_progress = codes "progress"

abbrev pub msg_sessions : Text
msg_sessions = codes "sessions"

abbrev pub msg_reload : Text
msg_reload = codes "reload"

abbrev pub msg_control : Text
msg_control = codes "control"

abbrev pub msg_ping : Text
msg_ping = codes "ping"

abbrev pub msg_pong : Text
msg_pong = codes "pong"

abbrev pub msg_ack : Text
msg_ack = codes "ack"

pub record Envelope : Type 0 where
  pub type : Text
  pub v : ℤ
  pub id : Text
  pub ts : ℤ
  pub content : Option Json  -- `Data`

abbrev pub no_envelope : Envelope
no_envelope = record { type = []; v = pos 0; id = []; ts = pos 0; content = none }

pub record ControlPayload : Type 0 where
  pub action : Text
  pub args : Option Json

abbrev pub envelope : Text → ℤ → Option Json → Envelope
envelope type now content = record {
  type = type;
  v = protocol_version;
  id = [];
  ts = now;
  content = content;
}

-- `HelloPayload`; the capabilities are the entries of the map.
unfoldable pub new_hello : Text → Fields → ℤ → Envelope
new_hello version caps now = envelope msg_hello now (
    some (
      obj (
        field (codes "serverVersion") (str version) (
          field (codes "supportedMessages")
            (arr (
              array_of str (
                msg_hello ∷ msg_info ∷ msg_progress ∷ msg_sessions ∷ msg_reload ∷ msg_control
                ∷ msg_ping ∷ msg_pong ∷ msg_ack ∷ [])))
            (field (codes "capabilities") (obj caps) end)))))

unfoldable pub info_payload : InfoData → Text → Json
info_payload d album_art_url = obj (
    field (codes "artist") (str d.artist) (
      field (codes "title") (str d.title) (
        field (codes "albumTitle") (str d.album_title) (
          field (codes "albumArtist") (str d.album_artist) (
            field (codes "playbackType") (num d.playback_type) (
              field (codes "sourceApp") (str d.source_app)
                (field (codes "albumArt") (str album_art_url) end)))))))

unfoldable pub new_info : InfoData → Text → ℤ → Envelope
new_info d album_art_url now = envelope msg_info now (some (info_payload d album_art_url))

-- A `*bool`.
abbrev pub bool_or_null : Option Bool → Json
bool_or_null none = null
bool_or_null (some b) = bool b

unfoldable pub progress_payload : ProgressData → Json
progress_payload d = obj (
    field (codes "position") (num d.position) (
      field (codes "duration") (num d.duration) (
        field (codes "status") (num d.status) (
          field (codes "playbackRate") (float d.playback_rate) (
            field (codes "isShuffleActive") (bool_or_null d.is_shuffle_active) (
              field (codes "autoRepeatMode") (num d.auto_repeat_mode)
                (field (codes "lastUpdatedTime") (num d.last_updated_time) end)))))))

-- The encoder refuses a rate that is infinite or no number; the source ignores the error, and the
-- message has no data.
unfoldable pub new_progress : ProgressData → ℤ → Envelope
new_progress d now =
    envelope msg_progress now
      (if is_finite d.playback_rate then some (progress_payload d) else none)

unfoldable pub session_payload : SessionInfo → Json
session_payload s = obj (
    field (codes "appId") (str s.app_id)
      (field (codes "name") (str s.name) (field (codes "sourceAppId") (str s.source_app_id) end)))

abbrev session_items : Option (List SessionInfo) → Items
session_items none = nil
session_items (some sessions) = array_of session_payload sessions

unfoldable pub new_sessions : Option (List SessionInfo) → ℤ → Envelope
new_sessions sessions now =
    envelope msg_sessions now
      (some (obj (field (codes "sessions") (arr (session_items sessions)) end)))

unfoldable pub new_reload : ℤ → Envelope
new_reload now = envelope msg_reload now none

unfoldable pub new_ping : ℤ → Envelope
new_ping now = envelope msg_ping now none

unfoldable pub new_pong : ℤ → Envelope
new_pong ts = envelope msg_pong ts none

-- `omitempty`.
abbrev text_field : Text → Text → Fields → Fields
text_field key [] rest = rest
text_field key (c ∷ s) rest = field key (str (c ∷ s)) rest

abbrev pub raw_field : Text → Option Json → Fields → Fields
raw_field key none rest = rest
raw_field key (some v) rest = field key v rest

-- `AckPayload`, of the text of an error, `none` for nil.
unfoldable pub ack_payload : Option Text → Json
ack_payload none = obj (field (codes "success") (bool true) end)
ack_payload (some e) = obj (field (codes "success") (bool false) (text_field (codes "error") e end))

unfoldable pub new_ack : Text → Option Text → ℤ → Envelope
new_ack id err now = record {
  type = msg_ack;
  v = protocol_version;
  id = id;
  ts = now;
  content = some (ack_payload err);
}

-- The document that an envelope is encoded as.
unfoldable pub envelope_json : Envelope → Json
envelope_json e = obj (
    field (codes "type") (str e.type) (
      field (codes "v") (num e.v) (
        text_field (codes "id") e.id
          (field (codes "ts") (num e.ts) (raw_field (codes "data") e.content end)))))

-- The decoder of one field. A raw message takes any value.
unfoldable pub set_envelope : Text → Json → Envelope → Option Envelope
set_envelope k v e =
    if key_is (codes "type") k
    then elim (into_text v e.type) [ none ↦ none | some t ↦ some (record e { type = t }) ]
    else if key_is (codes "v") k
    then elim (into_int v e.v) [ none ↦ none | some n ↦ some (record e { v = n }) ]
    else if key_is (codes "id") k
    then elim (into_text v e.id) [ none ↦ none | some t ↦ some (record e { id = t }) ]
    else if key_is (codes "ts") k
    then elim (into_int v e.ts) [ none ↦ none | some n ↦ some (record e { ts = n }) ]
    else if key_is (codes "data") k
    then some (record e { content = some v })
    else some e

pub data ParseError : Type 0 where
  invalid_json : ParseError
  unsupported_version : ℤ → ParseError
  missing_type : ParseError

pub data Parsed : Type 0 where
  parsed : Envelope → Parsed
  refused : ParseError → Parsed

-- The checks of `ParseEnvelope`.
unfoldable pub validate : Envelope → Parsed
validate e =
    if int_eq e.v protocol_version
    then (if text_eq e.type [] then refused missing_type else parsed e)
    else refused (unsupported_version e.v)

abbrev validate_decoded : Option Envelope → Parsed
validate_decoded none = refused invalid_json
validate_decoded (some e) = validate e

-- A text that is no JSON is `none`.
unfoldable pub parse_envelope : Option Json → Parsed
parse_envelope none = refused invalid_json
parse_envelope (some doc) = validate_decoded (into_struct set_envelope doc no_envelope)

unfoldable pub set_control : Text → Json → ControlPayload → Option ControlPayload
set_control k v p =
    if key_is (codes "action") k
    then elim (into_text v p.action) [ none ↦ none | some t ↦ some (record p { action = t }) ]
    else if key_is (codes "args") k
    then some (record p { args = some v })
    else some p

-- `none` for an error; no data at all is one.
unfoldable pub parse_control : Envelope → Option ControlPayload
parse_control e = elim e.content [
  | none ↦ none
  | some doc ↦ into_struct set_control doc (record { action = []; args = none })
]
