-- ===== src/Server/Connection.antt =====
-- internal/server/server.go: what the server does with one WebSocket connection. The text of
-- `json.Marshal` is a parameter; a time is in nanoseconds, and what a message carries of it in
-- milliseconds.
pub mod Messages
pub mod Heartbeat
pub mod Greeting
use smtc_now_playing.Prelude.{
  ℕ, ◌+◌, ◌*◌, ◌/◌, Bool, true, false, not, Option, none, some, List, [], ◌∷◌, ◌++◌, map, Text,
  codes, text_eq, ◌||◌, if◌then◌else◌,
}
use smtc_now_playing.Prelude.Tests.{ltb}
use smtc_now_playing.Prelude.Int.{ℤ, pos}
use smtc_now_playing.Json.{Json, Fields, bool, field, end}
use smtc_now_playing.Domain
use smtc_now_playing.Domain.{ControlCapabilities}
use smtc_now_playing.Smtc.Types.{SessionInfo}
use smtc_now_playing.Wsproto.{
  Envelope, ControlPayload, Parsed, parsed, refused, parse_envelope, parse_control, new_hello,
  new_sessions, new_pong, new_ping, new_ack, msg_ping, msg_pong, msg_control,
}
use smtc_now_playing.Server.Hub.{add, remove}
use smtc_now_playing.Server.State.{Snapshot, Server}
use smtc_now_playing.Server.Dispatch.{ServiceCall, execute_ws_control}

abbrev pub ws_heartbeat_interval : ℕ
ws_heartbeat_interval = 30000000000

abbrev pub ws_heartbeat_timeout : ℕ
ws_heartbeat_timeout = 90000000000

-- What is done to the connection: a text message, a close frame, the end of the network connection,
-- the touch of its heartbeat, a pong frame, or the start of a goroutine for a control message.
pub data Action : Type 0 where
  write_message : Text → Action
  write_close : ℕ → Text → Action
  close_net : Action
  touch_heartbeat : Action
  write_pong : Text → Action
  start_control : Text → Text → Option Json → Action

-- `capabilitiesToMap`, in the order of the keys, as a map is encoded.
unfoldable pub capabilities_to_map : ControlCapabilities → Bool → Fields
capabilities_to_map caps hot_reload = field (codes "albumArtEndpoint") (bool true) (
    field (codes "control") (bool true) (
      field (codes "heartbeat") (bool true) (
        field (codes "next") (bool caps.is_next_enabled) (
          field (codes "pause") (bool caps.is_pause_enabled) (
            field (codes "play") (bool caps.is_play_enabled) (
              field (codes "previous") (bool caps.is_previous_enabled) (
                field (codes "reload") (bool hot_reload) (
                  field (codes "repeat") (bool caps.is_repeat_enabled) (
                    field (codes "seek") (bool caps.is_seek_enabled) (
                      field (codes "sessions") (bool true) (
                        field (codes "shuffle") (bool caps.is_shuffle_enabled)
                          (field (codes "stop") (bool caps.is_stop_enabled) end))))))))))))

-- A message that is there.
abbrev pub written : Text → List Action
written [] = []
written (c ∷ msg) = write_message (c ∷ msg) ∷ []

-- The server's own copy of this function.
unfoldable pub session_infos_to_domain : List SessionInfo → Option (List Domain.SessionInfo)
session_infos_to_domain [] = none
session_infos_to_domain (x ∷ xs) = some (
    map (λ s. record { app_id = s.app_id; name = s.name; source_app_id = s.source_app_id })
      (x ∷ xs))

abbrev pub sessions_message : (Envelope → Text) → List SessionInfo → ℤ → List Action
sessions_message marshal [] now = []
sessions_message marshal (x ∷ xs) now =
    write_message (marshal (new_sessions (session_infos_to_domain (x ∷ xs)) now)) ∷ []

-- The messages of `OnOpen`, which it writes once the hub has the connection.
unfoldable pub greeting :
    (Envelope → Text) → Text → Fields → List SessionInfo → ℤ → Snapshot → List Action
greeting marshal version caps sessions now s =
    write_message (marshal (new_hello version caps now)) ∷ written s.info_json
    ++ written s.progress_json
    ++ sessions_message marshal sessions now

-- `OnOpen`, `none` while it waits for room in the hub's channel. `meanwhile` is what others do between the
-- return of `Add` and the reading of the snapshot: until then it writes the hello message, and waits
-- for the capabilities for that.
unfoldable pub on_open :
    (Envelope → Text)
    → Text
    → Fields
    → List SessionInfo
    → ℤ
    → ℕ
    → (Server → Server)
    → Server
    → Option (Server × List Action)
on_open marshal version caps sessions now c meanwhile s = elim (add c s.hub) [
  | none ↦ none
  | some h ↦
      let t = meanwhile (record s { hub = h }) in
      some (t, touch_heartbeat ∷ greeting marshal version caps sessions now t.state)
]

abbrev pub close_unsupported_protocol : List Action
close_unsupported_protocol =
    write_close 4002 (codes "unsupported protocol version") ∷ close_net ∷ []

unfoldable pub write_control_ack : (Envelope → Text) → ℤ → Text → Option Text → List Action
write_control_ack marshal now id err = write_message (marshal (new_ack id err now)) ∷ []

unfoldable pub handle_unknown_message : (Envelope → Text) → ℤ → Envelope → List Action
handle_unknown_message marshal now env =
    if text_eq env.id []
    then close_unsupported_protocol
    else write_control_ack marshal now env.id
        (some (codes "unsupported message type: " ++ env.type))

abbrev pub on_control : (Envelope → Text) → ℤ → Text → Option ControlPayload → List Action
on_control marshal now id none =
    write_control_ack marshal now id (some (codes "invalid control payload"))
on_control marshal now id (some ctrl) =
    if text_eq ctrl.action []
    then write_control_ack marshal now id (some (codes "invalid control payload"))
    else start_control id ctrl.action ctrl.args ∷ []

-- The `switch` of `OnMessage`.
abbrev pub on_envelope : (Envelope → Text) → ℤ → Envelope → List Action
on_envelope marshal now env =
    if text_eq env.type msg_ping
    then write_message (marshal (new_pong env.ts)) ∷ []
    else if text_eq env.type msg_pong
    then touch_heartbeat ∷ []
    else if text_eq env.type msg_control
    then on_control marshal now env.id (parse_control env)
    else handle_unknown_message marshal now env

abbrev on_parsed : (Envelope → Text) → ℤ → Parsed → List Action
on_parsed marshal now (refused e) = close_unsupported_protocol
on_parsed marshal now (parsed env) = on_envelope marshal now env

-- `OnMessage`, on the document of the message, `none` if it is no JSON.
unfoldable pub on_message : (Envelope → Text) → ℤ → Option Json → List Action
on_message marshal now doc = on_parsed marshal now (parse_envelope doc)

-- `handleWSControl`, which the goroutine of a control message runs.
unfoldable pub handle_ws_control :
    (Envelope → Text)
    → ℤ
    → (ServiceCall → Option Text)
    → Text
    → Text
    → Text
    → Option Json
    → List Action
handle_ws_control marshal now service decode_error id action args =
    write_control_ack marshal now id (execute_ws_control service decode_error action args)

-- A tick of the heartbeat's ticker: its time, the last pong in milliseconds, if the connection has a
-- heartbeat, and whether the connection takes the ping.
pub record Tick : Type 0 where
  pub now : ℕ
  pub last_pong : Option ℕ
  pub takes_ping : Bool

abbrev pub overdue : ℕ → Option ℕ → Bool
overdue now none = false
overdue now (some last) = ltb (last * 1000000 + ws_heartbeat_timeout) now

unfoldable pub ping_message : (Envelope → Text) → ℕ → Text
ping_message marshal now = marshal (new_ping (pos (now / 1000000)))

-- The loop of `runHeartbeat`, over the ticks that come.
unfoldable pub run_heartbeat : (Envelope → Text) → List Tick → List Action
run_heartbeat marshal [] = []
run_heartbeat marshal (t ∷ ts) =
    let rest = run_heartbeat marshal ts in
    if overdue t.now t.last_pong
    then write_close 4001 (codes "heartbeat timeout") ∷ close_net ∷ []
    else write_message (ping_message marshal t.now) ∷ (if t.takes_ping then rest else [])

-- A connection's heartbeat in its session: the time of the last pong in milliseconds, if it has one.
unfoldable pub touch : ℕ → Option ℕ → Option ℕ
touch now none = none
touch now (some last) = some (now / 1000000)

-- `OnClose`.
unfoldable pub on_close : ℕ → Server → Server
on_close c s = record s { hub = remove c s.hub }

-- `OnPing` and `OnPong`.
unfoldable pub on_ping : Text → List Action
on_ping payload = write_pong payload ∷ []

unfoldable pub on_pong : List Action
on_pong = touch_heartbeat ∷ []

-- The goroutine of `handleWebSocket` around the read loop, which may panic.
unfoldable pub read_loop_ended : Bool → ℕ → Server → Server × List Action
read_loop_ended false c s = (s, [])
read_loop_ended true c s = (on_close c s, write_close 1011 [] ∷ [])
