-- ===== src/Server/Connection/Heartbeat.antt =====
-- When the heartbeat of a connection ends it.
use smtc_now_playing.Prelude.{
  ℕ, ◌+◌, ◌*◌, ◌/◌, ◌%◌, ◌≤◌, true, some, List, [], ◌∷◌, ◌==◌, Text, All, map, codes, ◌≡◌, refl,
  arith, if◌then◌else◌,
}
use smtc_now_playing.Wsproto.{Envelope}
use smtc_now_playing.Server.Connection.{
  Action, write_message, write_close, close_net, Tick, ping_message, run_heartbeat,
  ws_heartbeat_timeout, ws_heartbeat_interval,
}

-- The client's last pong is not older than the timeout, and the connection takes the ping.
abbrev pub InTime : Tick → Type 0
InTime t =
    ((last : ℕ) × (t.last_pong ≡ some last) × (t.now ≤ last * 1000000 + ws_heartbeat_timeout))
    × (t.takes_ping ≡ true)

-- A client whose pongs are never older than the timeout is pinged at every tick and never closed.
pub run_heartbeat-InTime :
    (marshal : Envelope → Text) (ts : List Tick)
    → All InTime ts
    → run_heartbeat marshal ts ≡ map (λ t. write_message (ping_message marshal t.now)) ts
unfolding run_heartbeat
run_heartbeat-InTime marshal [] h = refl
run_heartbeat-InTime marshal (t ∷ ts) (((last, e, recent), takes), h) =
    rw (e, takes) (ground (arith, run_heartbeat-InTime marshal ts h))

-- The tick that is due `k` intervals after `start` and comes `late`, of a client that has sent no pong
-- since: its last pong is stamped when the connection opens, at `start`.
abbrev pub silent_tick : ℕ → ℕ → ℕ → Tick
silent_tick start k late = record {
  now = start + k * ws_heartbeat_interval + late;
  last_pong = some (start / 1000000);
  takes_ping = true;
}

abbrev pub closing : List Action
closing = write_close 4001 (codes "heartbeat timeout") ∷ close_net ∷ []

abbrev pub ping_at : (Envelope → Text) → Tick → Action
ping_at marshal t = write_message (ping_message marshal t.now)

-- A client that stays silent is closed at the third tick, after two pings, if each of the first two ticks
-- comes late by at most the interval less a millisecond: late for the start of the ticker after the
-- stamp, or for the receiver. There is one exception, as the stamp is in milliseconds: a third tick
-- exactly three intervals after a stamp at a full millisecond pings, and the next tick closes if it comes
-- at least an interval later.
pub run_heartbeat_silent :
    (marshal : Envelope → Text) (start l1 l2 l3 l4 : ℕ) (more : List Tick)
    → l1 + 1000000 ≤ ws_heartbeat_interval
    → l2 + 1000000 ≤ ws_heartbeat_interval
    → let t1 = silent_tick start 1 l1 in
      let t2 = silent_tick start 2 l2 in
      let t3 = silent_tick start 3 l3 in
      let t4 = silent_tick start 4 l4 in
      run_heartbeat marshal (t1 ∷ t2 ∷ t3 ∷ t4 ∷ more)
      ≡ ping_at marshal t1
        ∷ ping_at marshal t2
        ∷ (if start % 1000000 + l3 == 0 then ping_at marshal t3 ∷ closing else closing)
unfolding run_heartbeat
run_heartbeat_silent marshal start l1 l2 l3 l4 more h1 h2 = ground arith
