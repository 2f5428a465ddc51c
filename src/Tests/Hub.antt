-- ===== src/Tests/Hub.antt =====
-- The hub at concrete inputs.
use smtc_now_playing.Prelude.{ℕ, ◌≤◌, true, List, [], ◌∷◌, codes, ==_iff, arith}
use smtc_now_playing.Server.Hub.{Hub, broadcast_cmd}
use smtc_now_playing.Server.Hub.Set.{count}
use smtc_now_playing.Server.Hub.Runs.{
  IsValid, Move, adding, removing, broadcasting, shutting_down, taking, cancelling, moves,
}
use smtc_now_playing.Server.Hub.Trace.{accepted, effects}
use smtc_now_playing.Server.Hub.Delivery.{Serves, moves-Serves}

abbrev two_connections : Hub
two_connections = record {
  ch = broadcast_cmd (codes "a") ∷ [];
  connections = 1 ∷ 2 ∷ [];
  running = true;
}

two_connections-once : (c : ℕ) → count c two_connections.connections ≤ 1
unfolding count
two_connections-once c = ground (arith, ==_iff 1 c, ==_iff 2 c)

two_connections-IsValid : IsValid two_connections
two_connections-IsValid = record { fits = omega arith; once = two_connections-once }

abbrev hub_moves : List Move
hub_moves =
    taking
    ∷ adding 3
    ∷ removing 1
    ∷ broadcasting (codes "b")
    ∷ taking
    ∷ taking
    ∷ taking
    ∷ shutting_down
    ∷ taking
    ∷ cancelling
    ∷ []

moves-Serves_example :
    Serves 1 two_connections
      (accepted hub_moves two_connections)
      (effects hub_moves two_connections)
      (moves hub_moves two_connections)
moves-Serves_example = moves-Serves hub_moves two_connections 1 two_connections-IsValid
