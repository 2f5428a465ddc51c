-- ===== src/Server/State/Turns.antt =====
-- A connected client through the events of the service and the hub's moves, in any order.
use smtc_now_playing.Prelude.{
  ℕ, Bool, true, false, List, [], ◌∷◌, ◌++◌, Text, text_eq, if◌then◌else◌, ◌≡◌, ◌≢◌, refl, sym, ap,
  subst, ◌∙◌,
}
use smtc_now_playing.Prelude.Int.{ℤ}
use smtc_now_playing.Smtc.Types.{Event}
use smtc_now_playing.Wsproto.{Envelope, msg_reload}
use smtc_now_playing.Server.Hub.{Hub, HubCmd, add_conn, remove_conn, broadcast_cmd, contains, room}
use smtc_now_playing.Server.Hub.Runs.{
  Move, adding, removing, broadcasting, shutting_down, taking, cancelling, move, NoRemoval,
}
use smtc_now_playing.Server.Hub.Trace.{messages, accepted_of, effects_of}
use smtc_now_playing.Server.Hub.Delivery.{delivered}
use smtc_now_playing.Server.State.{Server, handle_event}
use smtc_now_playing.Server.State.Following.{
  Seen, look, look-append, Follows, move-Follows, handle_event-Follows,
}

-- An event of the service that the server handles, or a move of the hub.
pub data Turn : Type 0 where
  event_handled : ℤ → Event → Turn
  hub_moved : Move → Turn

module _ (marshal : Envelope → Text) (sha256_hex : Text → Text) where
  abbrev pub served : List Turn → Server → Server
  served [] s = s
  served (event_handled now ev ∷ ts) s = served ts (handle_event marshal sha256_hex now ev s)
  served (hub_moved m ∷ ts) s = served ts (record s { hub = move m s.hub })

  -- The messages that the client gets meanwhile.
  abbrev pub written : ℕ → List Turn → Server → List Text
  written c [] s = []
  written c (event_handled now ev ∷ ts) s = written c ts (handle_event marshal sha256_hex now ev s)
  written c (hub_moved m ∷ ts) s =
      messages c (effects_of m s.hub) ++ written c ts (record s { hub = move m s.hub })

module _ (type_of : Text → Text) where
  -- The client stays: it is not removed and the hub not ended, and others broadcast only reloads.
  abbrev pub StaysIn : ℕ → Move → Type 0
  StaysIn c (adding d) = Unit
  StaysIn c (removing d) = d ≢ c
  StaysIn c (broadcasting msg) = type_of msg ≡ msg_reload
  StaysIn c shutting_down = ⊥
  StaysIn c taking = Unit
  StaysIn c cancelling = ⊥

  -- A command that is put there, if there is room, changes nothing of what is seen.
  if_room :
      (free : Bool) (cmd : HubCmd) (c : ℕ) (v : Seen)
      → NoRemoval c (cmd ∷ [])
      → look type_of (delivered (cmd ∷ []) c true) v ≡ v
      → let cmds = if free then cmd ∷ [] else [] in
        NoRemoval c cmds × (look type_of (delivered cmds c true) v ≡ v)
  unfolding look
  if_room false cmd c v stays same = (tt, refl)
  if_room true cmd c v stays same = (stays, same)

  pub silent :
      (m : Move) (h : Hub) (c : ℕ) (v : Seen)
      → StaysIn c m
      → NoRemoval c (accepted_of m h) × (look type_of (delivered (accepted_of m h) c true) v ≡ v)
  unfolding accepted_of look text_eq
  silent (adding d) h c v stays = if_room (room h) (add_conn d) c v tt refl
  silent (removing d) h c v stays = if_room (room h) (remove_conn d) c v (stays, tt) refl
  silent (broadcasting msg) h c v stays =
      if_room (room h) (broadcast_cmd msg) c v tt (rw stays refl)
  silent shutting_down h c v stays = absurd stays
  silent taking h c v stays = (tt, refl)
  silent cancelling h c v stays = absurd stays

  move-StaysIn :
      (m : Move) (c : ℕ) (v : Seen) (s : Server)
      → StaysIn c m
      → Follows type_of c v s
      → Follows type_of c
          (look type_of (messages c (effects_of m s.hub)) v)
          (record s { hub = move m s.hub })
  move-StaysIn m c v s stays f =
      let (new, same) = silent m s.hub c (s.state.info_json, s.state.progress_json) stays in
      move-Follows type_of m c v s s.state f new same

  module _ (marshal : Envelope → Text) (sha256_hex : Text → Text) where
    abbrev pub Undisturbed : ℕ → List Turn → Server → Type 0
    Undisturbed c [] s = Unit
    Undisturbed c (event_handled now ev ∷ ts) s =
        (room s.hub ≡ true) × Undisturbed c ts (handle_event marshal sha256_hex now ev s)
    Undisturbed c (hub_moved m ∷ ts) s =
        StaysIn c m × Undisturbed c ts (record s { hub = move m s.hub })

    pub turns-Follows :
        ((e : Envelope) → type_of (marshal e) ≡ e.type)
        → (ts : List Turn) (c : ℕ) (v : Seen) (s : Server) → Undisturbed c ts s
        → Follows type_of c v s
        → Follows type_of c
            (look type_of (written marshal sha256_hex c ts s) v)
            (served marshal sha256_hex ts s)
    unfolding look
    turns-Follows typed [] c v s _ f = f
    turns-Follows typed (event_handled now ev ∷ ts) c v s (free, u) f =
        turns-Follows typed ts c v (handle_event marshal sha256_hex now ev s) u
          (handle_event-Follows type_of marshal sha256_hex typed now ev c v s free f)
    turns-Follows typed (hub_moved m ∷ ts) c v s (stays, u) f =
        let now = look type_of (messages c (effects_of m s.hub)) v in
        let next : Server = record s { hub = move m s.hub } in
        subst (λ w. Follows type_of c w (served marshal sha256_hex ts next))
          (sym (
            look-append type_of (messages c (effects_of m s.hub))
              (written marshal sha256_hex c ts next) v))
          (turns-Follows typed ts c now next u (move-StaysIn m c v s stays f))

    -- A client that follows the server keeps doing so: whatever events, calls of the hub and rounds there
    -- are in whatever order, as long as events find room for their messages, others broadcast only
    -- reloads, the client is not removed and the hub not ended, when no command waits the client has
    -- seen last the very messages that the snapshot holds.
    pub turns_seen :
        ((e : Envelope) → type_of (marshal e) ≡ e.type)
        → (ts : List Turn) (c : ℕ) (v : Seen) (s : Server) → Undisturbed c ts s
        → Follows type_of c v s
        → (served marshal sha256_hex ts s).hub.ch ≡ []
        → let t = served marshal sha256_hex ts s in
          look type_of (written marshal sha256_hex c ts s) v
          ≡ (t.state.info_json, t.state.progress_json)
    unfolding look
    turns_seen typed ts c v s u f idle =
        let g = turns-Follows typed ts c v s u f in
        let waits =
          ap (λ l. delivered l c (contains c (served marshal sha256_hex ts s).hub.connections))
            idle in
        sym (ap (λ l. look type_of l (look type_of (written marshal sha256_hex c ts s) v)) waits)
        ∙ g.synced
