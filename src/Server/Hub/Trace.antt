-- ===== src/Server/Hub/Trace.antt =====
-- The commands that calls put on the hub's channel and the effects of its rounds, over any sequence of
-- both (internal/server/hub.go).
use smtc_now_playing.Prelude.{
  ℕ, ◌≤◌, Bool, true, false, List, [], ◌∷◌, ◌++◌, Text, ◌==◌, if◌then◌else◌, ◌≡◌, ◌⊎◌, inl, inr,
  refl, sym, subst, arith,
}
use smtc_now_playing.Server.Hub.{
  Hub, HubCmd, add_conn, remove_conn, broadcast_cmd, shutdown_hub, Effect, write_message, contains,
  take, cancel, remove, broadcast, shutdown, send, room, write_all, close_all,
}
use smtc_now_playing.Server.Hub.Set.{count}
use smtc_now_playing.Server.Hub.Runs.{
  Move, adding, removing, broadcasting, shutting_down, taking, cancelling, move, moves, added-room,
}

-- The messages written to a connection.
unfoldable pub messages : ℕ → List Effect → List Text
messages c [] = []
messages c (write_message d msg ∷ es) =
    let rest = messages c es in if d == c then msg ∷ rest else rest
messages c (_ ∷ es) = messages c es

-- The commands that calls put on the channel, and what the rounds do to connections.
unfoldable pub accepted_of : Move → Hub → List HubCmd
accepted_of (adding c) h = if room h then add_conn c ∷ [] else []
accepted_of (removing c) h = if room h then remove_conn c ∷ [] else []
accepted_of (broadcasting msg) h = if room h then broadcast_cmd msg ∷ [] else []
accepted_of shutting_down h = if room h then shutdown_hub ∷ [] else []
accepted_of _ h = []

unfoldable pub effects_of : Move → Hub → List Effect
effects_of taking h = (take h).1
effects_of cancelling h = (cancel h).1
effects_of _ h = []

unfoldable pub accepted : List Move → Hub → List HubCmd
accepted [] h = []
accepted (m ∷ ms) h = accepted_of m h ++ accepted ms (move m h)

unfoldable pub effects : List Move → Hub → List Effect
effects [] h = []
effects (m ∷ ms) h = effects_of m h ++ effects ms (move m h)

pub messages-append :
    (c : ℕ) (es fs : List Effect) → messages c (es ++ fs) ≡ messages c es ++ messages c fs
unfolding messages
messages-append c [] fs = refl
messages-append c (write_message d msg ∷ es) fs = ground (arith, messages-append c es fs)
messages-append c (e ∷ es) fs = messages-append c es fs

pub messages-close_all : (c : ℕ) (ds : List ℕ) → messages c (close_all ds) ≡ []
unfolding messages close_all
messages-close_all c [] = refl
messages-close_all c (d ∷ ds) = messages-close_all c ds

pub messages-absent :
    (c : ℕ) (msg : Text) (ds : List ℕ) → count c ds ≡ 0 → messages c (write_all msg ds) ≡ []
unfolding messages write_all count
messages-absent c msg [] h = refl
messages-absent c msg (d ∷ ds) h = ground (arith, messages-absent c msg ds)

pub messages-write_all :
    (c : ℕ) (msg : Text) (ds : List ℕ)
    → count c ds ≤ 1
    → messages c (write_all msg ds) ≡ (if contains c ds then msg ∷ [] else [])
unfolding messages write_all count contains
messages-write_all c msg [] h = refl
messages-write_all c msg (d ∷ ds) h =
    ground (arith, messages-absent c msg ds, messages-write_all c msg ds)

-- What a move does: the new state, the commands accepted and the effects.
abbrev Step : Type 0
Step = Hub × List HubCmd × List Effect

abbrev step_of : Move → Hub → Step
step_of m h = (move m h, accepted_of m h, effects_of m h)

abbrev sending : Bool → HubCmd → Hub → Step
sending free cmd h = (if free then send cmd h else h, if free then cmd ∷ [] else [], [])

abbrev round : Hub × List Effect → Step
round r = (r.0, [], r.1)

step_cases :
    (m : Move) (h : Hub)
    → ((cmd : HubCmd) × (step_of m h ≡ sending (room h) cmd h))
      ⊎ ((step_of m h ≡ round (take h)) ⊎ (step_of m h ≡ round (cancel h)))
unfolding move accepted_of effects_of remove broadcast shutdown
step_cases (adding c) h = inl (add_conn c, rw added-room refl)
step_cases (removing c) h = inl (remove_conn c, refl)
step_cases (broadcasting msg) h = inl (broadcast_cmd msg, refl)
step_cases shutting_down h = inl (shutdown_hub, refl)
step_cases taking h = inr (inl refl)
step_cases cancelling h = inr (inr refl)

-- Rules for what holds over moves: for a command that finds room, and for the two rounds.
pub moves_elim :
    (P : Hub → List HubCmd → List Effect → Hub → Type 0) (V : Hub → Type 0)
    → ((m : Move) (h : Hub) → V h → V (move m h))
    → ((h : Hub) → V h → P h [] [] h)
    → ((cmd : HubCmd) (h g : Hub) (cmds : List HubCmd) (es : List Effect)
        → P (send cmd h) cmds es g
        → P h (cmd ∷ cmds) es g)
    → ((h g : Hub) (cmds : List HubCmd) (es : List Effect)
        → V h
        → P (take h).0 cmds es g
        → P h cmds ((take h).1 ++ es) g)
    → ((h g : Hub) (cmds : List HubCmd) (es : List Effect)
        → P (cancel h).0 cmds es g
        → P h cmds ((cancel h).1 ++ es) g)
    → (ms : List Move) (h : Hub) → V h
    → P h (accepted ms h) (effects ms h) (moves ms h)
unfolding accepted effects moves
moves_elim P V keeps none_yet sent taken ended [] h v = none_yet h v
moves_elim P V keeps none_yet sent taken ended (m ∷ ms) h v =
    let later = moves_elim P V keeps none_yet sent taken ended ms (move m h) (keeps m h v) in
    let Goes : Step → Type 0 = λ t.
      P t.0 (accepted ms t.0) (effects ms t.0) (moves ms t.0)
      → P h (t.1 ++ accepted ms t.0) (t.2 ++ effects ms t.0) (moves ms t.0) in
    let goes_sending : (cmd : HubCmd) (free : Bool) → Goes (sending free cmd h) = λ cmd free.
      elim free as (λ k. Goes (sending k cmd h)) [
        | false ↦ λ p. p
        | true ↦ λ p.
            sent cmd h (moves ms (send cmd h)) (accepted ms (send cmd h)) (effects ms (send cmd h))
              p
      ] in
    elim (step_cases m h) [
      | inl (cmd, e) ↦ subst Goes (sym e) (goes_sending cmd (room h)) later
      | inr (inl e) ↦
          subst Goes (sym e)
            (taken h (moves ms (take h).0) (accepted ms (take h).0) (effects ms (take h).0) v) later
      | inr (inr e) ↦
          subst Goes (sym e)
            (ended h (moves ms (cancel h).0) (accepted ms (cancel h).0) (effects ms (cancel h).0))
            later
    ]
