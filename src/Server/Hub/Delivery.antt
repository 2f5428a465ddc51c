-- ===== src/Server/Hub/Delivery.antt =====
-- What the hub writes to one connection, over any sequence of calls and rounds (internal/server/hub.go).
use smtc_now_playing.Prelude.{
  ℕ, ◌≤◌, Bool, true, false, List, [], ◌∷◌, ◌++◌, Text, ◌==◌, ◌||◌, if◌then◌else◌, ◌≡◌, refl, sym,
  ap, subst, ◌∙◌, arith, append-nil, append_assoc,
}
use smtc_now_playing.Server.Hub.{
  Hub, HubCmd, add_conn, remove_conn, broadcast_cmd, shutdown_hub, Effect, contains, handle, take,
  take_command, cancel, send, write_all, close_all,
}
use smtc_now_playing.Server.Hub.Set.{count, contains-insert, contains-delete}
use smtc_now_playing.Server.Hub.Runs.{IsValid, Move, move, moves, member, move-IsValid}
use smtc_now_playing.Server.Hub.Trace.{
  messages, accepted_of, effects_of, accepted, effects, messages-append, messages-close_all,
  messages-write_all, moves_elim,
}

-- What the commands, read one after the other, say that a connection gets, if it is in the set or not.
abbrev pub delivered : List HubCmd → ℕ → Bool → List Text
delivered [] c b = []
delivered (add_conn d ∷ cmds) c b = delivered cmds c (d == c || b)
delivered (remove_conn d ∷ cmds) c b = delivered cmds c (if d == c then false else b)
delivered (broadcast_cmd msg ∷ cmds) c b =
    let rest = delivered cmds c b in if b then msg ∷ rest else rest
delivered (shutdown_hub ∷ cmds) c b = []

-- The commands done come first of those that were on the channel or were put on it, the others are
-- still there; and the connection has got what those done say, and is in the set if they say so.
abbrev pub Serves : ℕ → Hub → List HubCmd → List Effect → Hub → Type 0
Serves c h cmds es g =
    (done : List HubCmd) × (h.ch ++ cmds ≡ done ++ g.ch)
    × (messages c es ≡ delivered done c (contains c h.connections))
    × (contains c g.connections ≡ member done c (contains c h.connections))

-- After its end the loop does nothing.
abbrev Stops : ℕ → Hub → List HubCmd → List Effect → Hub → Type 0
Stops c h cmds es g =
    h.running ≡ false
    → (h.ch ++ cmds ≡ g.ch) × (messages c es ≡ []) × (g.connections ≡ h.connections)

done-Serves :
    (c : ℕ) (cmd : HubCmd) (rest : List HubCmd) (h : Hub) (cmds : List HubCmd) (es : List Effect)
    (g : Hub)
    → count c h.connections ≤ 1
    → h.ch ≡ cmd ∷ rest
    → let next = handle cmd (record h { ch = rest }) in
      Stops c next.0 cmds es g × Serves c next.0 cmds es g → Serves c h cmds (next.1 ++ es) g
unfolding handle messages
done-Serves c (add_conn d) rest h cmds es g once e (_, (done, order, said, kept)) = (
  add_conn d ∷ done,
  ap (λ l. l ++ cmds) e ∙ ap (λ l. add_conn d ∷ l) order,
  said ∙ ap (delivered done c) (contains-insert c d h.connections),
  kept ∙ ap (member done c) (contains-insert c d h.connections),
)
done-Serves c (remove_conn d) rest h cmds es g once e (_, (done, order, said, kept)) = (
  remove_conn d ∷ done,
  ap (λ l. l ++ cmds) e ∙ ap (λ l. remove_conn d ∷ l) order,
  said ∙ ap (delivered done c) (contains-delete c d h.connections),
  kept ∙ ap (member done c) (contains-delete c d h.connections),
)
done-Serves c (broadcast_cmd msg) rest h cmds es g once e (_, (done, order, said, kept)) = (
  broadcast_cmd msg ∷ done,
  ap (λ l. l ++ cmds) e ∙ ap (λ l. broadcast_cmd msg ∷ l) order,
  ground (
    arith,
    messages-append c (write_all msg h.connections) es,
    messages-write_all c msg h.connections once,
    said,
  ),
  kept,
)
done-Serves c shutdown_hub rest h cmds es g once e (stops, _) =
    let (order, silent, same) = stops refl in
    (
      shutdown_hub ∷ [],
      ap (λ l. l ++ cmds) e ∙ ap (λ l. shutdown_hub ∷ l) order,
      messages-append c (close_all h.connections) es
          ∙ ap (λ l. l ++ messages c es) (messages-close_all c h.connections)
          ∙ silent,
      ap (contains c) same,
    )

-- Both together, which a round keeps.
abbrev Tracks : ℕ → Hub → List HubCmd → List Effect → Hub → Type 0
Tracks c h cmds es g = Stops c h cmds es g × Serves c h cmds es g

sent-Tracks :
    (c : ℕ) (cmd : HubCmd) (h g : Hub) (cmds : List HubCmd) (es : List Effect)
    → Tracks c (send cmd h) cmds es g
    → Tracks c h (cmd ∷ cmds) es g
sent-Tracks c cmd h g cmds es (stops, (done, order, said, kept)) =
    let here = sym (append_assoc h.ch (cmd ∷ []) cmds) in
    (
      (λ off. (here ∙ (stops off).0, (stops off).1, (stops off).2)),
      (done, here ∙ order, said, kept),
    )

round-Tracks :
    (c : ℕ) (h g : Hub) (cmds : List HubCmd) (es : List Effect) (on : Bool) (queue : List HubCmd)
    → h.running ≡ on
    → h.ch ≡ queue
    → IsValid h
    → let r = if on then take_command queue h else (h, []) in
      Tracks c r.0 cmds es g → Tracks c h cmds (r.1 ++ es) g
round-Tracks c h g cmds es false queue now e v p = p
round-Tracks c h g cmds es true [] now e v p = p
round-Tracks c h g cmds es true (cmd ∷ rest) now e v p =
    ((λ off. absurd (ground arith)), done-Serves c cmd rest h cmds es g (v.once c) e p)

taken-Tracks :
    (c : ℕ) (h g : Hub) (cmds : List HubCmd) (es : List Effect)
    → IsValid h
    → Tracks c (take h).0 cmds es g
    → Tracks c h cmds ((take h).1 ++ es) g
unfolding take
taken-Tracks c h g cmds es v p = round-Tracks c h g cmds es h.running h.ch refl refl v p

end-Tracks :
    (c : ℕ) (h g : Hub) (cmds : List HubCmd) (es : List Effect) (on : Bool)
    → h.running ≡ on
    → let closed : Hub × List Effect = (record h { running = false }, close_all h.connections) in
      let r = if on then closed else (h, []) in
      Tracks c r.0 cmds es g → Tracks c h cmds (r.1 ++ es) g
end-Tracks c h g cmds es false now p = p
end-Tracks c h g cmds es true now (_, (done, order, said, kept)) = (
  (λ off. absurd (ground arith)),
  (
    done,
    order,
    messages-append c (close_all h.connections) es
        ∙ ap (λ l. l ++ messages c es) (messages-close_all c h.connections)
        ∙ said,
    kept,
  ),
)

cancelled-Tracks :
    (c : ℕ) (h g : Hub) (cmds : List HubCmd) (es : List Effect)
    → Tracks c (cancel h).0 cmds es g
    → Tracks c h cmds ((cancel h).1 ++ es) g
unfolding cancel
cancelled-Tracks c h g cmds es p = end-Tracks c h g cmds es h.running refl p

-- In every order of calls and rounds: the commands that the hub has done are the first of those that
-- were on its channel or found room there, in their order, and the others still wait; a connection has
-- got exactly the messages that those done, read one after the other, say, and is in the set if they
-- say so.
pub moves-Serves :
    (ms : List Move) (h : Hub) (c : ℕ)
    → IsValid h
    → Serves c h (accepted ms h) (effects ms h) (moves ms h)
unfolding messages
moves-Serves ms h c v =
    (moves_elim (Tracks c) IsValid move-IsValid
      (λ h v. ((λ off. (append-nil h.ch, refl, refl)), ([], append-nil h.ch, refl, refl)))
      (sent-Tracks c) (taken-Tracks c) (cancelled-Tracks c) ms h v).1

-- The same of one call or round.
pub move-Serves :
    (m : Move) (h : Hub) (c : ℕ)
    → IsValid h
    → Serves c h (accepted_of m h) (effects_of m h) (move m h)
unfolding accepted effects moves
move-Serves m h c v =
    subst (λ cmds. Serves c h cmds (effects_of m h) (move m h)) (append-nil (accepted_of m h))
      (subst (λ es. Serves c h (accepted_of m h ++ []) es (move m h)) (append-nil (effects_of m h))
        (moves-Serves (m ∷ []) h c v))
