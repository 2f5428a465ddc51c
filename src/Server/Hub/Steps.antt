-- ===== src/Server/Hub/Steps.antt =====
-- One call or round of the hub, with the commands that wait after it (internal/server/hub.go).
use smtc_now_playing.Prelude.{
  ℕ, Bool, true, false, List, [], ◌∷◌, ◌++◌, ◌==◌, ◌||◌, if◌then◌else◌, ◌≡◌, refl, ap, subst, ◌∙◌,
}
use smtc_now_playing.Server.Hub.{
  Hub, HubCmd, add_conn, remove_conn, broadcast_cmd, shutdown_hub, contains,
}
use smtc_now_playing.Server.Hub.Runs.{IsValid, Move, move, member, NoRemoval}
use smtc_now_playing.Server.Hub.Trace.{messages, accepted_of, effects_of}
use smtc_now_playing.Server.Hub.Delivery.{delivered, move-Serves}

-- Commands before others.
pub member-append :
    (cmds more : List HubCmd) (c : ℕ) (b : Bool)
    → NoRemoval c cmds
    → member (cmds ++ more) c b ≡ member more c (member cmds c b)
member-append [] more c b h = refl
member-append (add_conn d ∷ cmds) more c b h = member-append cmds more c (d == c || b) h
member-append (remove_conn d ∷ cmds) more c b (_, h) =
    member-append cmds more c (if d == c then false else b) h
member-append (broadcast_cmd msg ∷ cmds) more c b h = member-append cmds more c b h
member-append (shutdown_hub ∷ cmds) more c b h = absurd h

pub delivered-append :
    (cmds more : List HubCmd) (c : ℕ) (b : Bool)
    → NoRemoval c cmds
    → delivered (cmds ++ more) c b ≡ delivered cmds c b ++ delivered more c (member cmds c b)
delivered-append [] more c b h = refl
delivered-append (add_conn d ∷ cmds) more c b h = delivered-append cmds more c (d == c || b) h
delivered-append (remove_conn d ∷ cmds) more c b (_, h) =
    delivered-append cmds more c (if d == c then false else b) h
delivered-append (broadcast_cmd msg ∷ cmds) more c false h = delivered-append cmds more c false h
delivered-append (broadcast_cmd msg ∷ cmds) more c true h =
    ap (λ l. msg ∷ l) (delivered-append cmds more c true h)
delivered-append (shutdown_hub ∷ cmds) more c b h = absurd h

NoRemoval-append :
    (cmds more : List HubCmd) (c : ℕ)
    → NoRemoval c cmds
    → NoRemoval c more
    → NoRemoval c (cmds ++ more)
NoRemoval-append [] more c h k = k
NoRemoval-append (add_conn d ∷ cmds) more c h k = NoRemoval-append cmds more c h k
NoRemoval-append (remove_conn d ∷ cmds) more c (n, h) k = (n, NoRemoval-append cmds more c h k)
NoRemoval-append (broadcast_cmd msg ∷ cmds) more c h k = NoRemoval-append cmds more c h k
NoRemoval-append (shutdown_hub ∷ cmds) more c h k = absurd h

NoRemoval-parts :
    (cmds more : List HubCmd) (c : ℕ)
    → NoRemoval c (cmds ++ more)
    → NoRemoval c cmds × NoRemoval c more
NoRemoval-parts [] more c h = (tt, h)
NoRemoval-parts (add_conn d ∷ cmds) more c h = NoRemoval-parts cmds more c h
NoRemoval-parts (remove_conn d ∷ cmds) more c (n, h) =
    let (k, l) = NoRemoval-parts cmds more c h in ((n, k), l)
NoRemoval-parts (broadcast_cmd msg ∷ cmds) more c h = NoRemoval-parts cmds more c h
NoRemoval-parts (shutdown_hub ∷ cmds) more c h = absurd h

-- What a call or round writes to a connection comes before what it leaves waiting.
pub step_split :
    (m : Move) (h : Hub) (c : ℕ)
    → IsValid h
    → NoRemoval c h.ch
    → NoRemoval c (accepted_of m h)
    → let b = contains c h.connections in
      let g = move m h in
      NoRemoval c g.ch
      × (delivered (h.ch ++ accepted_of m h) c b
          ≡ messages c (effects_of m h) ++ delivered g.ch c (contains c g.connections))
      × (member (h.ch ++ accepted_of m h) c b ≡ member g.ch c (contains c g.connections))
step_split m h c v kept new =
    let (done, order, said, now) = move-Serves m h c v in
    let b = contains c h.connections in
    let g = move m h in
    let (before, after) =
      NoRemoval-parts done g.ch c
        (subst (NoRemoval c) order (NoRemoval-append h.ch (accepted_of m h) c kept new)) in
    (
      after,
      rw (said, now) (ap (λ l. delivered l c b) order ∙ delivered-append done g.ch c b before),
      rw now (ap (λ l. member l c b) order ∙ member-append done g.ch c b before),
    )
