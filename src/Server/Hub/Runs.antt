-- ===== src/Server/Hub/Runs.antt =====
-- The hub over any sequence of calls and rounds (internal/server/hub.go).
use smtc_now_playing.Prelude.{
  ℕ, ◌+◌, ◌≤◌, Bool, true, false, Option, none, some, List, [], ◌∷◌, Text, length, length-append,
  ◌==◌, ◌||◌, if◌then◌else◌, ◌≡◌, ◌≢◌, inl, inr, refl, ap, ◌∙◌, arith, Bool-cases,
}
use smtc_now_playing.Server.Hub.{
  Hub, HubCmd, add_conn, remove_conn, broadcast_cmd, shutdown_hub, Effect, write_message, close_net,
  contains, insert, delete, handle, take, take_command, cancel, add, remove, broadcast, shutdown,
  send, room, hub_chan_capacity, write_all, close_all,
}
use smtc_now_playing.Server.Hub.Set.{
  count, count-insert_le, count-delete, contains-count, contains-insert, contains-delete,
}

-- The channel is within its capacity, and each connection is held once.
pub record IsValid (h : Hub) : Type 0 where
  pub fits : length h.ch ≤ hub_chan_capacity
  pub once : (c : ℕ) → count c h.connections ≤ 1

-- A call by another goroutine, or a round of the loop.
pub data Move : Type 0 where
  adding removing : ℕ → Move
  broadcasting : Text → Move
  shutting_down taking cancelling : Move

-- A call of `Add` that has to wait has changed nothing yet.
abbrev added : Hub → Option Hub → Hub
added h none = h
added h (some g) = g

unfoldable pub move : Move → Hub → Hub
move (adding c) h = added h (add c h)
move (removing c) h = remove c h
move (broadcasting msg) h = broadcast msg h
move shutting_down h = shutdown h
move taking h = (take h).0
move cancelling h = (cancel h).0

unfoldable pub moves : List Move → Hub → Hub
moves [] h = h
moves (m ∷ ms) h = moves ms (move m h)

handle-once :
    (cmd : HubCmd) (h : Hub) (c : ℕ)
    → count c h.connections ≤ 1
    → count c (handle cmd h).0.connections ≤ 1
unfolding handle
handle-once (add_conn d) h c once = count-insert_le c d h.connections once
handle-once (remove_conn d) h c once = ground (arith, count-delete c d h.connections)
handle-once (broadcast_cmd msg) h c once = once
handle-once shutdown_hub h c once = once

handle-ch : (cmd : HubCmd) (h : Hub) → (handle cmd h).0.ch ≡ h.ch
unfolding handle
handle-ch cmd h = ground arith

take_command-IsValid :
    (cmds : List HubCmd) (h : Hub) → h.ch ≡ cmds → IsValid h → IsValid (take_command cmds h).0
take_command-IsValid [] h e v = v
take_command-IsValid (cmd ∷ rest) h e v =
    let g = record h { ch = rest } in
    record {
      fits = rw (handle-ch cmd g) (ground (arith, v.fits));
      once = λ c. handle-once cmd g c (v.once c);
    }

if-IsValid :
    (b : Bool) (x y : Hub × List Effect)
    → IsValid x.0
    → IsValid y.0
    → IsValid (if b then x else y).0
if-IsValid true x y vx vy = vx
if-IsValid false x y vx vy = vy

pub send-IsValid : (cmd : HubCmd) (h : Hub) → room h ≡ true → IsValid h → IsValid (send cmd h)
send-IsValid cmd h free v = record {
  fits = ground (arith, length-append h.ch (cmd ∷ []));
  once = v.once;
}

send_if_room-IsValid :
    (cmd : HubCmd) (h : Hub) → IsValid h → IsValid (if room h then send cmd h else h)
send_if_room-IsValid cmd h v = elim (Bool-cases (room h)) [
  | inl free ↦ rw free (send-IsValid cmd h free v)
  | inr full ↦ rw full v
]

pub added-room : (c : ℕ) (h : Hub) → added h (add c h) ≡ (if room h then send (add_conn c) h else h)
unfolding add
added-room c h = ground arith

pub move-IsValid : (m : Move) (h : Hub) → IsValid h → IsValid (move m h)
unfolding move remove broadcast shutdown take cancel
move-IsValid (adding c) h v = rw added-room (send_if_room-IsValid (add_conn c) h v)
move-IsValid (removing c) h v = send_if_room-IsValid (remove_conn c) h v
move-IsValid (broadcasting msg) h v = send_if_room-IsValid (broadcast_cmd msg) h v
move-IsValid shutting_down h v = send_if_room-IsValid shutdown_hub h v
move-IsValid taking h v =
    if-IsValid h.running (take_command h.ch h) (h, []) (take_command-IsValid h.ch h refl v) v
move-IsValid cancelling h v =
    if-IsValid h.running (record h { running = false }, close_all h.connections) (h, [])
      (record { fits = v.fits; once = v.once }) v

-- Whatever is called and in whatever order the loop runs, the channel never holds more than its
-- capacity and no connection stands in the set twice.
pub moves-IsValid : (ms : List Move) (h : Hub) → IsValid h → IsValid (moves ms h)
unfolding moves
moves-IsValid [] h v = v
moves-IsValid (m ∷ ms) h v = moves-IsValid ms (move m h) (move-IsValid m h v)

-- How often a message is written to a connection.
pub writes : ℕ → List Effect → ℕ
writes c [] = 0
writes c (write_message d msg ∷ es) = (if d == c then 1 else 0) + writes c es
writes c (_ ∷ es) = writes c es

writes-write_all : (c : ℕ) (msg : Text) (ds : List ℕ) → writes c (write_all msg ds) ≡ count c ds
unfolding writes write_all count
writes-write_all c msg [] = refl
writes-write_all c msg (d ∷ ds) = ground (arith, writes-write_all c msg ds)

-- A broadcast writes once to every connection of the set, and to no other.
pub broadcast_reaches :
    (c : ℕ) (msg : Text) (h : Hub)
    → IsValid h
    → writes c (handle (broadcast_cmd msg) h).1 ≡ (if contains c h.connections then 1 else 0)
unfolding handle
broadcast_reaches c msg h v =
    ground (arith, writes-write_all c msg h.connections, contains-count c h.connections, v.once c)

-- What the commands of the channel make of one connection's membership.
abbrev pub member : List HubCmd → ℕ → Bool → Bool
member [] c b = b
member (add_conn d ∷ cmds) c b = member cmds c (d == c || b)
member (remove_conn d ∷ cmds) c b = member cmds c (if d == c then false else b)
member (broadcast_cmd msg ∷ cmds) c b = member cmds c b
member (shutdown_hub ∷ cmds) c b = b

-- The loop until the channel is empty or it has returned.
pub drain : List HubCmd → Hub → Hub
drain [] h = h
drain (cmd ∷ cmds) h =
    let g = (handle cmd (record h { ch = cmds })).0 in if g.running then drain cmds g else g

-- Once the loop has come to the end of the channel, the set holds exactly the connections that the
-- commands say: those whose last command added them, and those that no command took out.
pub contains-drain :
    (cmds : List HubCmd) (h : Hub) (c : ℕ)
    → h.running ≡ true
    → contains c (drain cmds h).connections ≡ member cmds c (contains c h.connections)
unfolding drain handle
contains-drain [] h c on = refl
contains-drain (add_conn d ∷ cmds) h c on =
    let g : Hub = record { ch = cmds; connections = insert d h.connections; running = true } in
    rw on (contains-drain cmds g c refl ∙ ap (member cmds c) (contains-insert c d h.connections))
contains-drain (remove_conn d ∷ cmds) h c on =
    let g : Hub = record { ch = cmds; connections = delete d h.connections; running = true } in
    rw on (contains-drain cmds g c refl ∙ ap (member cmds c) (contains-delete c d h.connections))
contains-drain (broadcast_cmd msg ∷ cmds) h c on =
    let g : Hub = record { ch = cmds; connections = h.connections; running = true } in
    rw on (contains-drain cmds g c refl)
contains-drain (shutdown_hub ∷ cmds) h c on = refl

-- Neither a removal of the connection nor a shutdown.
abbrev pub NoRemoval : ℕ → List HubCmd → Type 0
NoRemoval c [] = Unit
NoRemoval c (remove_conn d ∷ cmds) = (d ≢ c) × NoRemoval c cmds
NoRemoval c (shutdown_hub ∷ cmds) = ⊥
NoRemoval c (_ ∷ cmds) = NoRemoval c cmds

pub member_kept :
    (cmds : List HubCmd) (c : ℕ) (b : Bool) → NoRemoval c cmds → b ≡ true → member cmds c b ≡ true
member_kept [] c b h e = e
member_kept (add_conn d ∷ cmds) c b h e = member_kept cmds c (d == c || b) h (ground arith)
member_kept (remove_conn d ∷ cmds) c b (ne, h) e =
    member_kept cmds c (if d == c then false else b) h (ground arith)
member_kept (broadcast_cmd msg ∷ cmds) c b h e = member_kept cmds c b h e
member_kept (shutdown_hub ∷ cmds) c b h e = absurd h

-- A `Remove` that finds the channel full is lost without a trace: if no other removal of the
-- connection and no shutdown waits in the channel, the closed connection is still in the set when
-- the channel has been worked off.
pub remove_lost :
    (c : ℕ) (h : Hub)
    → h.running ≡ true
    → length h.ch ≡ hub_chan_capacity
    → contains c h.connections ≡ true
    → NoRemoval c h.ch
    → (remove c h ≡ h) × (contains c (drain (remove c h).ch (remove c h)).connections ≡ true)
unfolding remove
remove_lost c h on full held none_waits =
    let kept : (if room h then send (remove_conn c) h else h) ≡ h = ground arith in
    (
      kept,
      rw kept (
          contains-drain h.ch h c on
          ∙ member_kept h.ch c (contains c h.connections) none_waits held),
    )

-- Once the loop has returned, no round changes the set or does anything to a connection.
pub stopped_is_silent : (h : Hub) → h.running ≡ false → (take h ≡ (h, [])) × (cancel h ≡ (h, []))
unfolding take cancel
stopped_is_silent h off = (ground arith, ground arith)

-- How often a connection is closed.
pub closes : ℕ → List Effect → ℕ
closes c [] = 0
closes c (close_net d ∷ es) = (if d == c then 1 else 0) + closes c es
closes c (_ ∷ es) = closes c es

closes-close_all : (c : ℕ) (ds : List ℕ) → closes c (close_all ds) ≡ count c ds
unfolding closes close_all count
closes-close_all c [] = refl
closes-close_all c (d ∷ ds) = ground (arith, closes-close_all c ds)

-- The end of the loop, by cancellation or by the shutdown command, closes every connection of the
-- set once and no other.
pub end_closes_all :
    (c : ℕ) (h : Hub)
    → IsValid h
    → h.running ≡ true
    → let all_closed : ℕ = if contains c h.connections then 1 else 0 in
      (closes c (cancel h).1 ≡ all_closed)
      × (closes c (handle shutdown_hub h).1 ≡ all_closed)
      × ((cancel h).0.running ≡ false)
      × ((handle shutdown_hub h).0.running ≡ false)
unfolding cancel handle
end_closes_all c h v on =
    ground (arith, closes-close_all c h.connections, contains-count c h.connections, v.once c)
