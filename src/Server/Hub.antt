-- ===== src/Server/Hub.antt =====
-- internal/server/hub.go: one goroutine owns the set of WebSocket connections and takes commands from
-- a channel. Connections are numbers; an error of a write is only logged.
pub mod Set
pub mod Runs
pub mod Trace
pub mod Delivery
pub mod Steps
use smtc_now_playing.Prelude.{
  ℕ, Bool, true, false, not, Option, none, some, List, [], ◌∷◌, ◌++◌, map, Text, length, ◌==◌, ◌||◌,
  if◌then◌else◌,
}
use smtc_now_playing.Prelude.Tests.{ltb}

abbrev pub hub_chan_capacity : ℕ
hub_chan_capacity = 64

pub data HubCmd : Type 0 where
  add_conn : ℕ → HubCmd
  remove_conn : ℕ → HubCmd
  broadcast_cmd : Text → HubCmd
  shutdown_hub : HubCmd

-- The channel, oldest command first, the set of connections, and whether `Run` still runs.
pub record Hub : Type 0 where
  pub ch : List HubCmd
  pub connections : List ℕ
  pub running : Bool

abbrev pub new_hub : Hub
new_hub = record { ch = []; connections = []; running = true }

-- What the hub does to a connection.
pub data Effect : Type 0 where
  write_message : ℕ → Text → Effect
  write_close : ℕ → ℕ → Effect
  close_net : ℕ → Effect

-- A Go map used as a set.
unfoldable pub contains : ℕ → List ℕ → Bool
contains c [] = false
contains c (d ∷ ds) = d == c || contains c ds

unfoldable pub insert : ℕ → List ℕ → List ℕ
insert c ds = if contains c ds then ds else ds ++ c ∷ []

unfoldable pub delete : ℕ → List ℕ → List ℕ
delete c [] = []
delete c (d ∷ ds) = if d == c then delete c ds else d ∷ delete c ds

-- Each connection is closed with the code 1000, then its network connection.
unfoldable pub close_all : List ℕ → List Effect
close_all [] = []
close_all (c ∷ cs) = write_close c 1000 ∷ close_net c ∷ close_all cs

unfoldable pub write_all : Text → List ℕ → List Effect
write_all msg [] = []
write_all msg (c ∷ cs) = write_message c msg ∷ write_all msg cs

-- The `switch` of `Run`.
unfoldable pub handle : HubCmd → Hub → Hub × List Effect
handle (add_conn c) h = (record h { connections = insert c h.connections }, [])
handle (remove_conn c) h = (record h { connections = delete c h.connections }, [])
handle (broadcast_cmd msg) h = (h, write_all msg h.connections)
handle shutdown_hub h = (record h { running = false }, close_all h.connections)

abbrev take_command : List HubCmd → Hub → Hub × List Effect
take_command [] h = (h, [])
take_command (cmd ∷ rest) h = handle cmd (record h { ch = rest })

-- A round of the loop that takes a command; with none there, or after the return, nothing happens.
unfoldable pub take : Hub → Hub × List Effect
take h = if h.running then take_command h.ch h else (h, [])

-- A round that sees the context cancelled.
unfoldable pub cancel : Hub → Hub × List Effect
cancel h = if h.running then (record h { running = false }, close_all h.connections) else (h, [])

abbrev pub room : Hub → Bool
room h = ltb (length h.ch) hub_chan_capacity

abbrev pub send : HubCmd → Hub → Hub
send cmd h = record h { ch = h.ch ++ cmd ∷ [] }

-- `Add` waits for room: `none` while there is none.
unfoldable pub add : ℕ → Hub → Option Hub
add c h = if room h then some (send (add_conn c) h) else none

-- The others drop the command if there is no room.
unfoldable pub remove : ℕ → Hub → Hub
remove c h = if room h then send (remove_conn c) h else h

unfoldable pub broadcast : Text → Hub → Hub
broadcast msg h = if room h then send (broadcast_cmd msg) h else h

unfoldable pub shutdown : Hub → Hub
shutdown h = if room h then send shutdown_hub h else h
