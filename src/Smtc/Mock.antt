-- ===== src/Smtc/Mock.antt =====
-- internal/smtc/mock_provider.go: the provider that stands in for the service in tests. A channel is a
-- subscriber of the service's model, whose counter of drops is not used here; a Go map is a list
-- in the order in which the channels were made.
pub mod Agreement
use smtc_now_playing.Prelude.{
  ℕ, ◌+◌, ◌-◌, Bool, true, false, Option, none, some, List, [], ◌∷◌, ◌++◌, map, Text, codes, length,
  ◌==◌, if◌then◌else◌,
}
use smtc_now_playing.Prelude.Tests.{ltb}
use smtc_now_playing.Prelude.Int.{ℤ, pos, negsuc}
use smtc_now_playing.Domain.{ControlCapabilities}
use smtc_now_playing.Smtc.Types.{Event, SessionInfo}
use smtc_now_playing.Smtc.Subscribers.{Subscriber, receive_on}

-- `subscribers` is `none` for a nil map; `closed` are the channels that have been closed.
pub record MockProvider : Type 0 where
  pub subscribers : Option (List Subscriber)
  pub closed : List Subscriber
  pub next_ch : ℕ
  pub sessions : List SessionInfo
  pub selected_app_id : Text

abbrev pub or_empty : Option (List Subscriber) → List Subscriber
or_empty none = []
or_empty (some l) = l

-- The end of `Run`.
unfoldable pub run_ended : MockProvider → MockProvider
run_ended m = record m { subscribers = none; closed = or_empty m.subscribers ++ m.closed }

abbrev channel_size : ℤ → ℕ
channel_size (pos n) = n
channel_size (negsuc n) = 0

unfoldable pub subscribe : ℤ → MockProvider → MockProvider
subscribe size m = record m {
  subscribers = some (
      or_empty m.subscribers
      ++ record {
        ch = m.next_ch;
        cap = channel_size size;
        waiting = 0;
        buffer = [];
        received = [];
        dropped = 0;
      }
        ∷ []);
  next_ch = m.next_ch + 1;
}

-- The loop of `Unsubscribe`, which breaks at the channel.
unfoldable pub delete_channel : ℕ → List Subscriber → List Subscriber × List Subscriber
delete_channel ch [] = ([], [])
delete_channel ch (s ∷ rest) =
    let later = delete_channel ch rest in
    if s.ch == ch then (rest, s ∷ []) else (s ∷ later.0, later.1)

abbrev pub map_some {ℓ} : {A B : Type ℓ} → (A → B) → Option A → Option B
map_some f none = none
map_some f (some a) = some (f a)

unfoldable pub unsubscribe : ℕ → MockProvider → MockProvider
unsubscribe ch m = record m {
  subscribers = map_some (λ l. (delete_channel ch l).0) m.subscribers;
  closed = (delete_channel ch (or_empty m.subscribers)).1 ++ m.closed;
}

-- The `select` of `Inject`.
unfoldable pub try_send : Event → Subscriber → Subscriber
try_send ev s =
    if ltb 0 s.waiting
    then record s { waiting = s.waiting - 1; received = s.received ++ ev ∷ [] }
    else if ltb (length s.buffer) s.cap
    then record s { buffer = s.buffer ++ ev ∷ [] }
    else s

unfoldable pub inject : Event → MockProvider → MockProvider
inject ev m = record m { subscribers = map_some (map (try_send ev)) m.subscribers }

-- `GetSessions`, `none` for nil.
unfoldable pub get_sessions : MockProvider → Option (List SessionInfo)
get_sessions m = elim m.sessions [ [] ↦ none | s ∷ rest ↦ some (s ∷ rest) ]

unfoldable pub select_device : Text → MockProvider → MockProvider
select_device app_id m = record m { selected_app_id = app_id }

unfoldable pub get_capabilities : ControlCapabilities
get_capabilities = record {
  is_play_enabled = false;
  is_pause_enabled = false;
  is_stop_enabled = false;
  is_next_enabled = false;
  is_previous_enabled = false;
  is_seek_enabled = false;
  is_shuffle_enabled = false;
  is_repeat_enabled = false;
}
