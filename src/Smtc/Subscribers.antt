-- ===== src/Smtc/Subscribers.antt =====
-- internal/smtc/smtc.go: `Subscribe`, `Unsubscribe`, `fanOut` and the closing of the channels in
-- `cleanupRun`. Each runs under the lock `subsMu`, so that they happen one after the other.
pub mod Delivery
pub mod Closing
use smtc_now_playing.Prelude.{
  ℕ, zero, suc, ◌+◌, ◌-◌, Bool, true, false, List, [], ◌∷◌, ◌++◌, map, length, ◌==◌, if◌then◌else◌,
}
use smtc_now_playing.Prelude.Tests.{ltb}
use smtc_now_playing.Prelude.Int.{ℤ, pos, negsuc}
use smtc_now_playing.Smtc.Types.{Event}

-- A subscriber with its channel: its identity and capacity, the receivers that wait on it, the
-- events in its buffer and those that receivers have taken, oldest first.
pub record Subscriber : Type 0 where
  pub ch : ℕ
  pub cap : ℕ
  pub waiting : ℕ
  pub buffer : List Event
  pub received : List Event
  pub dropped : ℕ

-- The subscribers, the channels that are closed, and the number of the next channel made.
pub record Subs : Type 0 where
  pub subscribers : List Subscriber
  pub closed : List Subscriber
  pub next_ch : ℕ

abbrev pub no_subs : Subs
no_subs = record { subscribers = []; closed = []; next_ch = 0 }

-- `bufSize`, at least 0.
abbrev pub buf_size : ℤ → ℕ
buf_size (pos n) = n
buf_size (negsuc n) = 0

abbrev pub new_subscriber : ℕ → ℕ → Subscriber
new_subscriber ch cap = record {
  ch = ch;
  cap = cap;
  waiting = 0;
  buffer = [];
  received = [];
  dropped = 0;
}

unfoldable pub subscribe : ℤ → Subs → Subs
subscribe size st = record st {
  subscribers = st.subscribers ++ new_subscriber st.next_ch (buf_size size) ∷ [];
  next_ch = st.next_ch + 1;
}

-- The loop of `Unsubscribe`: the first subscriber with the channel is taken out and closed.
unfoldable pub remove_subscriber :
    ℕ → List Subscriber → List Subscriber → List Subscriber × List Subscriber
remove_subscriber ch [] closed = ([], closed)
remove_subscriber ch (s ∷ rest) closed =
    let later = remove_subscriber ch rest closed in
    if s.ch == ch then (rest, s ∷ closed) else (s ∷ later.0, later.1)

unfoldable pub unsubscribe : ℕ → Subs → Subs
unsubscribe ch st =
    let (subscribers, closed) = remove_subscriber ch st.subscribers st.closed in
    record st { subscribers = subscribers; closed = closed }

-- The `select` of `fanOut`: a receiver that waits takes the event, else the buffer does, and else
-- it is dropped and counted.
unfoldable pub offer : Event → Subscriber → Subscriber
offer ev s =
    if ltb 0 s.waiting
    then record s { waiting = s.waiting - 1; received = s.received ++ ev ∷ [] }
    else if ltb (length s.buffer) s.cap
    then record s { buffer = s.buffer ++ ev ∷ [] }
    else record s { dropped = s.dropped + 1 }

unfoldable pub fan_out : Event → Subs → Subs
fan_out ev st = record st { subscribers = map (offer ev) st.subscribers }

-- A receiver takes the oldest event, or waits.
abbrev take_or_wait : List Event → Subscriber → Subscriber
take_or_wait [] s = record s { waiting = s.waiting + 1 }
take_or_wait (e ∷ es) s = record s { buffer = es; received = s.received ++ e ∷ [] }

unfoldable pub receive : Subscriber → Subscriber
receive s = take_or_wait s.buffer s

unfoldable pub receive_on : ℕ → List Subscriber → List Subscriber
receive_on ch [] = []
receive_on ch (s ∷ rest) = (if s.ch == ch then receive s else s) ∷ receive_on ch rest

-- The part of `cleanupRun` under the lock.
unfoldable pub close_all : Subs → Subs
close_all st = record st { subscribers = []; closed = st.subscribers ++ st.closed }

-- What can happen to the subscribers, in any order.
pub data Op : Type 0 where
  subscribing : ℤ → Op
  unsubscribing : ℕ → Op
  fanning_out : Event → Op
  receiving : ℕ → Op
  closing : Op

unfoldable pub step : Op → Subs → Subs
step (subscribing size) st = subscribe size st
step (unsubscribing ch) st = unsubscribe ch st
step (fanning_out ev) st = fan_out ev st
step (receiving ch) st = record st { subscribers = receive_on ch st.subscribers }
step closing st = close_all st

unfoldable pub run : List Op → Subs → Subs
run [] st = st
run (op ∷ ops) st = run ops (step op st)
