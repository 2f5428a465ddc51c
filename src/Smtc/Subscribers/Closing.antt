-- ===== src/Smtc/Subscribers/Closing.antt =====
-- The channels of the subscribers (internal/smtc/smtc.go) are closed once, and not sent to when
-- closed.
use smtc_now_playing.Prelude.{
  ℕ, ◌+◌, ◌≤◌, List, [], ◌∷◌, ◌++◌, map, ◌==◌, if◌then◌else◌, ◌≡◌, refl, arith,
}
use smtc_now_playing.Prelude.Int.{ℤ}
use smtc_now_playing.Smtc.Types.{Event}
use smtc_now_playing.Smtc.Subscribers.{
  Subscriber, Subs, Op, no_subs, new_subscriber, buf_size, offer, fan_out, receive, receive_on,
  remove_subscriber, subscribe, unsubscribe, close_all, step, run,
}

-- How often a channel stands in a list.
pub occurs : ℕ → List Subscriber → ℕ
occurs ch [] = 0
occurs ch (s ∷ rest) = (if s.ch == ch then 1 else 0) + occurs ch rest

-- A channel is registered or closed at most once, and one that is not made yet is neither. To close
-- a channel twice, or to send to a closed one, would need two places.
pub record Once (st : Subs) : Type 0 where
  pub once : (ch : ℕ) → occurs ch st.subscribers + occurs ch st.closed ≤ 1
  pub fresh : (ch : ℕ) → st.next_ch ≤ ch → occurs ch st.subscribers + occurs ch st.closed ≡ 0

occurs-append :
    (ch : ℕ) (xs ys : List Subscriber) → occurs ch (xs ++ ys) ≡ occurs ch xs + occurs ch ys
unfolding occurs
occurs-append ch [] ys = omega arith
occurs-append ch (x ∷ xs) ys = omega (arith, occurs-append ch xs ys)

occurs-remove :
    (ch c : ℕ) (xs closed : List Subscriber)
    → let (left, now) = remove_subscriber c xs closed in
      occurs ch left + occurs ch now ≡ occurs ch xs + occurs ch closed
unfolding occurs remove_subscriber
occurs-remove ch c [] closed = omega arith
occurs-remove ch c (x ∷ xs) closed = ground (arith, occurs-remove ch c xs closed)

occurs-offer :
    (ch : ℕ) (ev : Event) (xs : List Subscriber) → occurs ch (map (offer ev) xs) ≡ occurs ch xs
unfolding occurs offer
occurs-offer ch ev [] = refl
occurs-offer ch ev (x ∷ xs) = ground (arith, occurs-offer ch ev xs)

occurs-receive : (ch c : ℕ) (xs : List Subscriber) → occurs ch (receive_on c xs) ≡ occurs ch xs
unfolding occurs receive_on receive
occurs-receive ch c [] = refl
occurs-receive ch c (x ∷ xs) = ground (arith, occurs-receive ch c xs)

subscribe-Once : (size : ℤ) (st : Subs) → Once st → Once (subscribe size st)
unfolding subscribe occurs
subscribe-Once size st v = record {
  once = λ ch. ground (
    arith,
    v.once ch,
    v.fresh ch,
    occurs-append ch st.subscribers (new_subscriber st.next_ch (buf_size size) ∷ []),
  );
  fresh = λ ch late. ground (
    arith,
    v.fresh ch,
    occurs-append ch st.subscribers (new_subscriber st.next_ch (buf_size size) ∷ []),
  );
}

step-Once : (op : Op) (st : Subs) → Once st → Once (step op st)
unfolding step unsubscribe fan_out close_all occurs
step-Once (Op.subscribing size) st v = subscribe-Once size st v
step-Once (Op.unsubscribing c) st v = record {
  once = λ ch. omega (arith, v.once ch, occurs-remove ch c st.subscribers st.closed);
  fresh = λ ch late. omega (arith, v.fresh ch late, occurs-remove ch c st.subscribers st.closed);
}
step-Once (Op.fanning_out ev) st v = record {
  once = λ ch. omega (arith, v.once ch, occurs-offer ch ev st.subscribers);
  fresh = λ ch late. omega (arith, v.fresh ch late, occurs-offer ch ev st.subscribers);
}
step-Once (Op.receiving c) st v = record {
  once = λ ch. omega (arith, v.once ch, occurs-receive ch c st.subscribers);
  fresh = λ ch late. omega (arith, v.fresh ch late, occurs-receive ch c st.subscribers);
}
step-Once Op.closing st v = record {
  once = λ ch. omega (arith, v.once ch, occurs-append ch st.subscribers st.closed);
  fresh = λ ch late. omega (arith, v.fresh ch late, occurs-append ch st.subscribers st.closed);
}

run-Once_from : (ops : List Op) (st : Subs) → Once st → Once (run ops st)
unfolding run
run-Once_from [] st v = v
run-Once_from (op ∷ ops) st v = run-Once_from ops (step op st) (step-Once op st v)

no_subs-Once : Once no_subs
unfolding occurs
no_subs-Once = omega arith

-- In every order of subscribing, unsubscribing (also twice, or of a channel that is not known),
-- telling, receiving and the final cleanup, no channel is closed twice, and none is sent to once it
-- is closed: both would be a panic.
pub run-Once : (ops : List Op) → Once (run ops no_subs)
run-Once ops = run-Once_from ops no_subs no_subs-Once

-- The cleanup leaves no subscriber, and what was registered is closed.
pub close_all_closes :
    (st : Subs) (ch : ℕ)
    → (occurs ch (close_all st).subscribers ≡ 0)
      × (occurs ch (close_all st).closed ≡ occurs ch st.subscribers + occurs ch st.closed)
unfolding close_all occurs
close_all_closes st ch = (refl, occurs-append ch st.subscribers st.closed)
