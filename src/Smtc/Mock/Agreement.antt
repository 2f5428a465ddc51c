-- ===== src/Smtc/Mock/Agreement.antt =====
-- The stand-in delivers what the service delivers.
use smtc_now_playing.Prelude.{
  ℕ, Option, none, some, List, [], ◌∷◌, ◌++◌, map, ◌≡◌, refl, ap, ◌∙◌, sym, arith,
}
use smtc_now_playing.Prelude.Int.{pos, negsuc}
use smtc_now_playing.Smtc.Types.{Event}
use smtc_now_playing.Smtc.Subscribers.{
  Subscriber, Subs, new_subscriber, offer, remove_subscriber, receive, receive_on, Op, subscribing,
  unsubscribing, fanning_out, receiving, closing, subscribe as real_subscribe,
  unsubscribe as real_unsubscribe, fan_out, close_all, step, run,
}
use smtc_now_playing.Smtc.Mock.{
  MockProvider, or_empty, map_some, run_ended, subscribe, delete_channel, unsubscribe, try_send,
  inject,
}

-- The same steps on the stand-in.
abbrev pub mock_step : Op → MockProvider → MockProvider
mock_step (subscribing size) m = subscribe size m
mock_step (unsubscribing ch) m = unsubscribe ch m
mock_step (fanning_out ev) m = inject ev m
mock_step (receiving ch) m = record m { subscribers = map_some (receive_on ch) m.subscribers }
mock_step closing m = run_ended m

pub mock_run : List Op → MockProvider → MockProvider
mock_run [] m = m
mock_run (op ∷ ops) m = mock_run ops (mock_step op m)

-- A subscriber but for the counter of its drops.
abbrev pub uncounted : Subscriber → Subscriber
uncounted s = record s { dropped = 0 }

-- The stand-in has the subscribers of the service, in its order.
pub record Mimics (m : MockProvider) (st : Subs) : Type 0 where
  pub same_subscribers : or_empty m.subscribers ≡ map uncounted st.subscribers
  pub same_closed : m.closed ≡ map uncounted st.closed
  pub same_next : m.next_ch ≡ st.next_ch

map-append :
    (xs ys : List Subscriber) → map uncounted (xs ++ ys) ≡ map uncounted xs ++ map uncounted ys
map-append [] ys = refl
map-append (x ∷ xs) ys = ap (λ l. uncounted x ∷ l) (map-append xs ys)

try_send-offer : (ev : Event) (s : Subscriber) → try_send ev (uncounted s) ≡ uncounted (offer ev s)
unfolding try_send offer
try_send-offer ev s = ground arith

inject-map :
    (ev : Event) (l : List Subscriber)
    → map (try_send ev) (map uncounted l) ≡ map uncounted (map (offer ev) l)
inject-map ev [] = refl
inject-map ev (s ∷ l) = ground (arith, try_send-offer ev s, inject-map ev l)

receive-uncounted : (s : Subscriber) → receive (uncounted s) ≡ uncounted (receive s)
unfolding receive
receive-uncounted s = ground arith

receive_on-map :
    (ch : ℕ) (l : List Subscriber)
    → receive_on ch (map uncounted l) ≡ map uncounted (receive_on ch l)
unfolding receive_on
receive_on-map ch [] = refl
receive_on-map ch (s ∷ l) = ground (arith, receive-uncounted s, receive_on-map ch l)

delete_channel-map :
    (ch : ℕ) (l closed : List Subscriber)
    → ((delete_channel ch (map uncounted l)).0 ≡ map uncounted (remove_subscriber ch l closed).0)
      × ((delete_channel ch (map uncounted l)).1 ++ map uncounted closed
          ≡ map uncounted (remove_subscriber ch l closed).1)
unfolding delete_channel remove_subscriber
delete_channel-map ch [] closed = (refl, refl)
delete_channel-map ch (s ∷ l) closed = ground (arith, delete_channel-map ch l closed)

or_empty-map_some :
    (f : List Subscriber → List Subscriber) (o : Option (List Subscriber))
    → f [] ≡ []
    → or_empty (map_some f o) ≡ f (or_empty o)
or_empty-map_some f none h = sym h
or_empty-map_some f (some l) h = refl

delete-nil : (ch : ℕ) → (delete_channel ch []).0 ≡ []
unfolding delete_channel
delete-nil ch = refl

receive-nil : (ch : ℕ) → receive_on ch [] ≡ []
unfolding receive_on
receive-nil ch = refl

-- One step of each.
mock_step-Mimics :
    (op : Op) (m : MockProvider) (st : Subs) → Mimics m st → Mimics (mock_step op m) (step op st)
unfolding step subscribe real_subscribe unsubscribe real_unsubscribe inject fan_out run_ended
    close_all
mock_step-Mimics (subscribing (pos n)) m st h = record {
  same_subscribers = ground (arith, map-append st.subscribers (new_subscriber st.next_ch n ∷ []));
  same_closed = h.same_closed;
  same_next = ground arith;
}
mock_step-Mimics (subscribing (negsuc n)) m st h = record {
  same_subscribers = ground (arith, map-append st.subscribers (new_subscriber st.next_ch 0 ∷ []));
  same_closed = h.same_closed;
  same_next = ground arith;
}
mock_step-Mimics (unsubscribing ch) m st h = record {
  same_subscribers =
      or_empty-map_some (λ l. (delete_channel ch l).0) m.subscribers (delete-nil ch)
      ∙ ap (λ l. (delete_channel ch l).0) h.same_subscribers
      ∙ (delete_channel-map ch st.subscribers st.closed).0;
  same_closed =
      ap (λ l. (delete_channel ch l).1 ++ m.closed) h.same_subscribers
      ∙ ap (λ l. (delete_channel ch (map uncounted st.subscribers)).1 ++ l) h.same_closed
      ∙ (delete_channel-map ch st.subscribers st.closed).1;
  same_next = h.same_next;
}
mock_step-Mimics (fanning_out ev) m st h = record {
  same_subscribers =
      or_empty-map_some (map (try_send ev)) m.subscribers refl
      ∙ ap (map (try_send ev)) h.same_subscribers
      ∙ inject-map ev st.subscribers;
  same_closed = h.same_closed;
  same_next = h.same_next;
}
mock_step-Mimics (receiving ch) m st h = record {
  same_subscribers =
      or_empty-map_some (receive_on ch) m.subscribers (receive-nil ch)
      ∙ ap (receive_on ch) h.same_subscribers
      ∙ receive_on-map ch st.subscribers;
  same_closed = h.same_closed;
  same_next = h.same_next;
}
mock_step-Mimics closing m st h = record {
  same_subscribers = refl;
  same_closed =
      ap (λ l. l ++ m.closed) h.same_subscribers
      ∙ ap (λ l. map uncounted st.subscribers ++ l) h.same_closed
      ∙ sym (map-append st.subscribers st.closed);
  same_next = h.same_next;
}

-- From a stand-in with the subscribers of the service, any sequence of subscriptions, ends of
-- subscriptions, events, receptions and closings leaves both with the same subscribers and closed
-- channels, each with the same events buffered and received; only the service counts what it drops.
pub mock_run-Mimics :
    (ops : List Op) (m : MockProvider) (st : Subs)
    → Mimics m st
    → Mimics (mock_run ops m) (run ops st)
unfolding run mock_run
mock_run-Mimics [] m st h = h
mock_run-Mimics (op ∷ ops) m st h =
    mock_run-Mimics ops (mock_step op m) (step op st) (mock_step-Mimics op m st h)
