-- ===== src/Smtc/Subscribers/Delivery.antt =====
-- What a subscriber sees of the events that are handed to `fanOut` (internal/smtc/smtc.go).
use smtc_now_playing.Prelude.{
  ◌+◌, ◌≤◌, ◌<◌, List, [], ◌∷◌, ◌++◌, map, All, length, length-append, ◌≡◌, ◌⊎◌, inl, inr, refl,
  sym, ◌∙◌, arith, append-nil, append_assoc,
}
use smtc_now_playing.Smtc.Types.{Event}
use smtc_now_playing.Smtc.Subscribers.{Subscriber, Subs, offer, fan_out, receive, take_or_wait}

-- All that the channel has carried, oldest first.
abbrev pub stream : Subscriber → List Event
stream s = s.received ++ s.buffer

-- A channel whose receivers wait is empty, and its buffer keeps within its capacity.
pub record ChannelOk (s : Subscriber) : Type 0 where
  pub idle : 0 < s.waiting → s.buffer ≡ []
  pub fits : length s.buffer ≤ s.cap

pub offer-ChannelOk : (ev : Event) (s : Subscriber) → ChannelOk s → ChannelOk (offer ev s)
unfolding offer
offer-ChannelOk ev s v = ground (arith, length-append s.buffer (ev ∷ []))

pub receive-ChannelOk : (s : Subscriber) → ChannelOk s → ChannelOk (receive s)
unfolding receive
receive-ChannelOk s v = ground arith

-- The event is the newest of the stream, or it was dropped, counted, and the channel was full with
-- nobody waiting.
abbrev pub Offered : Event → Subscriber → Subscriber → Type 0
Offered ev s t =
    (t.ch ≡ s.ch)
    × (((stream t ≡ stream s ++ ev ∷ []) × (t.dropped ≡ s.dropped))
        ⊎ ((stream t ≡ stream s)
            × (t.dropped ≡ s.dropped + 1)
            × (s.waiting ≡ 0)
            × (length s.buffer ≡ s.cap)))

pub offer-Offered : (ev : Event) (s : Subscriber) → ChannelOk s → Offered ev s (offer ev s)
unfolding offer
offer-Offered ev s v = ground (
  arith,
  append_assoc s.received s.buffer (ev ∷ []),
  append-nil s.received,
  append-nil (s.received ++ ev ∷ []),
)

-- A relation between the items of two lists at the same places.
abbrev pub Pointwise :
    (Subscriber → Subscriber → Type 0) → List Subscriber → List Subscriber → Type 0
Pointwise R [] [] = Unit
Pointwise R (x ∷ xs) (y ∷ ys) = R x y × Pointwise R xs ys
Pointwise R _ _ = ⊥

map-offer :
    (ev : Event) (ss : List Subscriber)
    → All ChannelOk ss
    → Pointwise (Offered ev) ss (map (offer ev) ss) × All ChannelOk (map (offer ev) ss)
map-offer ev [] v = (tt, tt)
map-offer ev (s ∷ ss) (v, vs) =
    let (told, kept) = map-offer ev ss vs in
    ((offer-Offered ev s v, told), (offer-ChannelOk ev s v, kept))

-- `fanOut` waits for nobody and treats every subscriber alike: each gets the event behind all that
-- it got before, or, only if its channel is full and no receiver waits on it, loses it and counts
-- the loss. No channel grows beyond its capacity.
pub fan_out-Offered :
    (ev : Event) (st : Subs)
    → All ChannelOk st.subscribers
    → Pointwise (Offered ev) st.subscribers (fan_out ev st).subscribers
      × All ChannelOk (fan_out ev st).subscribers
unfolding fan_out
fan_out-Offered ev st v = map-offer ev st.subscribers v

-- What happens on one channel: an event is offered, or a receiver comes.
pub data Action : Type 0 where
  offered : Event → Action
  received : Action

abbrev pub act : Action → Subscriber → Subscriber
act (offered ev) s = offer ev s
act received s = receive s

pub live : List Action → Subscriber → Subscriber
live [] s = s
live (a ∷ rest) s = live rest (act a s)

abbrev pub offers : List Action → List Event
offers [] = []
offers (offered ev ∷ rest) = ev ∷ offers rest
offers (received ∷ rest) = offers rest

-- `xs` without some of its items, in the same order.
pub data IsPart : List Event → List Event → Type 0 where
  stop : IsPart [] []
  keep : (e : Event) {xs ys : List Event} → IsPart xs ys → IsPart (e ∷ xs) (e ∷ ys)
  skip : (e : Event) {xs ys : List Event} → IsPart xs ys → IsPart xs (e ∷ ys)

-- What the channel carries is what it carried before and a part of the offers, and each offer is in
-- the stream or counted.
pub record Accounts (acts : List Action) (s t : Subscriber) : Type 0 where
  pub got : List Event
  pub part : IsPart got (offers acts)
  pub carried : stream t ≡ stream s ++ got
  pub counted : length got + t.dropped ≡ length (offers acts) + s.dropped
  pub sound : ChannelOk t

receive_stream_of :
    (b : List Event) (s : Subscriber) → s.buffer ≡ b → stream (take_or_wait b s) ≡ stream s
receive_stream_of [] s e = refl
receive_stream_of (x ∷ b) s e = rw e (append_assoc s.received (x ∷ []) b)

receive-dropped : (s : Subscriber) → (receive s).dropped ≡ s.dropped
unfolding receive
receive-dropped s = ground arith

receive-stream : (s : Subscriber) → stream (receive s) ≡ stream s
unfolding receive
receive-stream s = receive_stream_of s.buffer s refl

-- Whatever the order of offers and receivers, nothing is lost in silence, repeated or put out of
-- order: the channel carries, behind what it carried before, the offers in their order but for those
-- that were dropped, and these are counted. Its buffer never exceeds its capacity.
pub live-Accounts :
    (acts : List Action) (s : Subscriber) → ChannelOk s → Accounts acts s (live acts s)
unfolding live
live-Accounts [] s v = record {
  got = [];
  part = stop;
  carried = sym (append-nil (stream s));
  counted = refl;
  sound = v;
}
live-Accounts (offered ev ∷ rest) s v = elim (offer-Offered ev s v).1 [
  | inl (grown, same) ↦
      let ih = live-Accounts rest (offer ev s) (offer-ChannelOk ev s v) in
      record {
        got = ev ∷ ih.got;
        part = keep ev ih.part;
        carried = ih.carried ∙ rw grown (append_assoc (stream s) (ev ∷ []) ih.got);
        counted = omega (arith, ih.counted);
        sound = ih.sound;
      }
  | inr (same, lost, idle, full) ↦
      let ih = live-Accounts rest (offer ev s) (offer-ChannelOk ev s v) in
      record {
        got = ih.got;
        part = skip ev ih.part;
        carried = ih.carried ∙ rw same refl;
        counted = omega (arith, ih.counted);
        sound = ih.sound;
      }
]
live-Accounts (received ∷ rest) s v =
    let ih = live-Accounts rest (receive s) (receive-ChannelOk s v) in
    record {
      got = ih.got;
      part = ih.part;
      carried = ih.carried ∙ rw (receive-stream s) refl;
      counted = omega (arith, ih.counted, receive-dropped s);
      sound = ih.sound;
    }
