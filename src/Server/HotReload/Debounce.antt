-- ===== src/Server/HotReload/Debounce.antt =====
-- Changes of a theme that come close together are one reload.
use smtc_now_playing.Prelude.{
  ℕ, ◌+◌, ◌≤◌, ◌<◌, true, none, some, List, [], ◌∷◌, Text, ◌≡◌, refl, arith,
}
use smtc_now_playing.Server.HotReload.{
  FileOp, Input, file_event, timer_seen, is_change, hot_reload, hot_reload_debounce,
}

-- A change at each of the times, with a look at the timer before it.
abbrev pub burst : FileOp → List ℕ → List Input → List Input
burst op [] rest = rest
burst op (t ∷ ts) rest = timer_seen t ∷ file_event t op ∷ burst op ts rest

-- Each time is less than the debounce period after the one before it.
abbrev pub Close : ℕ → List ℕ → Type 0
Close t [] = Unit
Close t (u ∷ ts) = (u < t + hot_reload_debounce) × Close u ts

abbrev pub last_time : ℕ → List ℕ → ℕ
last_time t [] = t
last_time t (u ∷ ts) = last_time u ts

-- What a burst and the inputs after it tell.
abbrev pub told_by : Text → FileOp → ℕ → List ℕ → List Input → List Text
told_by msg op t ts after = hot_reload msg (file_event t op ∷ burst op ts after) none

hot_reload-burst :
    (msg : Text) (op : FileOp) (t : ℕ) (ts : List ℕ) (rest : List Input)
    → is_change op ≡ true
    → Close t ts
    → hot_reload msg (burst op ts rest) (some (t + hot_reload_debounce))
      ≡ hot_reload msg rest (some (last_time t ts + hot_reload_debounce))
unfolding hot_reload
hot_reload-burst msg op t [] rest change close = refl
hot_reload-burst msg op t (u ∷ ts) rest change (soon, close) =
    ground (arith, change, hot_reload-burst msg op u ts rest change close)

-- A burst of changes, each less than half a second after the one before it, is told in one message: none
-- while the burst goes on, and none when the timer is seen before half a second has passed since the
-- last change; one when it is next seen after that; and none when it is seen again.
pub hot_reload_once :
    (msg : Text) (op : FileOp) (t : ℕ) (ts : List ℕ) (early seen again : ℕ)
    → is_change op ≡ true
    → Close t ts
    → early < last_time t ts + hot_reload_debounce
    → last_time t ts + hot_reload_debounce ≤ seen
    → (told_by msg op t ts [] ≡ [])
      × (told_by msg op t ts (timer_seen early ∷ []) ≡ [])
      × (told_by msg op t ts (timer_seen early ∷ timer_seen seen ∷ []) ≡ msg ∷ [])
      × (told_by msg op t ts (timer_seen early ∷ timer_seen seen ∷ timer_seen again ∷ [])
          ≡ msg ∷ [])
unfolding hot_reload
hot_reload_once msg op t ts early seen again change close soon late =
    let two : List Input = timer_seen early ∷ timer_seen seen ∷ [] in
    let three : List Input = timer_seen early ∷ timer_seen seen ∷ timer_seen again ∷ [] in
    (
      ground (arith, change, hot_reload-burst msg op t ts [] change close),
      ground (arith, change, hot_reload-burst msg op t ts (timer_seen early ∷ []) change close),
      ground (arith, change, hot_reload-burst msg op t ts two change close),
      ground (arith, change, hot_reload-burst msg op t ts three change close),
    )
