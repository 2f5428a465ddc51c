-- ===== src/Prelude/Decimal.antt =====
-- The decimal print of a number, as `%d` writes it.
use Prim.Native.Nat.{ℕ, zero, suc, ◌+◌, ◌-◌, ◌*◌, ◌/◌, ◌%◌, ◌≤◌, ◌<◌}
use mathlib.Core.Path.{◌≡◌, refl, sym, ap, ◌∙◌}
use mathlib.Core.Logic.{◌≢◌, inl, inr}
use mathlib.Core.List.{[], ◌∷◌, ◌++◌}
use native.Mathlib.Omega.{arith}
use smtc_now_playing.Prelude.Tests.{ltb, if◌then◌else◌, Bool-cases}
use smtc_now_playing.Prelude.Texts.{Text}
use smtc_now_playing.Prelude.Int.{ℤ, pos, negsuc}
use smtc_now_playing.Prelude.Lists.{All, All-append}

-- The digits, on fuel.
decimal_within : ℕ → ℕ → Text
decimal_within zero n = []
decimal_within (suc f) n =
    let front = decimal_within f (n / 10) in
    if ltb n 10 then (b'0' + n) ∷ [] else front ++ (b'0' + n % 10) ∷ []

-- A number has no more digits than one more than itself.
unfoldable pub decimal : ℕ → Text
unfolding decimal_within
decimal n = decimal_within (suc n) n

-- `%d` of an int.
unfoldable pub print_int : ℤ → Text
print_int (pos n) = decimal n
print_int (negsuc n) = b'-' ∷ decimal (suc n)

-- The number that digits spell behind `n`.
abbrev pub value_from : ℕ → Text → ℕ
value_from n [] = n
value_from n (c ∷ s) = value_from (n * 10 + (c - b'0')) s

value_from-append : (n : ℕ) (s t : Text) → value_from n (s ++ t) ≡ value_from (value_from n s) t
value_from-append n [] t = refl
value_from-append n (c ∷ s) t = value_from-append (n * 10 + (c - b'0')) s t

value_from-decimal : (f n : ℕ) → n < f → value_from 0 (decimal_within f n) ≡ n
unfolding decimal_within
value_from-decimal zero n h = absurd (omega arith)
value_from-decimal (suc f) n h = elim (Bool-cases (ltb n 10)) [
  | inl small ↦ rw small (omega arith)
  | inr large ↦ rw large (
      value_from-append 0 (decimal_within f (n / 10)) ((b'0' + n % 10) ∷ [])
      ∙ omega (arith, value_from-decimal f (n / 10) (ground arith)))
]

-- Two numbers with the same print are equal.
pub decimal-injective : (m n : ℕ) → decimal m ≡ decimal n → m ≡ n
unfolding decimal
decimal-injective m n h =
    sym (value_from-decimal (suc m) m (omega arith))
    ∙ ap (value_from 0) h
    ∙ value_from-decimal (suc n) n (omega arith)

-- The characters of a print are digits.
abbrev pub IsDigit : ℕ → Type 0
IsDigit c = (b'0' ≤ c) × (c ≤ b'9')

All-digits : (f n : ℕ) → All IsDigit (decimal_within f n)
unfolding decimal_within
All-digits zero n = tt
All-digits (suc f) n = elim (Bool-cases (ltb n 10)) [
  | inl small ↦ rw small ((omega arith, ground arith), tt)
  | inr large ↦ rw large (
      All-append IsDigit (decimal_within f (n / 10)) ((b'0' + n % 10) ∷ []) (All-digits f (n / 10))
        ((omega arith, omega arith), tt))
]

pub decimal-IsDigit : (n : ℕ) → All IsDigit (decimal n)
unfolding decimal
decimal-IsDigit n = All-digits (suc n) n

pub value_from-decimal_lem : (n : ℕ) → value_from 0 (decimal n) ≡ n
unfolding decimal
value_from-decimal_lem n = value_from-decimal (suc n) n (omega arith)

nonempty_append : (s : Text) (c : ℕ) → (s ++ c ∷ []) ≢ []
nonempty_append [] c h = cc
nonempty_append (d ∷ s) c h = cc

pub decimal-ne : (n : ℕ) → decimal n ≢ []
unfolding decimal decimal_within
decimal-ne n = elim (Bool-cases (ltb n 10)) [
  | inl small ↦ rw small (λ h. cc)
  | inr large ↦ rw large (nonempty_append (decimal_within n (n / 10)) (b'0' + n % 10))
]
