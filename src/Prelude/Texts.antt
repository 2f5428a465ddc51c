-- ===== src/Prelude/Texts.antt =====
-- Go strings and byte slices as lists of numbers, with their equality test.
use Prim.Native.Nat.{ℕ}
use Prim.Native.Char.{code}
use Prim.Native.String.{String}
use mathlib.Core.Path.{◌≡◌, refl}
use mathlib.Core.Logic.{◌≢◌, ◌↔◌}
use mathlib.Core.Bool.{Bool, true, false, ◌&&◌}
use mathlib.Core.List.{List, [], ◌∷◌}
use mathlib.Core.Option.{Option, none, some}
use native.Mathlib.Omega.{arith}
use smtc_now_playing.Prelude.Tests.{◌==◌}
use smtc_now_playing.Prelude.Lists.{length}

abbrev pub Text : Type 0
Text = List ℕ

-- The code points of a literal.
abbrev pub codes : String → Text
codes String.[] = []
codes (String.◌∷◌ c s) = code c ∷ codes s

unfoldable pub text_eq : Text → Text → Bool
text_eq [] [] = true
text_eq (x ∷ xs) (y ∷ ys) = (x == y) && text_eq xs ys
text_eq _ _ = false

pub text_eq_iff : (s t : Text) → (text_eq s t ≡ true) ↔ (s ≡ t)
unfolding text_eq
text_eq_iff [] [] = ((λ _. refl), (λ _. refl))
text_eq_iff [] (y ∷ ys) = ((λ h. cc), (λ h. cc))
text_eq_iff (x ∷ xs) [] = ((λ h. cc), (λ h. cc))
text_eq_iff (x ∷ xs) (y ∷ ys) = ground (arith, text_eq_iff xs ys)

pub text_eq_refl : (s : Text) → text_eq s s ≡ true
text_eq_refl s = (text_eq_iff s s).1 refl

pub text_ne : (s t : Text) → s ≢ t → text_eq s t ≡ false
text_ne s t ne = ground (arith, text_eq_iff s t)

pub text_apart : (s t : Text) → text_eq s t ≡ false → s ≢ t
text_apart s t off = ground (arith, text_eq_iff s t)

-- A byte slice, `none` for nil, with its `len`.
abbrev pub Slice : Type 0
Slice = Option Text

abbrev pub slice_len : Slice → ℕ
slice_len none = 0
slice_len (some b) = length b

-- `append([]byte(nil), b...)`: a copy, which is nil for an empty slice.
abbrev pub copy_slice : Slice → Slice
copy_slice none = none
copy_slice (some []) = none
copy_slice (some (x ∷ b)) = some (x ∷ b)
