-- ===== src/Domain/Escape.antt =====
-- `Escape` (internal/domain/domain.go): it can be undone, and its result is free of the characters
-- that it escapes.
use mathlib.Core.Option
use smtc_now_playing.Prelude.{
  ℕ, Bool, true, false, Option, none, some, Text, All, All-append, ◌==◌, [], ◌∷◌, ◌++◌,
  if◌then◌else◌, ◌≡◌, ◌≢◌, ◌⊎◌, inl, inr, refl, sym, arith, append-nil, append_assoc,
}
use smtc_now_playing.Domain.{escape_rune, escape_loop, escape}

-- The escapes one after the other.
escape_all : Text → Text
escape_all [] = []
escape_all (c ∷ s) = escape_rune c ++ escape_all s

escape_loop-escape_all : (result s : Text) → escape_loop result s ≡ result ++ escape_all s
unfolding escape_loop escape_all
escape_loop-escape_all result [] = sym (append-nil result)
escape_loop-escape_all result (c ∷ s) =
    simp (escape_loop-escape_all (result ++ escape_rune c) s, append_assoc)

escape-escape_all : (s : Text) → escape s ≡ escape_all s
unfolding escape
escape-escape_all s = escape_loop-escape_all [] s

-- The character that a letter behind a backslash stands for.
meaning : ℕ → Option ℕ
meaning c =
    if c == b'n'
    then some b'\n'
    else if c == b'r'
    then some b'\r'
    else if c == b't'
    then some b'\t'
    else if c == b'\\'
    then some b'\\'
    else if c == b'v'
    then some 11
    else if c == b'b'
    then some 8
    else if c == b'f'
    then some 12
    else if c == b'a'
    then some 7
    else none

-- A reader of escaped text; the flag says that a backslash has just been read.
unescape_from : Bool → Text → Option Text
unescape_from true [] = none
unescape_from false [] = some []
unescape_from true (c ∷ s) = elim (meaning c) [
  | none ↦ none
  | some d ↦ Option.map (λ r. d ∷ r) (unescape_from false s)
]
unescape_from false (c ∷ s) =
    let quoted = unescape_from true s in
    let plain = Option.map (λ r. c ∷ r) (unescape_from false s) in
    if c == b'\\' then quoted else plain

pub unescape : Text → Option Text
unfolding unescape_from meaning
unescape s = unescape_from false s

-- A character is written as a backslash and the letter that means it, or as itself.
escape_rune_cases :
    (c : ℕ)
    → ((m : ℕ) × (escape_rune c ≡ b'\\' ∷ m ∷ []) × (meaning m ≡ some c))
      ⊎ ((escape_rune c ≡ c ∷ []) × ((c == b'\\') ≡ false))
unfolding escape_rune meaning
escape_rune_cases c = ground arith

unescape_from-escape_rune :
    (c : ℕ) (rest : Text)
    → unescape_from false (escape_rune c ++ rest)
      ≡ Option.map (λ r. c ∷ r) (unescape_from false rest)
unfolding unescape_from
unescape_from-escape_rune c rest = elim (escape_rune_cases c) [
  | inl (m, written, means) ↦ rw written (ground arith)
  | inr (written, plain) ↦ rw written (ground arith)
]

unescape_from-escape_all : (s : Text) → unescape_from false (escape_all s) ≡ some s
unfolding escape_all unescape_from
unescape_from-escape_all [] = refl
unescape_from-escape_all (c ∷ s) =
    rw (unescape_from-escape_rune c (escape_all s), unescape_from-escape_all s)

-- Reading the escapes back gives the text that was escaped, for every text: no two artists or
-- titles become the same text.
pub unescape-escape : (s : Text) → unescape (escape s) ≡ some s
unfolding unescape
unescape-escape s = rw escape-escape_all (unescape_from-escape_all s)

abbrev pub IsPlain : ℕ → Type 0
IsPlain c = (c ≢ b'\n') × (c ≢ b'\r') × (c ≢ b'\t') × (c ≢ 11) × (c ≢ 8) × (c ≢ 12) × (c ≢ 7)

escape_rune-IsPlain : (c : ℕ) → All IsPlain (escape_rune c)
unfolding escape_rune
escape_rune-IsPlain c = ground arith

escape_all-IsPlain : (s : Text) → All IsPlain (escape_all s)
unfolding escape_all
escape_all-IsPlain [] = tt
escape_all-IsPlain (c ∷ s) =
    All-append IsPlain (escape_rune c) (escape_all s) (escape_rune-IsPlain c) (escape_all-IsPlain s)

-- An escaped text holds no line break, carriage return, tab, vertical tab, backspace, form feed or
-- bell.
pub escape-IsPlain : (s : Text) → All IsPlain (escape s)
escape-IsPlain s = rw escape-escape_all (escape_all-IsPlain s)
