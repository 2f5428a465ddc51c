-- ===== src/Server/Paths/Containment.antt =====
-- What `safeJoin` lets through.
use smtc_now_playing.Prelude.{
  ℕ, Bool, Option, none, ◌==◌, refl, ap, true, false, some, List, [], ◌∷◌, Text, text_eq,
  text_eq_iff, All, ◌≡◌, ◌≢◌, inl, inr, subst, Bool-cases, arith, ◌||◌,
}
use smtc_now_playing.Server.Paths.{
  trim_slashes, components, contains_rune, push_rune, dot, dot_dot, pop, enter, if_below,
  join_below, clean_onto, below, reverse_onto, join, safe_join,
}

-- A component holds neither of the separators of Windows.
abbrev pub NoSeparator : Text → Type 0
NoSeparator p = (contains_rune b'/' p ≡ false) × (contains_rune b'\\' p ≡ false)

-- A single component that leads down.
abbrev pub IsPlain : Text → Type 0
IsPlain p = NoSeparator p × (p ≢ []) × (p ≢ dot) × (p ≢ dot_dot)

pop-IsPlain : (stack : List Text) → All IsPlain stack → All IsPlain (pop stack)
pop-IsPlain [] h = tt
pop-IsPlain (p ∷ ps) h = h.1

pub named-IsPlain :
    (p : Text)
    → NoSeparator p
    → (text_eq p [] || text_eq p dot) ≡ false
    → text_eq p dot_dot ≡ false
    → IsPlain p
named-IsPlain p single h up = (
  single,
  ground (arith, text_eq_iff p []),
  ground (arith, text_eq_iff p dot),
  ground (arith, text_eq_iff p dot_dot),
)

enter-IsPlain :
    (p : Text) (stack : List Text) → NoSeparator p → All IsPlain stack → All IsPlain (enter p stack)
enter-IsPlain p stack single h = elim (Bool-cases (text_eq p [] || text_eq p dot)) [
  | inl skipped ↦ rw skipped h
  | inr taken ↦ rw taken (elim (Bool-cases (text_eq p dot_dot)) [
    | inl up ↦ rw up (pop-IsPlain stack h)
    | inr down ↦ rw down (named-IsPlain p single taken down, h)
  ])
]

clean_onto-IsPlain :
    (stack ps : List Text)
    → All NoSeparator ps
    → All IsPlain stack
    → All IsPlain (clean_onto stack ps)
unfolding clean_onto
clean_onto-IsPlain stack [] single h = h
clean_onto-IsPlain stack (p ∷ ps) single h =
    clean_onto-IsPlain (enter p stack) ps single.1 (enter-IsPlain p stack single.0 h)

push_rune-NoSeparator :
    (c : ℕ) (ps : List Text)
    → (c == b'/') ≡ false
    → (c == b'\\') ≡ false
    → All NoSeparator ps
    → All NoSeparator (push_rune c ps)
unfolding contains_rune
push_rune-NoSeparator c [] slash back h = ((ground arith, ground arith), tt)
push_rune-NoSeparator c (p ∷ ps) slash back h = ((ground arith, ground arith), h.1)

-- The components of a path without backslashes hold no separator.
components-NoSeparator :
    (rel : Text) → contains_rune b'\\' rel ≡ false → All NoSeparator (components rel)
unfolding components contains_rune
components-NoSeparator [] h = ((refl, refl), tt)
components-NoSeparator (c ∷ s) h =
    let rest = components-NoSeparator s (ground arith) in
    elim (Bool-cases (c == b'/')) [
      | inl slash ↦ rw slash ((refl, refl), rest)
      | inr other ↦ rw other (push_rune-NoSeparator c (components s) other (ground arith) rest)
    ]

reverse_onto-IsPlain :
    (ps acc : List Text) → All IsPlain ps → All IsPlain acc → All IsPlain (reverse_onto ps acc)
reverse_onto-IsPlain [] acc h g = g
reverse_onto-IsPlain (p ∷ ps) acc h g = reverse_onto-IsPlain ps (p ∷ acc) h.1 (h.0, g)

-- The path begins with the components of the base, up to the case of letters.
abbrev pub Below : (Text → Text → Bool) → List Text → List Text → Type 0
Below equal_fold [] path = Unit
Below equal_fold (b ∷ base) [] = ⊥
Below equal_fold (b ∷ base) (p ∷ path) = (equal_fold b p ≡ true) × Below equal_fold base path

below-Below :
    (equal_fold : Text → Text → Bool) (base path : List Text)
    → below equal_fold base path ≡ true
    → Below equal_fold base path
unfolding below
below-Below equal_fold [] path h = tt
below-Below equal_fold (b ∷ base) [] h = cc
below-Below equal_fold (b ∷ base) (p ∷ path) h =
    (ground arith, below-Below equal_fold base path (ground arith))

join-IsPlain :
    (base : List Text) (rel : Text)
    → contains_rune b'\\' rel ≡ false
    → All IsPlain base
    → All IsPlain (join base rel)
unfolding join
join-IsPlain base rel single h =
    reverse_onto-IsPlain (clean_onto (reverse_onto base []) (components rel)) []
      (clean_onto-IsPlain (reverse_onto base []) (components rel)
        (components-NoSeparator rel single) (reverse_onto-IsPlain base [] h tt))
      tt

if_below_lem :
    (equal_fold : Text → Text → Bool) (base : List Text) (full : Option (List Text))
    {path : List Text}
    → if_below equal_fold base full ≡ some path
    → (full ≡ some path) × Below equal_fold base path
if_below_lem equal_fold base none h = cc
if_below_lem equal_fold base (some q) h = elim (Bool-cases (below equal_fold base q)) [
  | inl inside ↦
      let same : q ≡ _ = ground arith in
      (ap some same, subst (Below equal_fold base) same (below-Below equal_fold base q inside))
  | inr outside ↦ absurd (ground arith)
]

join_below_lem :
    (equal_fold : Text → Text → Bool) (full_path : List Text → Option (List Text))
    (base : List Text) (rel : Text) {path : List Text}
    → join_below equal_fold full_path base rel ≡ some path
    → (contains_rune b'\\' rel ≡ false)
      × (if_below equal_fold base (full_path (join base rel)) ≡ some path)
join_below_lem equal_fold full_path base rel h = elim (Bool-cases (contains_rune b'\\' rel)) [
  | inl back ↦ absurd (ground arith)
  | inr fine ↦ (fine, ground arith)
]

-- Whatever a client asks for, a path that is let through begins with the base, up to the case of
-- letters, and each of its components is a single one that leads down: it holds neither / nor \ and
-- is none of ., .. and the empty one. So the file lies below the base. This needs that the base is
-- of such components, and that the system makes such a path of one that is already.
pub safe_join-Below :
    (equal_fold : Text → Text → Bool) (full_path : List Text → Option (List Text))
    → ((p q : List Text) → full_path p ≡ some q → All IsPlain p → All IsPlain q)
    → (base : List Text) (rel : Text) {path : List Text} → All IsPlain base
    → safe_join equal_fold full_path (some base) rel ≡ some path
    → Below equal_fold base path × All IsPlain path
unfolding safe_join
safe_join-Below equal_fold full_path keeps base rel {path} plain h =
    let asked = trim_slashes rel in
    let (single, checked) = join_below_lem equal_fold full_path base asked h in
    let (full, inside) = if_below_lem equal_fold base (full_path (join base asked)) checked in
    (inside, keeps (join base asked) path full (join-IsPlain base asked single plain))
