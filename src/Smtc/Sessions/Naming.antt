-- ===== src/Smtc/Sessions/Naming.antt =====
-- The names of the sessions (`enumerateSessions` in internal/smtc/session.go): sessions of one
-- application are told apart.
use smtc_now_playing.Prelude.{
  ℕ, ◌+◌, ◌≤◌, ◌<◌, List, [], ◌∷◌, Text, codes, All, text_eq, text_eq_iff, text_eq_refl,
  if◌then◌else◌, ◌≡◌, ◌≢◌, inl, inr, refl, ap, arith, Bool-cases,
}
use mathlib.Core.List.{append_cancel_left, append_cancel_right}
use smtc_now_playing.Prelude.Tests.{ltb}
use smtc_now_playing.Prelude.Decimal.{decimal, decimal-injective}
use smtc_now_playing.Smtc.Types.{SessionInfo}
use smtc_now_playing.Smtc.Names.{friendly_app_name}
use smtc_now_playing.Smtc.Sessions.{
  Counter, no_counts, bump, count_ids, numbered, name_sessions, build_sessions,
}

numbered-injective : (name : Text) (m n : ℕ) → numbered name m ≡ numbered name n → m ≡ n
unfolding numbered
numbered-injective name m n h = decimal-injective m n (
    append_cancel_right (decimal m) (decimal n) (codes ")")
      (append_cancel_left (codes " (") _ _ (append_cancel_left name _ _ h)))

-- How often an id stands in a list.
occ : Text → List Text → ℕ
occ a [] = 0
occ a (b ∷ ids) = (if text_eq b a then 1 else 0) + occ a ids

count_ids-occ : (ids : List Text) (m : Counter) (a : Text) → count_ids ids m a ≡ m a + occ a ids
unfolding count_ids occ bump
count_ids-occ [] m a = omega arith
count_ids-occ (b ∷ ids) m a = ground (arith, count_ids-occ ids (bump b m) a)

-- A session of an application with several has a number above `m`.
abbrev LabelAbove : Counter → Counter → SessionInfo → Type 0
LabelAbove counts m x =
    1 < counts x.app_id
    → (k : ℕ) × (m x.app_id < k) × (x.name ≡ numbered (friendly_app_name x.app_id) k)

All-map {ℓ κ} :
    {A : Type ℓ} (P Q : A → Type κ) → ((x : A) → P x → Q x) → (xs : List A) → All P xs → All Q xs
All-map P Q f [] h = tt
All-map P Q f (x ∷ xs) (hx, hs) = (f x hx, All-map P Q f xs hs)

le-bump : (a j : Text) (m : Counter) → m j ≤ bump a m j
unfolding bump
le-bump a j m = ground arith

bump_self : (a : Text) (m : Counter) → bump a m a ≡ m a + 1
unfolding bump
bump_self a m = rw text_eq_refl refl

weaken :
    (counts m m' : Counter)
    → ((j : Text) → m j ≤ m' j)
    → (xs : List SessionInfo) → All (LabelAbove counts m') xs
    → All (LabelAbove counts m) xs
weaken counts m m' grows =
    All-map (LabelAbove counts m') (LabelAbove counts m)
      λ x h twin. let (k, above, name) = h twin in (k, omega (arith, grows x.app_id), name)

name_sessions-LabelAbove :
    (counts : Counter) (ids : List Text) (m : Counter)
    → All (LabelAbove counts m) (name_sessions counts m ids)
unfolding name_sessions
name_sessions-LabelAbove counts [] m = tt
name_sessions-LabelAbove counts (a ∷ ids) m = elim (Bool-cases (ltb 1 (counts a))) [
  | inl twin ↦ rw twin (
    (λ _. (bump a m a, omega (arith, bump_self a m), refl)),
    weaken counts m (bump a m) (λ j. le-bump a j m) _
        (name_sessions-LabelAbove counts ids (bump a m)),
  )
  | inr single ↦ rw single ((λ more. absurd (ground arith)), name_sessions-LabelAbove counts ids m)
]

-- Sessions of one application have different names.
abbrev pub ToldApart : List SessionInfo → Type 0
ToldApart [] = Unit
ToldApart (x ∷ xs) = All (λ y. y.app_id ≡ x.app_id → y.name ≢ x.name) xs × ToldApart xs

name_sessions_lacks :
    (counts : Counter) (a : Text) (ids : List Text) (m : Counter)
    → occ a ids ≡ 0
    → All (λ y. y.app_id ≢ a) (name_sessions counts m ids)
unfolding name_sessions occ
name_sessions_lacks counts a [] m h = tt
name_sessions_lacks counts a (b ∷ ids) m h = (
  ground (arith, text_eq_iff b a),
  name_sessions_lacks counts a ids (if ltb 1 (counts b) then bump b m else m) (omega arith),
)

clash :
    (m : Counter) (a b name : Text) (k : ℕ)
    → b ≡ a
    → m b < k
    → name ≡ numbered (friendly_app_name b) k
    → name ≡ numbered (friendly_app_name a) (m a)
    → ⊥
clash m a b name k same above p q =
    omega (arith, numbered-injective (friendly_app_name a) k (m a) (cc), ap m same)

above_apart :
    (counts m : Counter) (a : Text) (xs : List SessionInfo)
    → 1 < counts a
    → All (LabelAbove counts (bump a m)) xs
    → All (λ y. y.app_id ≡ a → y.name ≢ numbered (friendly_app_name a) (bump a m a)) xs
above_apart counts m a xs twin =
    All-map (LabelAbove counts (bump a m))
      (λ y. y.app_id ≡ a → y.name ≢ numbered (friendly_app_name a) (bump a m a))
      (λ y h same e.
        let (k, above, name) = h (rw same twin) in
        clash (bump a m) a y.app_id y.name k same above name e)
      xs

name_sessions-ToldApart :
    (counts : Counter) (ids : List Text) (m : Counter)
    → ((a : Text) → occ a ids ≤ counts a)
    → ToldApart (name_sessions counts m ids)
unfolding name_sessions occ
name_sessions-ToldApart counts [] m enough = tt
name_sessions-ToldApart counts (a ∷ ids) m enough = elim (Bool-cases (ltb 1 (counts a))) [
  | inl twin ↦ rw twin (
    above_apart counts m a _ (ground arith) (name_sessions-LabelAbove counts ids (bump a m)),
    name_sessions-ToldApart counts ids (bump a m) (λ j. omega (arith, enough j)),
  )
  | inr single ↦ rw single (
    All-map (λ y. y.app_id ≢ a) (λ y. y.app_id ≡ a → y.name ≢ friendly_app_name a)
        (λ y other same. absurd (other same)) _
        (name_sessions_lacks counts a ids m (ground (arith, enough a, text_eq_refl a))),
    name_sessions-ToldApart counts ids m (λ j. omega (arith, enough j)),
  )
]

-- However many sessions there are, two of the same application are shown under different names.
pub build_sessions-ToldApart : (ids : List Text) → ToldApart (build_sessions ids)
unfolding build_sessions
build_sessions-ToldApart ids =
    name_sessions-ToldApart (count_ids ids no_counts) ids no_counts
      (λ a. omega (arith, count_ids-occ ids no_counts a))

-- There is one entry for each id, in the order of the ids, and an application with a single session
-- has its plain name.
abbrev pub Lists : Counter → List Text → List SessionInfo → Type 0
Lists counts [] [] = Unit
Lists counts (a ∷ ids) (x ∷ xs) =
    (x.app_id ≡ a)
    × (x.source_app_id ≡ a)
    × (counts a ≤ 1 → x.name ≡ friendly_app_name a)
    × Lists counts ids xs
Lists counts _ _ = ⊥

name_sessions-Lists :
    (counts : Counter) (ids : List Text) (m : Counter)
    → Lists counts ids (name_sessions counts m ids)
unfolding name_sessions
name_sessions-Lists counts [] m = tt
name_sessions-Lists counts (a ∷ ids) m = (
  refl,
  refl,
  (λ single. ground arith),
  name_sessions-Lists counts ids (if ltb 1 (counts a) then bump a m else m),
)
