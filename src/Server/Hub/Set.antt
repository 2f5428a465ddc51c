-- ===== src/Server/Hub/Set.antt =====
-- The set of connections (internal/server/hub.go): each stands in it once.
use smtc_now_playing.Prelude.{
  ℕ, ◌+◌, ◌≤◌, true, false, List, [], ◌∷◌, ◌++◌, ◌==◌, ◌||◌, if◌then◌else◌, ◌≡◌, ==_iff, refl,
  arith,
}
use smtc_now_playing.Server.Hub.{contains, insert, delete}

unfoldable pub count : ℕ → List ℕ → ℕ
count c [] = 0
count c (d ∷ ds) = (if d == c then 1 else 0) + count c ds

count-append_one :
    (c d : ℕ) (ds : List ℕ) → count c (ds ++ d ∷ []) ≡ count c ds + (if d == c then 1 else 0)
unfolding count
count-append_one c d [] = ground arith
count-append_one c d (x ∷ ds) = ground (arith, count-append_one c d ds)

contains-append_one :
    (c d : ℕ) (ds : List ℕ) → contains c (ds ++ d ∷ []) ≡ (contains c ds || d == c)
unfolding contains
contains-append_one c d [] = ground arith
contains-append_one c d (x ∷ ds) = ground (arith, contains-append_one c d ds)

pub contains-count :
    (c : ℕ) (ds : List ℕ) → contains c ds ≡ (if count c ds == 0 then false else true)
unfolding contains count
contains-count c [] = refl
contains-count c (d ∷ ds) = ground (arith, contains-count c ds)

pub contains-insert : (c d : ℕ) (ds : List ℕ) → contains c (insert d ds) ≡ (d == c || contains c ds)
unfolding insert
contains-insert c d ds =
    ground (arith, contains-append_one c d ds, contains-count c ds, contains-count d ds, ==_iff d c)

pub contains-delete :
    (c d : ℕ) (ds : List ℕ) → contains c (delete d ds) ≡ (if d == c then false else contains c ds)
unfolding contains delete
contains-delete c d [] = ground arith
contains-delete c d (x ∷ ds) = ground (arith, contains-delete c d ds)

pub count-delete :
    (c d : ℕ) (ds : List ℕ) → count c (delete d ds) ≡ (if d == c then 0 else count c ds)
unfolding count delete
count-delete c d [] = ground arith
count-delete c d (x ∷ ds) = ground (arith, count-delete c d ds)

-- A connection still stands in the set at most once.
pub count-insert_le : (c d : ℕ) (ds : List ℕ) → count c ds ≤ 1 → count c (insert d ds) ≤ 1
unfolding insert
count-insert_le c d ds h = ground (arith, count-append_one c d ds, contains-count d ds)
