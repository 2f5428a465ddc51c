-- ===== src/Updater/Versions.antt =====
-- How the check for updates orders versions.
use smtc_now_playing.Prelude.{
  ℕ, suc, ◌+◌, ◌-◌, ◌*◌, ◌^◌, ◌≤◌, ◌<◌, Bool, Option, none, some, [], ◌∷◌, ◌++◌, Text, text_eq,
  codes, All, ◌==◌, if◌then◌else◌, ◌≡◌, ◌≢◌, refl, ap, ◌∙◌, arith,
}
use smtc_now_playing.Prelude.Tests.{ltb}
use smtc_now_playing.Prelude.Int.{pos}
use smtc_now_playing.Prelude.Decimal.{
  decimal, IsDigit, decimal-IsDigit, value_from, value_from-decimal_lem, decimal-ne,
}
use smtc_now_playing.Json.{Json, str, obj, field, end, key_is, into_text, into_fields, into_struct}
use smtc_now_playing.Updater.{
  cut_dot, split_n, number, parse_digits, atoi, compare_rounds, compare_versions, trim_v,
  set_release, response, checked, panicked, check_for_update,
}

pub record Version : Type 0 where
  pub major : ℕ
  pub minor : ℕ
  pub patch : ℕ

-- The text X.Y.Z.
abbrev pub version_text : Version → Text
version_text v = decimal v.major ++ (b'.' ∷ (decimal v.minor ++ (b'.' ∷ decimal v.patch)))

-- The lexicographic order.
abbrev pub is_newer : Version → Version → Bool
is_newer v w =
    if v.major == w.major
    then (if v.minor == w.minor then ltb w.patch v.patch else ltb w.minor v.minor)
    else ltb w.major v.major

-- The parts fit an int.
abbrev pub Fits : Version → Type 0
Fits v = (v.major < 2 ^ 63) × (v.minor < 2 ^ 63) × (v.patch < 2 ^ 63)

value_from_grows : (s : Text) (n : ℕ) → n ≤ value_from n s
value_from_grows [] n = omega arith
value_from_grows (c ∷ s) n = omega (arith, value_from_grows s (n * 10 + (c - b'0')))

pub parse_digits-IsDigit :
    (s : Text) (n : ℕ)
    → All IsDigit s
    → value_from n s < 2 ^ 64
    → parse_digits n s ≡ number (value_from n s)
unfolding parse_digits
parse_digits-IsDigit [] n h small = refl
parse_digits-IsDigit (c ∷ s) n (d, h) small = ground (
  arith,
  value_from_grows s (n * 10 + (c - b'0')),
  parse_digits-IsDigit s (n * 10 + (c - b'0')) h small,
)

atoi-IsDigit :
    (s : Text) → s ≢ [] → All IsDigit s → value_from 0 s < 2 ^ 63 → atoi s ≡ pos (value_from 0 s)
unfolding atoi
atoi-IsDigit [] ne h small = absurd (ne refl)
atoi-IsDigit (c ∷ s) ne h small =
    ground (arith, h.0, parse_digits-IsDigit (c ∷ s) 0 h (omega arith))

atoi-decimal : (n : ℕ) → n < 2 ^ 63 → atoi (decimal n) ≡ pos n
atoi-decimal n small =
    atoi-IsDigit (decimal n) (decimal-ne n) (decimal-IsDigit n)
      (omega (arith, value_from-decimal_lem n))
    ∙ ap pos (value_from-decimal_lem n)

cut_dot-append : (s t : Text) → All IsDigit s → cut_dot (s ++ b'.' ∷ t) ≡ (s, some t)
cut_dot-append [] t h = refl
cut_dot-append (c ∷ s) t (d, h) = ground (arith, cut_dot-append s t h)

cut_dot_whole : (s : Text) → All IsDigit s → cut_dot s ≡ (s, none)
cut_dot_whole [] h = refl
cut_dot_whole (c ∷ s) (d, h) = ground (arith, cut_dot_whole s h)

split_n_dot :
    (n : ℕ) (s t : Text) → All IsDigit s → split_n (suc n) (s ++ b'.' ∷ t) ≡ s ∷ split_n n t
unfolding split_n
split_n_dot n s t h =
    ap (λ (p : Text × Option Text). p.0 ∷ (elim p.1 [ none ↦ [] | some u ↦ split_n n u ]))
      (cut_dot-append s t h)

split_n_whole : (n : ℕ) (s : Text) → All IsDigit s → split_n (suc n) s ≡ s ∷ []
unfolding split_n
split_n_whole n s h =
    ap (λ (p : Text × Option Text). p.0 ∷ (elim p.1 [ none ↦ [] | some u ↦ split_n n u ]))
      (cut_dot_whole s h)

split_n-version_text :
    (v : Version)
    → split_n 2 (version_text v) ≡ decimal v.major ∷ decimal v.minor ∷ decimal v.patch ∷ []
unfolding split_n
split_n-version_text v =
    let behind : Text = decimal v.minor ++ b'.' ∷ decimal v.patch in
    let first : split_n 2 (version_text v) ≡ decimal v.major ∷ split_n 1 behind =
      split_n_dot 1 (decimal v.major) behind (decimal-IsDigit v.major) in
    let second : split_n 1 behind ≡ decimal v.minor ∷ decimal v.patch ∷ [] =
      split_n_dot 0 (decimal v.minor) (decimal v.patch) (decimal-IsDigit v.minor) in
    first ∙ ap (λ parts. decimal v.major ∷ parts) second

split_n-decimal : (n : ℕ) → split_n 2 (decimal n) ≡ decimal n ∷ []
split_n-decimal n = split_n_whole 1 (decimal n) (decimal-IsDigit n)

-- Versions of three numbers are compared in lexicographic order of the numbers.
pub compare_versions-version_text :
    (v w : Version)
    → Fits v
    → Fits w
    → compare_versions (version_text v) (version_text w) ≡ some (is_newer v w)
unfolding compare_versions compare_rounds
compare_versions-version_text v w (vx, vy, vz) (wx, wy, wz) =
    rw
      (
        split_n-version_text v,
        split_n-version_text w,
        atoi-decimal v.major vx,
        atoi-decimal v.minor vy,
        atoi-decimal v.patch vz,
        atoi-decimal w.major wx,
        atoi-decimal w.minor wy,
        atoi-decimal w.patch wz,
      )
      (ground arith)

-- The document of a release.
abbrev pub release_json : Text → Text → Text → Json
release_json tag url notes = obj (
    field (codes "tag_name") (str tag)
      (field (codes "html_url") (str url) (field (codes "body") (str notes) end)))

-- A release whose tag is v and three numbers is reported with its tag, address and notes, as available
-- exactly if it is newer than the current version.
pub check_for_update_finds :
    (v w : Version) (url notes : Text)
    → Fits v
    → Fits w
    → check_for_update
        (b'v' ∷ version_text w)
        (response 200 (some (release_json (b'v' ∷ version_text v) url notes)))
      ≡ checked (record {
        available = is_newer v w;
        version = b'v' ∷ version_text v;
        url = url;
        release_notes = notes;
      })
unfolding check_for_update into_struct into_fields set_release key_is into_text trim_v text_eq
check_for_update_finds v w url notes fv fw = rw (compare_versions-version_text v w fv fw) refl

-- A release whose tag is v and one number makes the check panic if it agrees with the major number of
-- the current version: the second part is looked up and is not there.
pub check_for_update_panics :
    (w : Version) (url notes : Text)
    → check_for_update
        (b'v' ∷ version_text w)
        (response 200 (some (release_json (b'v' ∷ decimal w.major) url notes)))
      ≡ panicked
unfolding check_for_update into_struct into_fields set_release key_is into_text trim_v text_eq
    compare_versions compare_rounds
check_for_update_panics w url notes =
    rw (split_n-version_text w, split_n-decimal w.major) (ground arith)
