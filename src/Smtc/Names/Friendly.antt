-- ===== src/Smtc/Names/Friendly.antt =====
-- What `friendlyAppName` (internal/smtc/helpers.go) makes of the two kinds of application id.
use smtc_now_playing.Prelude.{
  ℕ, suc, ◌-◌, ◌≤◌, true, none, some, [], ◌∷◌, ◌++◌, map, Text, All, text_eq_refl, length,
  length-append, take, drop, ◌≡◌, ◌≢◌, refl, arith, ap,
}
use native.Mathlib.Numerals.{add-one}
use smtc_now_playing.Smtc.Names.{
  last_index, has_exe_suffix, lower_byte, dot_exe, upper_byte, title_case, or_original,
  friendly_app_name,
}

abbrev pub Lacks : ℕ → Text → Type 0
Lacks b = All (λ c. c ≢ b)

last_index-Lacks : (b : ℕ) (s : Text) → Lacks b s → last_index b s ≡ none
unfolding last_index
last_index-Lacks b [] h = refl
last_index-Lacks b (c ∷ s) (hc, hs) = ground (arith, last_index-Lacks b s hs)

last_index-append : (b : ℕ) (p s : Text) → Lacks b s → last_index b (p ++ b ∷ s) ≡ some (length p)
unfolding last_index
last_index-append b [] s h = ground (arith, last_index-Lacks b s h)
last_index-append b (c ∷ p) s h = rw (last_index-append b p s h)

drop-append : (p : Text) (c : ℕ) (s : Text) → drop (suc (length p)) (p ++ c ∷ s) ≡ s
drop-append [] c s = refl
drop-append (x ∷ p) c s = drop-append p c s

take-append : (p s : Text) → take (length p) (p ++ s) ≡ p
take-append [] s = refl
take-append (x ∷ p) s = ap (λ r. x ∷ r) (take-append p s)

drop_front : (p s : Text) → drop (length p) (p ++ s) ≡ s
drop_front [] s = refl
drop_front (x ∷ p) s = drop_front p s

or_original-upper_byte :
    (original : Text) (c : ℕ) (s : Text)
    → or_original original (upper_byte c ++ s) ≡ upper_byte c ++ s
unfolding upper_byte
or_original-upper_byte original c s = ground arith

-- Of a packaged application's id the part behind the last `!` is shown, with its first byte in upper
-- case.
pub friendly_app_name_packaged :
    (family : Text) (c : ℕ) (app : Text)
    → Lacks b'!' (c ∷ app)
    → friendly_app_name (family ++ b'!' ∷ c ∷ app) ≡ upper_byte c ++ app
unfolding friendly_app_name
friendly_app_name_packaged family c app h =
    rw (last_index-append b'!' family (c ∷ app) h, add-one, drop-append family b'!' (c ∷ app))
      (or_original-upper_byte (family ++ b'!' ∷ c ∷ app) c app)

has_exe_suffix-append :
    (stem suffix : Text)
    → map lower_byte suffix ≡ dot_exe
    → length suffix ≡ 4
    → has_exe_suffix (stem ++ suffix) ≡ true
unfolding has_exe_suffix
has_exe_suffix-append stem suffix lower four =
    let e : length (stem ++ suffix) - 4 ≡ length stem = omega (arith, length-append stem suffix) in
    rw (e, drop_front stem suffix, lower)
      (ground (arith, length-append stem suffix, text_eq_refl dot_exe))

-- Of a desktop application's id the ending ".exe" is cut off, in whatever case it is written, and
-- the first byte is put in upper case.
pub friendly_app_name_desktop :
    (c : ℕ) (stem suffix : Text)
    → Lacks b'!' ((c ∷ stem) ++ suffix)
    → map lower_byte suffix ≡ dot_exe
    → length suffix ≡ 4
    → friendly_app_name ((c ∷ stem) ++ suffix) ≡ upper_byte c ++ stem
unfolding friendly_app_name
friendly_app_name_desktop c stem suffix plain lower four =
    let e : length ((c ∷ stem) ++ suffix) - 4 ≡ length (c ∷ stem) =
      omega (arith, length-append (c ∷ stem) suffix) in
    rw
      (
        last_index-Lacks b'!' ((c ∷ stem) ++ suffix) plain,
        has_exe_suffix-append (c ∷ stem) suffix lower four,
        e,
        take-append stem suffix,
      )
      (or_original-upper_byte ((c ∷ stem) ++ suffix) c stem)

title_case-nil : (s : Text) → title_case s ≡ [] → s ≡ []
unfolding upper_byte
title_case-nil [] h = refl
title_case-nil (c ∷ s) h = ground arith

-- An application whose id is not empty has a name that is not empty.
pub friendly_app_name-ne-nil : (app_id : Text) → app_id ≢ [] → friendly_app_name app_id ≢ []
unfolding friendly_app_name
friendly_app_name-ne-nil app_id h = ground arith

-- A name that begins with a byte from 128 on, as every character outside ASCII does in UTF-8, is
-- shown with that byte replaced by the three bytes of U+FFFD.
pub friendly_app_name_garbled :
    (family : Text) (c : ℕ) (app : Text)
    → Lacks b'!' (c ∷ app)
    → 128 ≤ c
    → friendly_app_name (family ++ b'!' ∷ c ∷ app) ≡ 0xEF ∷ 0xBF ∷ 0xBD ∷ app
unfolding upper_byte
friendly_app_name_garbled family c app h high =
    ground (arith, friendly_app_name_packaged family c app h)
