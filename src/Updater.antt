-- ===== src/Updater.antt =====
-- internal/updater/updater.go: the check for a newer release. A version is the list of its characters,
-- and the standard library's functions on strings are written out as far as the check uses them.
pub mod Versions
use smtc_now_playing.Prelude.{
  ℕ, zero, suc, ◌+◌, ◌-◌, ◌*◌, ◌^◌, Bool, true, false, Option, none, some, List, [], ◌∷◌, Text,
  codes, ◌==◌, ◌&&◌, if◌then◌else◌,
}
use smtc_now_playing.Prelude.Tests.{ltb, leb}
use smtc_now_playing.Prelude.Int.{ℤ, pos, negsuc, int_eq, ltb_ℤ}
use smtc_now_playing.Json.{Json, key_is, into_text, into_struct}

abbrev push_front : ℕ → Text × Option Text → Text × Option Text
push_front c (head, rest) = (c ∷ head, rest)

-- A string up to its first dot, and what stands behind the dot, if there is one.
abbrev pub cut_dot : Text → Text × Option Text
cut_dot [] = ([], none)
cut_dot (c ∷ s) = if c == b'.' then ([], some s) else push_front c (cut_dot s)

-- `strings.SplitN(s, ".", n + 1)`: at most n + 1 parts, the last of them with any dots that are left.
unfoldable pub split_n : ℕ → Text → List Text
split_n zero s = s ∷ []
split_n (suc n) s = (cut_dot s).0 ∷ (elim (cut_dot s).1 [ none ↦ [] | some t ↦ split_n n t ])

-- `strconv.ParseUint` of decimal digits, from the number that is read already; a digit that takes the
-- number out of 64 bits ends the reading.
pub data Parsed : Type 0 where
  number : ℕ → Parsed
  out_of_range : Parsed
  syntax_error : Parsed

unfoldable pub parse_digits : ℕ → Text → Parsed
parse_digits n [] = number n
parse_digits n (c ∷ s) =
    let m = n * 10 + (c - b'0') in
    let rest = parse_digits m s in
    if leb b'0' c && leb c b'9'
    then (if ltb m (2 ^ 64) then rest else out_of_range)
    else syntax_error

abbrev pub parse_uint : Text → Parsed
parse_uint [] = syntax_error
parse_uint (c ∷ s) = parse_digits 0 (c ∷ s)

-- The value that `strconv.Atoi` returns beside its error: 0 for a syntax error, the nearest number of
-- 64 bits for one that is out of range.
abbrev pub positive : Parsed → ℤ
positive (number n) = if ltb n (2 ^ 63) then pos n else pos (2 ^ 63 - 1)
positive out_of_range = pos (2 ^ 63 - 1)
positive syntax_error = pos 0

abbrev negative : Parsed → ℤ
negative (number zero) = pos 0
negative (number (suc n)) = if ltb n (2 ^ 63) then negsuc n else negsuc (2 ^ 63 - 1)
negative out_of_range = negsuc (2 ^ 63 - 1)
negative syntax_error = pos 0

unfoldable pub atoi : Text → ℤ
atoi [] = pos 0
atoi (c ∷ s) =
    if c == b'-'
    then negative (parse_uint s)
    else if c == b'+'
    then positive (parse_uint s)
    else positive (parse_uint (c ∷ s))

-- The rounds of the loop of `compareVersions`; `none` is the panic of an index out of range.
unfoldable pub compare_rounds : ℕ → List Text → List Text → Option Bool
compare_rounds zero xs ys = some false
compare_rounds (suc n) (a ∷ xs) (b ∷ ys) =
    let rest = compare_rounds n xs ys in
    if int_eq (atoi a) (atoi b) then rest else some (ltb_ℤ (atoi b) (atoi a))
compare_rounds (suc n) _ _ = none

unfoldable pub compare_versions : Text → Text → Option Bool
compare_versions a b = compare_rounds 3 (split_n 2 a) (split_n 2 b)

pub record Release : Type 0 where
  pub tag_name : Text
  pub html_url : Text
  pub body : Text

unfoldable pub set_release : Text → Json → Release → Option Release
set_release k v r =
    if key_is (codes "tag_name") k
    then elim (into_text v r.tag_name) [ none ↦ none | some t ↦ some (record r { tag_name = t }) ]
    else if key_is (codes "html_url") k
    then elim (into_text v r.html_url) [ none ↦ none | some t ↦ some (record r { html_url = t }) ]
    else if key_is (codes "body") k
    then elim (into_text v r.body) [ none ↦ none | some t ↦ some (record r { body = t }) ]
    else some r

pub record UpdateInfo : Type 0 where
  pub available : Bool
  pub version : Text
  pub url : Text
  pub release_notes : Text

-- What comes of the HTTP request: no request or no response, or a status with the first document of
-- the body, `none` if that is no JSON.
pub data HttpReply : Type 0 where
  no_request : HttpReply
  no_response : HttpReply
  response : ℕ → Option Json → HttpReply

pub data CheckError : Type 0 where
  request_error : CheckError
  response_error : CheckError
  bad_status : ℕ → CheckError
  decode_error : CheckError

pub data Checked : Type 0 where
  checked : UpdateInfo → Checked
  failed : CheckError → Checked
  panicked : Checked

-- `strings.TrimPrefix(s, "v")`.
unfoldable pub trim_v : Text → Text
trim_v [] = []
trim_v (c ∷ s) = if c == b'v' then s else c ∷ s

abbrev pub report : Release → Option Bool → Checked
report r none = panicked
report r (some newer) =
    checked
      (record { available = newer; version = r.tag_name; url = r.html_url; release_notes = r.body })

abbrev pub check_release : Text → Option Release → Checked
check_release current none = failed decode_error
check_release current (some r) = report r (compare_versions (trim_v r.tag_name) (trim_v current))

abbrev decode_release : Option Json → Option Release
decode_release none = none
decode_release (some doc) =
    into_struct set_release doc (record { tag_name = []; html_url = []; body = [] })

unfoldable pub check_for_update : Text → HttpReply → Checked
check_for_update current no_request = failed request_error
check_for_update current no_response = failed response_error
check_for_update current (response status body) =
    if status == 200
    then check_release current (decode_release body)
    else failed (bad_status status)
