-- ===== src/Smtc/Names.antt =====
-- internal/smtc/helpers.go: `friendlyAppName`. Here a string is the list of its bytes, since the
-- source cuts it by bytes.
pub mod Friendly
use smtc_now_playing.Prelude.{
  ℕ, suc, ◌+◌, ◌-◌, Bool, true, false, Option, none, some, List, [], ◌∷◌, ◌++◌, map, Text, codes,
  text_eq, length, take, drop, ◌==◌, ◌&&◌, if◌then◌else◌,
}
use smtc_now_playing.Prelude.Tests.{ltb, leb}

abbrev or_here : Bool → Option ℕ → Option ℕ
or_here here (some i) = some (suc i)
or_here true none = some 0
or_here false none = none

-- `strings.LastIndex` of one byte, `none` for -1.
unfoldable pub last_index : ℕ → Text → Option ℕ
last_index b [] = none
last_index b (c ∷ s) = or_here (c == b) (last_index b s)

-- `strings.ToLower`, as far as the test for ".exe" sees it: only the bytes of `A` to `Z` become
-- ASCII letters.
abbrev pub lower_byte : ℕ → ℕ
lower_byte c = if leb b'A' c && leb c b'Z' then c + 32 else c

abbrev pub dot_exe : Text
dot_exe = codes ".exe"

-- `strings.HasSuffix(strings.ToLower(name), ".exe")`.
unfoldable pub has_exe_suffix : Text → Bool
has_exe_suffix name =
    leb 4 (length name) && text_eq (map lower_byte (drop (length name - 4) name)) dot_exe

-- `strings.ToUpper` of a string of one byte. A byte from 128 on is no whole character: it becomes
-- the replacement character U+FFFD.
unfoldable pub upper_byte : ℕ → Text
upper_byte c =
    if ltb c 128
    then (if leb b'a' c && leb c b'z' then c - 32 else c) ∷ []
    else 0xEF ∷ 0xBF ∷ 0xBD ∷ []

abbrev cut_at : Text → Option ℕ → Text
cut_at name (some i) = drop (i + 1) name
cut_at name none = if has_exe_suffix name then take (length name - 4) name else name

abbrev title_case : Text → Text
title_case [] = []
title_case (c ∷ s) = upper_byte c ++ s

abbrev or_original : Text → Text → Text
or_original original [] = original
or_original original (c ∷ s) = c ∷ s

unfoldable pub friendly_app_name : Text → Text
friendly_app_name app_id = or_original app_id (title_case (cut_at app_id (last_index b'!' app_id)))
