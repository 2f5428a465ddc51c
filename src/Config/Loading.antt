-- ===== src/Config/Loading.antt =====
-- What a configuration read by `Load` (internal/config/config.go) satisfies.
use smtc_now_playing.Prelude.{
  true, Option, none, some, [], Text, codes, text_eq, text_eq_iff, ◌≡◌, ◌≢◌, ◌⊎◌, ◌↔◌, inl, inr,
  refl, subst, arith, Option-cases,
}
use smtc_now_playing.Prelude.Int.{ℤ, pos, ◌≤ℤ◌}
use smtc_now_playing.Json.{
  Json, Fields, null, bool, num, float, arr, str, obj, key_is, into_text, into_bool, into_int,
  into_fields, into_struct, into_map, map_get, fits_int64,
}
use smtc_now_playing.Config.{
  Config, default_config, Invalid, known_level, validate, set_server, set_ui, set_smtc, set_logging,
  set_config, config_json,
}
use smtc_now_playing.Config.Reading.{
  migrate_v1, set_value, parse_config, ReadReply, missing, unreadable, content, loaded,
  check_loaded, load_parsed, load,
}

-- What the program relies on: a port of TCP, a theme, and a level that the logger knows.
pub record IsValid (c : Config) : Type 0 where
  pub low : pos 1 ≤ℤ c.server.port
  pub high : c.server.port ≤ℤ pos 65535
  pub themed : c.ui.theme ≢ []
  pub level :
      (c.logging.level ≡ codes "debug")
      ⊎ (c.logging.level ≡ codes "info")
      ⊎ (c.logging.level ≡ codes "warn")
      ⊎ (c.logging.level ≡ codes "error")

known_level_sound :
    (l : Text)
    → known_level l ≡ true
    → (l ≡ codes "debug") ⊎ (l ≡ codes "info") ⊎ (l ≡ codes "warn") ⊎ (l ≡ codes "error")
known_level_sound l h = ground (
  arith,
  text_eq_iff l (codes "debug"),
  text_eq_iff l (codes "info"),
  text_eq_iff l (codes "warn"),
  text_eq_iff l (codes "error"),
)

known_level_complete :
    (l : Text)
    → (l ≡ codes "debug") ⊎ (l ≡ codes "info") ⊎ (l ≡ codes "warn") ⊎ (l ≡ codes "error")
    → known_level l ≡ true
known_level_complete l h = ground (
  arith,
  text_eq_iff l (codes "debug"),
  text_eq_iff l (codes "info"),
  text_eq_iff l (codes "warn"),
  text_eq_iff l (codes "error"),
)

validate_sound : (c : Config) → validate c ≡ none → IsValid c
unfolding validate
validate_sound c h = record {
  low = ground arith;
  high = ground arith;
  themed = ground (arith, text_eq_iff c.ui.theme []);
  level = known_level_sound c.logging.level (ground arith);
}

validate_complete : (c : Config) → IsValid c → validate c ≡ none
unfolding validate
validate_complete c v = ground (
  arith,
  v.low,
  v.high,
  v.themed,
  text_eq_iff c.ui.theme [],
  known_level_complete c.logging.level v.level,
)

-- `Validate` accepts exactly the valid configurations.
pub validate_iff : (c : Config) → (validate c ≡ none) ↔ IsValid c
validate_iff c = (validate_sound c, validate_complete c)

-- The port of a valid configuration has 64 bits.
pub valid_fits : (c : Config) → validate c ≡ none → fits_int64 c.server.port ≡ true
unfolding fits_int64
valid_fits c v = let ok = (validate_iff c).0 v in ground (arith, ok.low, ok.high)

check_loaded_sound :
    (c : Config) (e : Option Invalid) {d : Config}
    → check_loaded c e ≡ loaded d
    → (c ≡ d) × (e ≡ none)
check_loaded_sound c none h = (ground arith, refl)
check_loaded_sound c (some e) h = cc

default_config-IsValid : IsValid default_config
unfolding default_config
default_config-IsValid = record {
  low = ground arith;
  high = ground arith;
  themed = (λ h. cc);
  level = inr (inl refl);
}

load_parsed-IsValid : (o : Option Config) {c : Config} → load_parsed o ≡ loaded c → IsValid c
load_parsed-IsValid none h = cc
load_parsed-IsValid (some d) h =
    let (same, ok) = check_loaded_sound d (validate d) h in
    subst IsValid same ((validate_iff d).0 ok)

-- Whatever the file holds, a configuration that is loaded is valid; without a file it is the default
-- one.
pub load-IsValid : (reply : ReadReply) {c : Config} → load reply ≡ loaded c → IsValid c
unfolding load
load-IsValid missing h =
    subst IsValid (check_loaded_sound default_config none h).0 default_config-IsValid
load-IsValid unreadable h = cc
load-IsValid (content doc) h = load_parsed-IsValid (parse_config doc) h

-- The document of a configuration whose port has 64 bits is read as this configuration.
pub parse_config-config_json :
    (c : Config) → fits_int64 c.server.port ≡ true → parse_config (some (config_json c)) ≡ some c
unfolding parse_config config_json into_map map_get into_struct into_fields set_config set_server
    set_ui set_smtc set_logging key_is text_eq into_int into_text into_bool
parse_config-config_json c fits = ground arith

into_int_fits :
    (v : Json) (old : ℤ) {n : ℤ}
    → into_int v old ≡ some n
    → fits_int64 old ≡ true
    → fits_int64 n ≡ true
unfolding into_int
into_int_fits null old h fits = ground arith
into_int_fits (num m) old h fits = ground arith
into_int_fits (bool b) old h fits = cc
into_int_fits (float x) old h fits = cc
into_int_fits (str s) old h fits = cc
into_int_fits (arr xs) old h fits = cc
into_int_fits (obj fs) old h fits = cc

set_value_fits :
    (v : Option Json) (old : ℤ)
    → fits_int64 old ≡ true
    → fits_int64 (set_value into_int v old) ≡ true
set_value_fits none old fits = fits
set_value_fits (some v) old fits = elim (Option-cases (into_int v old)) [
  | inl e ↦ rw e fits
  | inr (n, e) ↦ rw e (into_int_fits v old e fits)
]

migrate_v1_port : (raw : Fields) → fits_int64 (migrate_v1 raw).server.port ≡ true
unfolding migrate_v1 default_config fits_int64
migrate_v1_port raw = set_value_fits (map_get (codes "port") raw) (pos 11451) (ground arith)

-- What is migrated from a document of version 1 is read back from the file that it is saved as, from
-- then on a document of version 2.
pub migrate_v1_saved :
    (raw : Fields) → parse_config (some (config_json (migrate_v1 raw))) ≡ some (migrate_v1 raw)
migrate_v1_saved raw = parse_config-config_json (migrate_v1 raw) (migrate_v1_port raw)
