-- ===== src/Tests/Files.antt =====
-- The configuration and the check for updates at concrete inputs.
use smtc_now_playing.Prelude.{true, none, some, take, codes, ◌≡◌, refl, arith}
use smtc_now_playing.Json.{fits_int64}
use smtc_now_playing.Config.{default_config, config_json}
use smtc_now_playing.Config.Reading.{parse_config, load, loaded, missing}
use smtc_now_playing.Config.Loading.{parse_config-config_json, load-IsValid, IsValid}
use smtc_now_playing.Config.Saving.{Disk, save_steps, apply_steps}
use smtc_now_playing.Config.Saving.Atomic.{Whole, save_steps-Whole}
use smtc_now_playing.Updater.{compare_versions}
use smtc_now_playing.Updater.Versions.{Version, version_text, compare_versions-version_text}

default_fits : fits_int64 default_config.server.port ≡ true
unfolding default_config fits_int64
default_fits = ground arith

parse_config-config_json_example :
    parse_config (some (config_json default_config)) ≡ some default_config
parse_config-config_json_example = parse_config-config_json default_config default_fits

missing_loads : load missing ≡ loaded default_config
unfolding load
missing_loads = refl

load-IsValid_example : IsValid default_config
load-IsValid_example = load-IsValid missing missing_loads

abbrev disk : Disk
disk = record { target = some (codes "old"); temp = none }

save_steps-Whole_example :
    Whole (codes "new") disk.target (apply_steps (take 3 (save_steps (codes "new") none)) disk)
save_steps-Whole_example = save_steps-Whole (codes "new") none disk 3

abbrev old_version : Version
old_version = record { major = 1; minor = 9; patch = 12 }

abbrev new_version : Version
new_version = record { major = 1; minor = 10; patch = 0 }

compare_versions-version_text_example :
    compare_versions (version_text new_version) (version_text old_version) ≡ some true
compare_versions-version_text_example =
    compare_versions-version_text new_version old_version (omega arith, omega arith, omega arith)
      (omega arith, omega arith, omega arith)
