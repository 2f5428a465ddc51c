-- ===== src/Config/Reading.antt =====
-- internal/config/config.go: how a configuration is read, in both formats, and where from.
use smtc_now_playing.Prelude.{Bool, Option, none, some, List, [], ◌∷◌, Text, codes, if◌then◌else◌}
use smtc_now_playing.Json.{
  Json, Fields, into_text, into_bool, into_int, into_struct, into_map, map_get,
}
use smtc_now_playing.Config.{Config, default_config, Invalid, validate, set_config}

abbrev pub value_or {ℓ} : {A : Type ℓ} → Option A → A → A
value_or none old = old
value_or (some new) old = new

-- `set` of `migrateV1`: a value of another type is ignored and leaves the old one.
abbrev pub set_value {ℓ} : {A : Type ℓ} → (Json → A → Option A) → Option Json → A → A
set_value into none old = old
set_value into (some v) old = value_or (into v old) old

unfoldable pub migrate_v1 : Fields → Config
migrate_v1 flat =
    let c = default_config in
    let debug = set_value into_bool (map_get (codes "debug") flat) c.logging.debug in
    record {
      server = record {
        port = set_value into_int (map_get (codes "port") flat) c.server.port;
        allow_remote =
            set_value into_bool (map_get (codes "controlAllowRemote") flat) c.server.allow_remote;
        hot_reload = set_value into_bool (map_get (codes "hotReload") flat) c.server.hot_reload;
      };
      ui = record {
        theme = set_value into_text (map_get (codes "theme") flat) c.ui.theme;
        auto_start = set_value into_bool (map_get (codes "autostart") flat) c.ui.auto_start;
        start_minimized =
            set_value into_bool (map_get (codes "startminimized") flat) c.ui.start_minimized;
        show_preview_window =
            set_value into_bool (map_get (codes "showpreviewwindow") flat) c.ui.show_preview_window;
        preview_always_on_top =
            set_value into_bool (map_get (codes "previewalwaysontop") flat)
              c.ui.preview_always_on_top;
      };
      smtc = record {
        selected_device =
            set_value into_text (map_get (codes "selecteddevice") flat) c.smtc.selected_device;
      };
      logging = record { level = if debug then codes "debug" else c.logging.level; debug = debug };
    }

abbrev pub parse_keyed : Option Json → Json → Fields → Option Config
parse_keyed (some port) doc raw = some (migrate_v1 raw)
parse_keyed none doc raw = into_struct set_config doc default_config

-- `parseConfig`: a document with a `port` at its top is of version 1.
unfoldable pub parse_config : Option Json → Option Config
parse_config none = none
parse_config (some doc) = elim (into_map doc) [
  | none ↦ none
  | some raw ↦ parse_keyed (map_get (codes "port") raw) doc raw
]

-- What reading the file gives.
pub data ReadReply : Type 0 where
  missing : ReadReply
  unreadable : ReadReply
  content : Option Json → ReadReply

pub data Loaded : Type 0 where
  loaded : Config → Loaded
  read_error : Loaded
  parse_error : Loaded
  invalid : Invalid → Loaded

abbrev pub check_loaded : Config → Option Invalid → Loaded
check_loaded c none = loaded c
check_loaded c (some e) = invalid e

abbrev pub load_parsed : Option Config → Loaded
load_parsed none = parse_error
load_parsed (some c) = check_loaded c (validate c)

unfoldable pub load : ReadReply → Loaded
load missing = loaded default_config
load unreadable = read_error
load (content doc) = load_parsed (parse_config doc)

-- `appDataConfigFile`, the empty path if APPDATA is unset; `join` joins it and the names behind it.
unfoldable pub app_data_config_file : (Text → List Text → Text) → Text → Text
app_data_config_file join [] = []
app_data_config_file join (c ∷ app_data) =
    join (c ∷ app_data) (codes "soarqin" ∷ codes "smtc-now-playing" ∷ codes "config.json" ∷ [])

-- `ResolvePath`, which never reports an error; `dir` is the directory of the executable.
unfoldable pub resolve_path : (Text → List Text → Text) → (Text → Bool) → Text → Text → Text
resolve_path join file_exists dir app_data =
    let portable = join dir (codes "portable_config.json" ∷ []) in
    if file_exists portable then portable else app_data_config_file join app_data
