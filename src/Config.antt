-- ===== src/Config.antt =====
-- internal/config/config.go: the configuration, its checks and its document. A JSON text is its
-- document, `none` if it is no JSON.
pub mod Reading
pub mod Loading
pub mod Saving
use smtc_now_playing.Prelude.{
  ℕ, Bool, true, false, not, Option, none, some, List, [], ◌∷◌, ◌++◌, Text, codes, text_eq, ◌||◌,
  if◌then◌else◌,
}
use smtc_now_playing.Prelude.Int.{ℤ, pos, ltb_ℤ}
use smtc_now_playing.Json.{
  Json, Fields, bool, num, str, obj, end, field, key_is, into_text, into_bool, into_int,
  into_struct, into_map, map_get,
}

pub record ServerConfig : Type 0 where
  pub port : ℤ
  pub allow_remote : Bool
  pub hot_reload : Bool

pub record UiConfig : Type 0 where
  pub theme : Text
  pub auto_start : Bool
  pub start_minimized : Bool
  pub show_preview_window : Bool
  pub preview_always_on_top : Bool

pub record SmtcConfig : Type 0 where
  pub selected_device : Text

pub record LoggingConfig : Type 0 where
  pub level : Text
  pub debug : Bool

pub record Config : Type 0 where
  pub server : ServerConfig
  pub ui : UiConfig
  pub smtc : SmtcConfig
  pub logging : LoggingConfig

unfoldable pub default_config : Config
default_config = record {
  server = record { port = pos 11451; allow_remote = false; hot_reload = false };
  ui = record {
    theme = codes "default";
    auto_start = false;
    start_minimized = false;
    show_preview_window = false;
    preview_always_on_top = true;
  };
  smtc = record { selected_device = [] };
  logging = record { level = codes "info"; debug = false };
}

pub data Invalid : Type 0 where
  port_out_of_range : ℤ → Invalid
  empty_theme : Invalid
  bad_level : Text → Invalid

abbrev pub known_level : Text → Bool
known_level level =
    text_eq level (codes "debug")
    || text_eq level (codes "info")
    || text_eq level (codes "warn")
    || text_eq level (codes "error")

-- `Validate`, `none` for nil.
unfoldable pub validate : Config → Option Invalid
validate c =
    if ltb_ℤ c.server.port (pos 1) || ltb_ℤ (pos 65535) c.server.port
    then some (port_out_of_range c.server.port)
    else if text_eq c.ui.theme []
    then some empty_theme
    else if known_level c.logging.level
    then none
    else some (bad_level c.logging.level)

-- The decoders of the structs, a field at a time; `none` is a type error.
unfoldable pub set_server : Text → Json → ServerConfig → Option ServerConfig
set_server k v c =
    if key_is (codes "port") k
    then elim (into_int v c.port) [ none ↦ none | some n ↦ some (record c { port = n }) ]
    else if key_is (codes "allowRemote") k
    then elim (into_bool v c.allow_remote) [
      | none ↦ none
      | some b ↦ some (record c { allow_remote = b })
    ]
    else if key_is (codes "hotReload") k
    then elim (into_bool v c.hot_reload) [
      | none ↦ none
      | some b ↦ some (record c { hot_reload = b })
    ]
    else some c

unfoldable pub set_ui : Text → Json → UiConfig → Option UiConfig
set_ui k v c =
    if key_is (codes "theme") k
    then elim (into_text v c.theme) [ none ↦ none | some t ↦ some (record c { theme = t }) ]
    else if key_is (codes "autoStart") k
    then elim (into_bool v c.auto_start) [
      | none ↦ none
      | some b ↦ some (record c { auto_start = b })
    ]
    else if key_is (codes "startMinimized") k
    then elim (into_bool v c.start_minimized) [
      | none ↦ none
      | some b ↦ some (record c { start_minimized = b })
    ]
    else if key_is (codes "showPreviewWindow") k
    then elim (into_bool v c.show_preview_window) [
      | none ↦ none
      | some b ↦ some (record c { show_preview_window = b })
    ]
    else if key_is (codes "previewAlwaysOnTop") k
    then elim (into_bool v c.preview_always_on_top) [
      | none ↦ none
      | some b ↦ some (record c { preview_always_on_top = b })
    ]
    else some c

unfoldable pub set_smtc : Text → Json → SmtcConfig → Option SmtcConfig
set_smtc k v c =
    if key_is (codes "selectedDevice") k
    then elim (into_text v c.selected_device) [
      | none ↦ none
      | some t ↦ some (record { selected_device = t })
    ]
    else some c

unfoldable pub set_logging : Text → Json → LoggingConfig → Option LoggingConfig
set_logging k v c =
    if key_is (codes "level") k
    then elim (into_text v c.level) [ none ↦ none | some t ↦ some (record c { level = t }) ]
    else if key_is (codes "debug") k
    then elim (into_bool v c.debug) [ none ↦ none | some b ↦ some (record c { debug = b }) ]
    else some c

unfoldable pub set_config : Text → Json → Config → Option Config
set_config k v c =
    if key_is (codes "server") k
    then elim (into_struct set_server v c.server) [
      | none ↦ none
      | some s ↦ some (record c { server = s })
    ]
    else if key_is (codes "ui") k
    then elim (into_struct set_ui v c.ui) [ none ↦ none | some u ↦ some (record c { ui = u }) ]
    else if key_is (codes "smtc") k
    then elim (into_struct set_smtc v c.smtc) [
      | none ↦ none
      | some s ↦ some (record c { smtc = s })
    ]
    else if key_is (codes "logging") k
    then elim (into_struct set_logging v c.logging) [
      | none ↦ none
      | some l ↦ some (record c { logging = l })
    ]
    else some c

-- The document that the encoder writes.
unfoldable pub config_json : Config → Json
config_json c = obj (
    field (codes "server")
      (obj (
        field (codes "port") (num c.server.port) (
          field (codes "allowRemote") (bool c.server.allow_remote)
            (field (codes "hotReload") (bool c.server.hot_reload) end))))
      (field (codes "ui")
        (obj (
          field (codes "theme") (str c.ui.theme) (
            field (codes "autoStart") (bool c.ui.auto_start) (
              field (codes "startMinimized") (bool c.ui.start_minimized) (
                field (codes "showPreviewWindow") (bool c.ui.show_preview_window)
                  (field (codes "previewAlwaysOnTop") (bool c.ui.preview_always_on_top) end))))))
        (field (codes "smtc")
          (obj (field (codes "selectedDevice") (str c.smtc.selected_device) end))
          (field (codes "logging")
            (obj (
              field (codes "level") (str c.logging.level)
                (field (codes "debug") (bool c.logging.debug) end)))
            end))))
