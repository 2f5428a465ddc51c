-- ===== src/Gui/Making.antt =====
-- internal/gui/gui.go: how the window and its controls are made. Positions and sizes are in units of
-- 96 dots per inch, for an English locale.
use smtc_now_playing.Prelude.{
  ℕ, Bool, true, false, Option, none, some, List, [], ◌∷◌, ◌++◌, Text, codes,
}
use smtc_now_playing.Config.{Config}
use smtc_now_playing.Updater.{UpdateInfo, Checked, checked, failed, panicked}
use smtc_now_playing.Gui.{Gui}

-- The kinds of the controls, with what their options say.
pub data Kind : Type 0 where
  static : Kind
  number_edit : Kind
  up_down : ℕ → ℕ → ℕ → Kind  -- the range and the value
  combo_box button check_box read_only_edit : Kind

pub record Control : Type 0 where
  pub kind : Kind
  pub text : Text
  pub x : ℕ
  pub y : ℕ
  pub width : Option ℕ
  pub height : Option ℕ

abbrev pub plain : Kind → Text → ℕ → ℕ → Control
plain kind text x y = record { kind = kind; text = text; x = x; y = y; width = none; height = none }

abbrev pub wide : ℕ → Control → Control
wide w c = record c { width = some w }

-- The controls in the order in which `New` makes them.
unfoldable pub controls : List Control
controls =
    plain static (codes "Port") 10 22
    ∷ wide 80 (plain number_edit (codes "11451") 40 20)
    ∷ plain (up_down 1024 32767 11451) [] 120 20
    ∷ plain static (codes "Theme") 130 22
    ∷ wide 80 (plain combo_box [] 180 20)
    ∷ plain static (codes "Device") 10 47
    ∷ wide 300 (plain combo_box [] 60 45)
    ∷ plain button (codes "&Start") 270 19
    ∷ plain check_box (codes "Auto start server") 10 75
    ∷ plain check_box (codes "Start minimized") 10 95
    ∷ plain check_box (codes "Show preview") 10 115
    ∷ plain check_box (codes "Preview always on top") 10 135
    ∷ record (plain read_only_edit [] 10 165) { width = some 350; height = some 100 }
    ∷ []

-- The options of the window.
pub record WindowOptions : Type 0 where
  pub title : Text
  pub hidden : Bool
  pub width : ℕ
  pub height : ℕ

unfoldable pub window_options : Config → Text → WindowOptions
window_options c version = record {
  title = codes "SMTC Now Playing v" ++ version;
  hidden = c.ui.start_minimized;
  width = 370;
  height = 285;
}

-- The path of the file, empty if it cannot be resolved, and the message of the taskbar, 0 if it cannot
-- be registered.
abbrev pub or_no_path : Option Text → Text
or_no_path none = []
or_no_path (some p) = p

abbrev pub or_zero : Option ℕ → ℕ
or_zero none = 0
or_zero (some m) = m

pub record Made : Type 0 where
  pub gui : Gui
  pub cfg_path : Text
  pub msg_taskbar_created : ℕ
  pub window : WindowOptions

-- `New`.
unfoldable pub new : Config → Text → Option Text → Option ℕ → Made
new c version path msg = record {
  gui = record { cfg = c; server_started = false; preview = false; tray = false };
  cfg_path = or_no_path path;
  msg_taskbar_created = or_zero msg;
  window = window_options c version;
}

-- What the goroutine that checks for updates logs.
pub data LogLine : Type 0 where
  update_check_failed : LogLine
  update_available : Text → Text → LogLine

abbrev available_line : UpdateInfo → Bool → List LogLine
available_line info true = update_available info.version info.url ∷ []
available_line info false = []

-- A panic there ends the program.
unfoldable pub log_update : Checked → Option (List LogLine)
log_update (checked info) = some (available_line info info.available)
log_update (failed e) = some (update_check_failed ∷ [])
log_update panicked = none
