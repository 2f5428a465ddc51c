-- ===== src/Gui.antt =====
-- internal/gui/gui.go: the window of the settings. The controls, the menus and the preview belong to
-- libraries: what a handler reads from them is an argument, and what it calls is a list of calls.
pub mod Making
pub mod Serving
pub mod Devices
pub mod Menu
pub mod Window
pub mod Tray
use smtc_now_playing.Prelude.{
  ℕ, zero, suc, ◌^◌, ◌+◌, Bool, true, false, Option, none, some, List, [], ◌∷◌, ◌++◌, Text, codes,
  ◌==◌, if◌then◌else◌,
}
use smtc_now_playing.Prelude.Tests.{ltb}
use smtc_now_playing.Prelude.Int.{ℤ, pos, negsuc}
use smtc_now_playing.Smtc.Types.{SessionInfo}
use smtc_now_playing.Config.{Config}
use smtc_now_playing.Updater.{Parsed, number, out_of_range, syntax_error, parse_uint}

-- `Gui`: the configuration, whether the server counts as started, whether there is a preview
-- (`webViewWin`) and a tray icon (`notifyIcon`).
pub record Gui : Type 0 where
  pub cfg : Config
  pub server_started : Bool
  pub preview : Bool
  pub tray : Bool

pub data Box : Type 0 where
  auto_start_box start_minimized_box show_preview_box on_top_box : Box

-- A row of the tray's menu with its id and label, and one of the list of devices.
pub record DeviceItem : Type 0 where
  pub position : ℕ
  pub id : ℕ
  pub label : Text
  pub checked : Bool

pub data Row : Type 0 where
  command : ℕ → Text → Row
  devices : Text → List DeviceItem → Row
  separator : Row

-- What the handlers call.
pub data Call : Type 0 where
  set_port_value : ℤ → Call
  set_port_text : Text → Call
  set_check : Box → Bool → Call
  enable_start : Bool → Call
  set_start_text : Text → Call
  set_info : Text → Call
  add_theme : Text → Call
  select_theme : ℕ → Call
  clear_devices : Call
  add_device : Text → Call
  select_device_item : ℕ → Call
  message_box : Call
  exit_process : ℕ → Call
  save : Config → Call
  set_theme : Text → Call
  select_device : Text → Call
  show_window hide_window focus_window destroy_window set_window_icons : Call
  add_tray restore_tray delete_tray set_tray_icon : Call
  set_tooltip : Text → Call
  subscribe : ℕ → Call
  watch_context : Call
  show_menu : List (ℕ × Row) → Call
  destroy_menu : Call
  open_preview : Text → Bool → Call
  close_preview process_queue : Call
  navigate : Text → Call
  set_topmost : Bool → Call

-- An address of a network interface, as `net.ParseCIDR` reads it.
pub data Interface : Type 0 where
  unparsed : Interface
  ipv6 : Interface
  ipv4 : Text → Interface

-- What a handler reads: the controls, the window, the server's sessions and address, the interfaces
-- (`none` for an error), the time in milliseconds, and whether a preview and the menus can be made.
pub record World : Type 0 where
  pub port_text : Text
  pub theme_text : Text
  pub auto_start : Bool
  pub start_minimized : Bool
  pub show_preview : Bool
  pub on_top : Bool
  pub device_index : ℤ
  pub window_visible : Bool
  pub sessions : List SessionInfo
  pub address : Text
  pub interfaces : Option (List Interface)
  pub now : ℕ
  pub preview_opens : Bool
  pub popup_made : Bool
  pub submenu_made : Bool
  pub cursor_known : Bool

-- A piece of a handler: the new state and the calls.
abbrev pub Act : Type 0
Act = Gui → Gui × List Call

infixl 5 ◌>>◌
abbrev pub ◌>>◌ : Act → Act → Act
◌>>◌ a b g = ((b (a g).0).0, (a g).1 ++ (b (a g).0).1)

abbrev pub nothing : Act
nothing g = (g, [])

abbrev pub call : Call → Act
call c g = (g, c ∷ [])

abbrev pub calls : List Call → Act
calls cs g = (g, cs)

abbrev pub change : (Gui → Gui) → Act
change f g = (f g, [])

abbrev pub reading : (Gui → Act) → Act
reading f g = f g g

abbrev pub when : Bool → Act → Act
when true a = a
when false a = nothing

-- `strconv.Atoi`, `none` for an error.
abbrev positive : Parsed → Option ℤ
positive (number n) = if ltb n (2 ^ 63) then some (pos n) else none
positive out_of_range = none
positive syntax_error = none

abbrev negative : Parsed → Option ℤ
negative (number zero) = some (pos 0)
negative (number (suc n)) = if ltb n (2 ^ 63) then some (negsuc n) else none
negative out_of_range = none
negative syntax_error = none

unfoldable pub checked_atoi : Text → Option ℤ
checked_atoi [] = none
checked_atoi (c ∷ s) =
    if c == b'-'
    then negative (parse_uint s)
    else if c == b'+'
    then positive (parse_uint s)
    else positive (parse_uint (c ∷ s))

-- The index that a loop over a list leaves in a variable which takes each index that passes a test.
unfoldable pub last_index {ℓ} : {A : Type ℓ} → (A → Bool) → ℕ → ℕ → List A → ℕ
last_index test i found [] = found
last_index test i found (x ∷ rest) = last_index test (suc i) (if test x then i else found) rest
