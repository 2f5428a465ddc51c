-- ===== src/Gui/Menu.antt =====
-- internal/gui/gui.go: the menu of the tray icon, and what its rows do.
pub mod Choices
use smtc_now_playing.Prelude.{
  ℕ, zero, suc, ◌+◌, ◌-◌, ◌%◌, ◌^◌, Bool, true, false, Option, none, some, List, [], ◌∷◌, ◌++◌,
  Text, codes, text_eq, get_elem?, ◌==◌, ◌&&◌, ◌||◌, if◌then◌else◌,
}
use smtc_now_playing.Prelude.Tests.{leb}
use smtc_now_playing.Smtc.Types.{SessionInfo}
use smtc_now_playing.Gui.{
  Gui, DeviceItem, Row, command, devices, separator, Call, World, Act, ◌>>◌, nothing, call, reading,
  show_menu, destroy_menu, show_window, hide_window, focus_window, destroy_window,
}
use smtc_now_playing.Gui.Serving.{toggle}
use smtc_now_playing.Gui.Devices.{choose_session}

abbrev pub menu_show_hide : ℕ
menu_show_hide = 1001

abbrev pub menu_start_stop : ℕ
menu_start_stop = 1002

abbrev pub menu_exit : ℕ
menu_exit = 1003

abbrev pub menu_device_base : ℕ
menu_device_base = 2001

-- `syscall.UTF16PtrFromString` refuses a text with a zero in it.
abbrev pub has_nul : Text → Bool
has_nul [] = false
has_nul (c ∷ s) = (c == 0) || has_nul s

-- The rows of the devices: a session whose name cannot be converted is left out.
unfoldable pub device_items : Text → ℕ → List SessionInfo → List DeviceItem
device_items current i [] = []
device_items current i (s ∷ rest) =
    let later = device_items current (suc i) rest in
    let item : DeviceItem = record {
      position = i;
      id = (menu_device_base + i) % 2 ^ 32;
      label = s.name;
      checked = text_eq s.app_id current || (text_eq current [] && (i == 0));
    } in
    if has_nul s.name then later else item ∷ later

abbrev pub device_rows : Text → Bool → Bool → List SessionInfo → List (ℕ × Row)
device_rows current true true (s ∷ rest) =
    (2, devices (codes "&Device") (device_items current 0 (s ∷ rest))) ∷ []
device_rows current _ _ _ = []

abbrev pub show_hide_label : Bool → Text
show_hide_label true = codes "Hide &Window"
show_hide_label false = codes "Show &Window"

abbrev pub start_stop_label : Bool → Text
start_stop_label true = codes "Stop &Server"
start_stop_label false = codes "Start &Server"

abbrev last_rows : List (ℕ × Row) → List (ℕ × Row)
last_rows [] = (2, separator) ∷ (3, command menu_exit (codes "E&xit")) ∷ []
last_rows (r ∷ rs) = (r ∷ rs) ++ ((3, separator) ∷ (4, command menu_exit (codes "E&xit")) ∷ [])

-- The rows with the positions at which they are inserted.
unfoldable pub menu_rows : World → Gui → List (ℕ × Row)
menu_rows w g =
    (0, command menu_show_hide (show_hide_label w.window_visible))
    ∷ (1, command menu_start_stop (start_stop_label g.server_started))
    ∷ last_rows (device_rows g.cfg.smtc.selected_device g.server_started w.submenu_made w.sessions)

abbrev pub shown_menu : World → Bool → Bool → Act
shown_menu w false _ = nothing
shown_menu w true false = call destroy_menu
shown_menu w true true = reading λ g. call (show_menu (menu_rows w g))

-- The right click on the icon, up to the wait for the user.
unfoldable pub on_menu : World → Act
on_menu w = shown_menu w w.popup_made w.cursor_known

abbrev pub show_or_hide : Bool → Act
show_or_hide true = call hide_window
show_or_hide false = call show_window >> call focus_window

-- What the row with the id does. The sessions are those of this moment; `visible` and `running` are
-- those of the moment when the menu was made.
unfoldable pub on_row : World → Bool → Bool → ℕ → Act
on_row w visible running id =
    if id == menu_show_hide
    then show_or_hide visible
    else if id == menu_start_stop
    then toggle w running
    else if id == menu_exit
    then call destroy_window
    else if leb menu_device_base id
    then choose_session (get_elem? w.sessions (id - menu_device_base))
    else nothing

abbrev pub on_answer : World → Bool → Bool → Option ℕ → Act
on_answer w visible running none = call destroy_menu
on_answer w visible running (some id) = on_row w visible running id >> call destroy_menu
