-- ===== src/Gui/Tray.antt =====
-- internal/gui/systray.go: the tray icon. The shell is asked by requests; it is not modelled here.
pub mod Restoring
use smtc_now_playing.Prelude.{
  ℕ, zero, suc, Bool, true, false, not, Option, none, some, List, [], ◌∷◌, Text, ◌==◌,
  if◌then◌else◌,
}

-- The message of the icon's events, WM_APP + 1.
abbrev pub notify_icon_msg : ℕ
notify_icon_msg = 0x8001

pub record NotifyIcon : Type 0 where
  pub hwnd : ℕ
  pub guid : Text
  pub h_icon : ℕ
  pub tooltip : Text

-- `NOTIFYICONDATA`: a member is `none` unless its flag is set. `user_icon` stands for the flags
-- NIIF_USER and NIIF_LARGE_ICON of a notification.
pub record IconData : Type 0 where
  pub hwnd : ℕ
  pub guid : Text
  pub callback : Option ℕ
  pub icon : Option ℕ
  pub tip : Option Text
  pub info : Option (Text × Text)
  pub user_icon : Bool

pub data Request : Type 0 where
  add_icon modify_icon delete_icon : IconData → Request

unfoldable pub new_data : NotifyIcon → IconData
new_data ni = record {
  hwnd = ni.hwnd;
  guid = ni.guid;
  callback = none;
  icon = none;
  tip = none;
  info = none;
  user_icon = false;
}

-- `NewNotifyIcon`, the icon and the request, whose error is the caller's.
unfoldable pub new_notify_icon : ℕ → Text → NotifyIcon × Request
new_notify_icon hwnd guid =
    let ni : NotifyIcon = record { hwnd = hwnd; guid = guid; h_icon = 0; tooltip = [] } in
    (ni, add_icon (record (new_data ni) { callback = some notify_icon_msg }))

abbrev pub icon_if_set : ℕ → Option ℕ
icon_if_set zero = none
icon_if_set (suc n) = some (suc n)

abbrev pub tip_if_set : Text → Option Text
tip_if_set [] = none
tip_if_set (c ∷ s) = some (c ∷ s)

unfoldable pub add_after_explorer_crash : NotifyIcon → Request
add_after_explorer_crash ni = add_icon (record (new_data ni) {
  callback = some notify_icon_msg;
  icon = icon_if_set ni.h_icon;
  tip = tip_if_set ni.tooltip;
})

unfoldable pub dispose : NotifyIcon → Request
dispose ni = delete_icon (new_data ni)

-- The setters keep the value whether the shell takes it or not.
unfoldable pub set_tooltip : Text → NotifyIcon → NotifyIcon × Request
set_tooltip tooltip ni =
    (record ni { tooltip = tooltip }, modify_icon (record (new_data ni) { tip = some tooltip }))

unfoldable pub set_icon : ℕ → NotifyIcon → NotifyIcon × Request
set_icon h_icon ni =
    (record ni { h_icon = h_icon }, modify_icon (record (new_data ni) { icon = some h_icon }))

unfoldable pub show_notification : Text → Text → NotifyIcon → Request
show_notification title text ni = modify_icon (record (new_data ni) { info = some (title, text) })

unfoldable pub show_notification_with_icon : Text → Text → ℕ → NotifyIcon → Request
show_notification_with_icon title text h_icon ni =
    modify_icon (record (new_data ni) { info = some (title, text); user_icon = true })
