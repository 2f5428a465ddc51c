-- ===== src/Gui/Devices.antt =====
-- internal/gui/gui.go: the list of devices in the window.
pub mod Selection
use smtc_now_playing.Prelude.{
  ℕ, zero, suc, ◌+◌, Bool, true, false, Option, none, some, List, [], ◌∷◌, Text, text_eq, get_elem?,
  if◌then◌else◌,
}
use smtc_now_playing.Prelude.Int.{ℤ, pos, negsuc}
use smtc_now_playing.Smtc.Types.{SessionInfo}
use smtc_now_playing.Config.{SmtcConfig}
use smtc_now_playing.Gui.{
  Gui, Call, World, Act, ◌>>◌, nothing, call, calls, change, reading, last_index, clear_devices,
  add_device, select_device_item, select_device,
}
use smtc_now_playing.Gui.Serving.{save_config}

-- The index that the loop over the sessions leaves in `selectedIdx`.
abbrev pub selected_index : Text → List SessionInfo → ℕ
selected_index device sessions = last_index (λ s. text_eq s.app_id device) 0 0 sessions

abbrev pub add_devices : List SessionInfo → List Call
add_devices [] = []
add_devices (s ∷ rest) = add_device s.name ∷ add_devices rest

abbrev pub select_if_any : Text → List SessionInfo → List Call
select_if_any device [] = []
select_if_any device (s ∷ rest) = select_device_item (selected_index device (s ∷ rest)) ∷ []

-- The handler of `wmSessionsChanged`.
unfoldable pub on_sessions_changed : World → Act
on_sessions_changed w = reading λ g. do
  call clear_devices
  calls (add_devices w.sessions)
  calls (select_if_any g.cfg.smtc.selected_device w.sessions)

-- The handler of `wmDeviceChanged`: the loop ends at the first session of the device.
unfoldable pub select_first : Text → ℕ → List SessionInfo → List Call
select_first device i [] = []
select_first device i (s ∷ rest) =
    let later = select_first device (suc i) rest in
    if text_eq s.app_id device then select_device_item i ∷ [] else later

unfoldable pub on_device_changed : World → Act
on_device_changed w = reading λ g. calls (select_first g.cfg.smtc.selected_device 0 w.sessions)

-- `idx >= 0 && idx < len(sessions)`, with the session there.
abbrev pub session_at : List SessionInfo → ℤ → Option SessionInfo
session_at sessions (pos i) = get_elem? sessions i
session_at sessions (negsuc i) = none

abbrev pub choose_session : Option SessionInfo → Act
choose_session none = nothing
choose_session (some s) = do
  call (select_device s.app_id)
  change (λ g. record g { cfg = record g.cfg { smtc = record { selected_device = s.app_id } } })
  save_config

-- The handler of a choice in the list.
unfoldable pub on_device_chosen : World → Act
on_device_chosen w = choose_session (session_at w.sessions w.device_index)
