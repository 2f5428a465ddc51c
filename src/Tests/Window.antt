-- ===== src/Tests/Window.antt =====
-- The window, the tray icon and the preview at concrete inputs.
use smtc_now_playing.Prelude.{
  Option, true, false, none, some, List, [], ◌∷◌, ◌++◌, Text, All, codes, text_eq, ◌/◌, ◌%◌, ◌^◌,
  ◌≡◌, ◌≢◌, refl, arith,
}
use smtc_now_playing.Prelude.Int.{pos, negsuc}
use smtc_now_playing.Prelude.Decimal.{print_int, decimal}
use smtc_now_playing.Json.{fits_int64}
use smtc_now_playing.Config.{default_config}
use smtc_now_playing.Config.Reading.{load}
use smtc_now_playing.Config.Saving.{Disk}
use smtc_now_playing.Smtc.Types.{SessionInfo}
use smtc_now_playing.Server.Running.{http_address}
use smtc_now_playing.Gui.{
  Gui, World, last_index, unparsed, ipv6, ipv4, show_preview_box, clear_devices, select_device_item,
  select_device, save,
}
use smtc_now_playing.Gui.Serving.{addresses, synced}
use smtc_now_playing.Gui.Serving.Addresses.{local_urls, other_urls, addresses-http_address}
use smtc_now_playing.Gui.Devices.{
  add_devices, on_sessions_changed, on_device_changed, on_device_chosen,
}
use smtc_now_playing.Gui.Devices.Selection.{lists_agree}
use smtc_now_playing.Gui.Menu.{device_items}
use smtc_now_playing.Gui.Menu.Choices.{Chosen, device_items_choose}
use smtc_now_playing.Gui.Window.{
  Setup, Event, created, start_clicked, box_clicked, theme_chosen, device_chosen, window_destroyed,
  run, fill_controls,
}
use smtc_now_playing.Gui.Window.Keeping.{after}
use smtc_now_playing.Gui.Window.Previews.{IsSound, button_after, run-IsSound}
use smtc_now_playing.Gui.Window.Files.{Persisted, disk_after}
use smtc_now_playing.Gui.Window.Persistence.{run-Persisted}
use smtc_now_playing.Gui.Window.Filling.{synced-fill_controls}
use smtc_now_playing.Gui.Making.{new}
use smtc_now_playing.Gui.Tray.{
  Request, add_icon, modify_icon, delete_icon, new_notify_icon, add_after_explorer_crash,
}
use smtc_now_playing.Gui.Tray.Restoring.{
  Shown, Shell, shown_of, or_kept, tooltip_set, icon_set, settled, shown_after,
  add_after_explorer_crash-Shown,
}
use smtc_now_playing.Preview.{start_resize, l_param}
use smtc_now_playing.Preview.Resizing.{posted, coordinate, start_resize-coordinate}
use smtc_now_playing.Tests.{spotify}
use smtc_now_playing.Tests.Codec.{encode, decode, decode-encode}

abbrev player : SessionInfo
player = record { app_id = codes "vlc.exe"; name = codes "Vlc"; source_app_id = codes "vlc.exe" }

-- The controls of a window with the default settings but for the preview, whose box is checked.
abbrev world : World
world = record {
  port_text = codes "11451";
  theme_text = codes "default";
  auto_start = false;
  start_minimized = false;
  show_preview = true;
  on_top = true;
  device_index = pos 1;
  window_visible = true;
  sessions = spotify ∷ player ∷ [];
  address = codes ":11451";
  interfaces = some (ipv4 (codes "10.0.0.2") ∷ ipv6 ∷ unparsed ∷ ipv4 (codes "127.0.0.1") ∷ []);
  now = 5;
  preview_opens = true;
  popup_made = true;
  submenu_made = true;
  cursor_known = true;
}

abbrev plain_world : World
plain_world = record world { show_preview = false }

abbrev setup : Setup
setup = record {
  themes = some (codes "bare" ∷ codes "default" ∷ []);
  tray_made = true;
  module_found = true;
  icon_loaded = true;
  has_context = true;
}

abbrev gui : Gui
gui = (new default_config (codes "1.0") none none).gui

abbrev events : List (World × Event)
events =
    (plain_world, created setup)
    ∷ (world, start_clicked)
    ∷ (world, device_chosen)
    ∷ (world, theme_chosen)
    ∷ (plain_world, box_clicked show_preview_box)
    ∷ (plain_world, window_destroyed)
    ∷ []

gui-IsSound : IsSound gui (codes "&Start")
unfolding new
gui-IsSound = record { previewed = (λ h. cc); labelled = refl }

listed : world.interfaces ≢ none
listed h = cc

events_listed : All (λ we. we.0.interfaces ≢ none) events
events_listed = (listed, (listed, (listed, (listed, (listed, (listed, tt))))))

run-IsSound_example :
    IsSound (run events gui).0 (after button_after (codes "&Start") (run events gui).1)
run-IsSound_example = run-IsSound events gui (codes "&Start") gui-IsSound events_listed

abbrev no_file : Disk
no_file = record { target = none; temp = none }

gui-Persisted : Persisted encode decode gui no_file
unfolding new load
gui-Persisted v = refl

run-Persisted_example :
    Persisted encode decode
      (run events gui).0
      (after (disk_after encode decode) no_file (run events gui).1)
run-Persisted_example = run-Persisted encode decode decode-encode events gui no_file gui-Persisted

-- The window's configuration with the second session's device.
abbrev second : Gui
second = record gui {
  cfg = record default_config { smtc = record { selected_device = codes "vlc.exe" } };
}

lists_agree_example :
    (on_sessions_changed world second
      ≡ (second, clear_devices ∷ (add_devices world.sessions ++ select_device_item 1 ∷ [])))
    × (on_device_changed world second ≡ (second, select_device_item 1 ∷ []))
    × (on_device_chosen (record world { device_index = pos 1 }) second
        ≡ (second, select_device (codes "vlc.exe") ∷ save second.cfg ∷ []))
unfolding text_eq
lists_agree_example = lists_agree world second 1 player ((refl, tt), (tt, tt)) refl refl

device_items_choose_example :
    All (Chosen world second) (device_items (codes "vlc.exe") 0 world.sessions)
device_items_choose_example = device_items_choose world second (omega arith)

abbrev themes : List Text
themes = codes "bare" ∷ codes "default" ∷ []

default_port_fits : fits_int64 default_config.server.port ≡ true
unfolding default_config fits_int64
default_port_fits = ground arith

synced-fill_controls_example : synced plain_world default_config ≡ default_config
unfolding default_config fill_controls print_int decimal last_index text_eq
synced-fill_controls_example =
    synced-fill_controls plain_world default_config themes 1 default_port_fits refl
      (tt, (refl, (refl, (refl, (refl, (refl, (tt, tt))))))) refl

addresses-http_address_example :
    addresses world
    ≡ some (
        local_urls
          (codes "11451")
          (ipv4 (codes "10.0.0.2") ∷ ipv6 ∷ unparsed ∷ ipv4 (codes "127.0.0.1") ∷ [])
        ++ other_urls
            (codes "11451")
            (ipv4 (codes "10.0.0.2") ∷ ipv6 ∷ unparsed ∷ ipv4 (codes "127.0.0.1") ∷ []))
unfolding default_config http_address print_int decimal
addresses-http_address_example =
    addresses-http_address world default_config
      (ipv4 (codes "10.0.0.2") ∷ ipv6 ∷ unparsed ∷ ipv4 (codes "127.0.0.1") ∷ []) refl refl

-- A shell that keeps one icon.
abbrev shell_apply : Request → Option Shown → Option Shown
shell_apply (add_icon d) none = some (shown_of d)
shell_apply (add_icon d) (some s) = some s
shell_apply (modify_icon d) none = none
shell_apply (modify_icon d) (some s) =
    some (record s { icon = or_kept s.icon d.icon; tip = or_kept s.tip d.tip })
shell_apply (delete_icon d) o = none

abbrev shell : Shell
shell = record { apply = shell_apply; adds = (λ d. refl); modifies = (λ d s. refl) }

add_after_explorer_crash-Shown_example :
    let settings = tooltip_set (codes "Smtc Now Playing") ∷ icon_set 7 ∷ [] in
    shell.apply
      (add_after_explorer_crash (settled settings (new_notify_icon 3 (1 ∷ 2 ∷ [])).0))
      none
    ≡ shown_after shell settings
        (new_notify_icon 3 (1 ∷ 2 ∷ [])).0
        (shell.apply (new_notify_icon 3 (1 ∷ 2 ∷ [])).1 none)
add_after_explorer_crash-Shown_example =
    add_after_explorer_crash-Shown shell 3 (1 ∷ 2 ∷ [])
      (tooltip_set (codes "Smtc Now Playing") ∷ icon_set 7 ∷ [])

start_resize-coordinate_example :
    (start_resize (pos 13) (negsuc 4) (pos 20) (record { web_view_win = some 9 })
      ≡ posted (pos 13) (negsuc 4) (pos 20))
    × (coordinate (l_param (negsuc 4) (pos 20) % 2 ^ 16) ≡ negsuc 4)
    × (coordinate (l_param (negsuc 4) (pos 20) / 2 ^ 16 % 2 ^ 16) ≡ pos 20)
start_resize-coordinate_example =
    start_resize-coordinate (pos 13) (negsuc 4) (pos 20) 9 (omega arith, omega arith)
      (omega arith, omega arith) (omega arith, omega arith)
