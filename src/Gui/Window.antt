-- ===== src/Gui/Window.antt =====
-- internal/gui/gui.go: the handlers of the window's messages and of the controls.
pub mod Keeping
pub mod Previews
pub mod Files
pub mod Quiet
pub mod Persistence
pub mod Filling
use smtc_now_playing.Prelude.{
  ℕ, zero, suc, Bool, true, false, Option, none, some, List, [], ◌∷◌, ◌++◌, Text, codes, text_eq,
  if◌then◌else◌,
}
use smtc_now_playing.Prelude.Int.{ℤ}
use smtc_now_playing.Prelude.Decimal.{print_int}
use smtc_now_playing.Smtc.Types as Smtc
use smtc_now_playing.Config.{Config, UiConfig}
use smtc_now_playing.Gui.{
  Gui, Box, auto_start_box, start_minimized_box, show_preview_box, on_top_box, Call, World, Act,
  ◌>>◌, nothing, call, calls, change, reading, when, last_index, set_port_value, set_port_text,
  set_check, enable_start, add_theme, select_theme, message_box, exit_process, set_theme,
  show_window, hide_window, focus_window, set_window_icons, add_tray, restore_tray, delete_tray,
  set_tray_icon, set_tooltip, subscribe, watch_context, process_queue, navigate,
}
use smtc_now_playing.Gui.Serving.{
  sync_config, save_config, preview_url, update_web_view_always_on_top, create_web_view,
  destroy_web_view, on_destroy, toggle,
}
use smtc_now_playing.Gui.Devices.{on_sessions_changed, on_device_changed, on_device_chosen}
use smtc_now_playing.Gui.Menu.{on_menu, show_or_hide, on_answer}

-- What the system answers while the window is made: the themes (`none` for an error), and whether
-- there are the tray icon, the handle of the module and its icon.
pub record Setup : Type 0 where
  pub themes : Option (List Text)
  pub tray_made : Bool
  pub module_found : Bool
  pub icon_loaded : Bool
  pub has_context : Bool

-- The controls as the configuration has them.
unfoldable pub fill_controls : Config → List Call
fill_controls c =
    set_port_value c.server.port
    ∷ set_port_text (print_int c.server.port)
    ∷ set_check auto_start_box c.ui.auto_start
    ∷ set_check start_minimized_box c.ui.start_minimized
    ∷ set_check show_preview_box c.ui.show_preview_window
    ∷ set_check on_top_box c.ui.preview_always_on_top
    ∷ enable_start true
    ∷ []

-- The loop over the themes leaves the index of the configured one in `toSelect`.
abbrev pub theme_index : Text → List Text → ℕ
theme_index theme themes = last_index (λ t. text_eq t theme) 0 0 themes

abbrev pub add_themes : List Text → List Call
add_themes [] = []
add_themes (t ∷ rest) = add_theme t ∷ add_themes rest

unfoldable pub fill_themes : Text → List Text → List Call
fill_themes theme themes = add_themes themes ++ select_theme (theme_index theme themes) ∷ []

abbrev pub auto_click : World → Act
auto_click w = reading λ g. when g.cfg.ui.auto_start (toggle w g.server_started)

-- From the icon on: the subscription of the bridge, and the click that starts the server.
abbrev before_click : Setup → Act
before_click s = do
  when s.icon_loaded (calls (set_tray_icon ∷ set_window_icons ∷ []))
  call (subscribe 16)
  when s.has_context (call watch_context)

abbrev after_icon : World → Setup → Act
after_icon w s = before_click s >> auto_click w

abbrev with_module : World → Setup → Bool → Act
with_module w s false = calls (message_box ∷ exit_process 1 ∷ [])
with_module w s true = after_icon w s

abbrev with_tray : World → Setup → Bool → Act
with_tray w s false = calls (message_box ∷ exit_process 1 ∷ [])
with_tray w s true = do
  call add_tray
  change (λ g. record g { tray = true })
  call (set_tooltip (codes "Smtc Now Playing"))
  with_module w s s.module_found

abbrev with_themes : World → Setup → Option (List Text) → Act
with_themes w s none = call message_box
with_themes w s (some themes) = do
  reading (λ g. calls (fill_themes g.cfg.ui.theme themes))
  with_tray w s s.tray_made

-- `WmCreate`. The world is that of the click, when the controls are filled.
unfoldable pub on_create : World → Setup → Act
on_create w s = do reading (λ g. calls (fill_controls g.cfg)); with_themes w s s.themes

-- `WmDestroy`.
unfoldable pub on_window_destroyed : Act
on_window_destroyed = do
  reading (λ g. when g.tray (call delete_tray >> change (λ h. record h { tray = false })))
  destroy_web_view

-- A choice in the list of themes: while the server counts as started, it is told and saved, and a
-- preview is loaded again.
abbrev theme_started : World → Bool → Act
theme_started w false = nothing
theme_started w true = do
  call (set_theme w.theme_text)
  change (λ g. record g { cfg = record g.cfg { ui = record g.cfg.ui { theme = w.theme_text } } })
  save_config
  reading (λ g. when g.preview (call (navigate (preview_url w))))

unfoldable pub on_theme_chosen : World → Act
on_theme_chosen w = reading λ g. theme_started w g.server_started

abbrev preview_box : World → Bool → Act
preview_box w false = nothing
preview_box w true = if w.show_preview then create_web_view w else destroy_web_view

unfoldable pub on_box : World → Box → Act
on_box w auto_start_box = sync_config w >> save_config
on_box w start_minimized_box = sync_config w >> save_config
on_box w show_preview_box = do
  sync_config w
  save_config
  reading (λ g. preview_box w g.server_started)
on_box w on_top_box = do sync_config w; save_config; update_web_view_always_on_top w

-- What the window is told, with what the system reports at it.
pub data Event : Type 0 where
  created : Setup → Event
  taskbar_created tray_double_clicked tray_clicked minimized window_destroyed : Event
  menu_answered : Bool → Bool → Option ℕ → Event
  theme_chosen device_chosen start_clicked : Event
  box_clicked : Box → Event
  queue_posted sessions_posted device_posted preview_destroyed : Event

unfoldable pub handle : World → Event → Act
handle w (created s) = on_create w s
handle w taskbar_created = reading λ g. when g.tray (call restore_tray)
handle w tray_double_clicked = show_or_hide w.window_visible
handle w tray_clicked = on_menu w
handle w minimized = call hide_window
handle w window_destroyed = on_window_destroyed
handle w (menu_answered visible running res) = on_answer w visible running res
handle w theme_chosen = on_theme_chosen w
handle w device_chosen = on_device_chosen w
handle w start_clicked = reading λ g. toggle w g.server_started
handle w (box_clicked b) = on_box w b
handle w queue_posted = reading λ g. when g.preview (call process_queue)
handle w sessions_posted = on_sessions_changed w
handle w device_posted = on_device_changed w
handle w preview_destroyed = on_destroy

-- Events in the order in which the window's loop takes them, each with what is read at it.
unfoldable pub run : List (World × Event) → Act
run [] = nothing
run ((w, e) ∷ rest) = handle w e >> run rest

-- The goroutine that posts the service's events as messages.
unfoldable pub bridge : Smtc.Event → Option Event
bridge (Smtc.info_event d) = none
bridge (Smtc.progress_event d) = none
bridge (Smtc.sessions_changed_event l) = some sessions_posted
bridge (Smtc.device_changed_event id) = some device_posted
