-- ===== src/Gui/Window/Persistence.antt =====
-- What the window's handlers keep on disk.
use smtc_now_playing.Prelude.{
  ℕ, ◌-◌, ◌==◌, Bool, true, false, Option, none, some, List, [], ◌∷◌, Text, get_elem?, ◌≡◌, refl,
  arith, All, ◌∙◌,
}
use smtc_now_playing.Json.{Json}
use smtc_now_playing.Config.{Config, validate, config_json}
use smtc_now_playing.Config.Saving.{Disk}
use smtc_now_playing.Gui.{
  Gui, Box, auto_start_box, start_minimized_box, show_preview_box, on_top_box, Call,
  save as saved_call, World, Act, ◌>>◌, call, calls, reading, when, destroy_menu,
}
use smtc_now_playing.Smtc.Types.{SessionInfo}
use smtc_now_playing.Gui.Serving.{
  update_web_view_always_on_top, create_web_view, destroy_web_view, on_destroy, start_web_server,
  stop_web_server, sync_config, save_config, toggle,
}
use smtc_now_playing.Gui.Devices.{
  add_devices, select_if_any, on_sessions_changed, on_device_changed, choose_session,
  on_device_chosen, session_at,
}
use smtc_now_playing.Gui.Menu.{on_menu, on_row, on_answer}
use smtc_now_playing.Gui.Window.{
  Event, created, taskbar_created, tray_double_clicked, tray_clicked, minimized, window_destroyed,
  menu_answered, theme_chosen, device_chosen, start_clicked, box_clicked, queue_posted,
  sessions_posted, device_posted, preview_destroyed, handle, run, on_box, on_window_destroyed,
  on_theme_chosen, theme_started, on_create, Setup, auto_click, after_icon, before_click,
  with_module, with_tray, fill_themes, with_themes, fill_controls,
}
use smtc_now_playing.Gui.Window.Files.{Persisted, disk_after, save-Persisted}
use smtc_now_playing.Gui.Window.Keeping.{after, after-append, Keeps, Keeps->>, Keeps-run}
use smtc_now_playing.Prelude.{inl, inr}
use smtc_now_playing.Prelude.Tests.{leb, Bool-cases}
use smtc_now_playing.Gui.Window.Quiet.{
  add_devices-quiet, select_first-quiet, select_if_any-quiet, fill_themes-quiet,
}

module _ (encode : Json → Text) (decode : Text → Option Json)
    (decode-encode : (c : Config)
      → validate c ≡ none
      → decode (encode (config_json c)) ≡ some (config_json c)) where
  abbrev follow : Disk → Call → Disk
  follow = disk_after encode decode

  abbrev Known : Gui → Disk → Type 0
  Known = Persisted encode decode

  abbrev KeepsDisk : Act → Type 0
  KeepsDisk = Keeps follow Known

  -- What is known depends on the configuration and the files alone.
  same-Persisted : (g g' : Gui) (d d' : Disk) → g'.cfg ≡ g.cfg → d' ≡ d → Known g d → Known g' d'
  same-Persisted g g' d d' same_cfg same_disk p = rw (same_cfg, same_disk) p

  -- So an act that changes neither keeps it, and so does one that saves what it leaves.
  quiet-Persisted :
      (a : Act)
      → ((g : Gui) (d : Disk) → ((a g).0.cfg ≡ g.cfg) × (after follow d (a g).1 ≡ d))
      → KeepsDisk a
  quiet-Persisted a quiet g d p =
      same-Persisted g (a g).0 d (after follow d (a g).1) (quiet g d).0 (quiet g d).1 p

  saving-Persisted :
      (a : Act)
      → ((g : Gui) (d : Disk) → after follow d (a g).1 ≡ follow d (saved_call (a g).0.cfg))
      → KeepsDisk a
  saving-Persisted a saves g d p =
      rw (saves g d) (save-Persisted encode decode decode-encode (a g).0 d)

  start_web_server-Persisted : (w : World) → KeepsDisk (start_web_server w)
  unfolding start_web_server create_web_view update_web_view_always_on_top
  start_web_server-Persisted w =
      quiet-Persisted (start_web_server w) (λ g d. (ground arith, ground arith))

  stop_web_server-Persisted : KeepsDisk stop_web_server
  unfolding stop_web_server destroy_web_view
  stop_web_server-Persisted = quiet-Persisted stop_web_server (λ g d. (ground arith, ground arith))

  sync-Persisted : (w : World) → KeepsDisk (sync_config w >> save_config)
  sync-Persisted w = saving-Persisted (sync_config w >> save_config) (λ g d. refl)

  toggle-Persisted : (w : World) (running : Bool) → KeepsDisk (toggle w running)
  toggle-Persisted w true g d p = stop_web_server-Persisted g d p
  toggle-Persisted w false g d p =
      Keeps->> follow Known (sync_config w >> save_config) (start_web_server w) (sync-Persisted w)
        (start_web_server-Persisted w) g d p

  on_box-Persisted : (w : World) (b : Box) → KeepsDisk (on_box w b)
  unfolding on_box create_web_view destroy_web_view update_web_view_always_on_top
  on_box-Persisted w auto_start_box = saving-Persisted (on_box w auto_start_box) (λ g d. refl)
  on_box-Persisted w start_minimized_box =
      saving-Persisted (on_box w start_minimized_box) (λ g d. refl)
  on_box-Persisted w show_preview_box =
      saving-Persisted (on_box w show_preview_box) (λ g d. ground arith)
  on_box-Persisted w on_top_box = saving-Persisted (on_box w on_top_box) (λ g d. ground arith)

  choose_session-Persisted : (o : Option SessionInfo) → KeepsDisk (choose_session o)
  choose_session-Persisted none g d p = p
  choose_session-Persisted (some s) g d p =
      saving-Persisted (choose_session (some s)) (λ h e. refl) g d p

  theme_started-Persisted : (w : World) (b : Bool) → KeepsDisk (theme_started w b)
  theme_started-Persisted w false g d p = p
  theme_started-Persisted w true g d p =
      saving-Persisted (theme_started w true) (λ h e. ground arith) g d p

  on_theme_chosen-Persisted : (w : World) → KeepsDisk (on_theme_chosen w)
  unfolding on_theme_chosen
  on_theme_chosen-Persisted w g d p = theme_started-Persisted w g.server_started g d p

  on_sessions_changed-Persisted : (w : World) → KeepsDisk (on_sessions_changed w)
  unfolding on_sessions_changed
  on_sessions_changed-Persisted w = quiet-Persisted (on_sessions_changed w) λ g d. (
    refl,
    (after-append follow d (add_devices w.sessions)
          (select_if_any g.cfg.smtc.selected_device w.sessions)
        ∙ select_if_any-quiet encode decode g.cfg.smtc.selected_device w.sessions
            (after follow d (add_devices w.sessions))
        ∙ add_devices-quiet encode decode w.sessions d),
  )

  on_row-Persisted :
      (w : World) (visible running : Bool) (id : ℕ) → KeepsDisk (on_row w visible running id)
  unfolding on_row
  on_row-Persisted w visible running id g d p = elim (Bool-cases (id == 1001)) [
    | inl e ↦ rw e (ground (arith, p))
    | inr e ↦ elim (Bool-cases (id == 1002)) [
      | inl e2 ↦ rw (e, e2) (toggle-Persisted w running g d p)
      | inr e2 ↦ elim (Bool-cases (id == 1003)) [
        | inl e3 ↦ rw (e, e2, e3) p
        | inr e3 ↦ elim (Bool-cases (leb 2001 id)) [
          | inl e4 ↦
              rw (e, e2, e3, e4) (choose_session-Persisted (get_elem? w.sessions (id - 2001)) g d p)
          | inr e4 ↦ rw (e, e2, e3, e4) p
        ]
      ]
    ]
  ]

  on_answer-Persisted :
      (w : World) (visible running : Bool) (res : Option ℕ)
      → KeepsDisk (on_answer w visible running res)
  on_answer-Persisted w visible running none g d p = p
  on_answer-Persisted w visible running (some id) g d p =
      Keeps->> follow Known (on_row w visible running id) (call destroy_menu)
        (on_row-Persisted w visible running id) (λ h e q. q) g d p

  when-Persisted : (b : Bool) (a : Act) → KeepsDisk a → KeepsDisk (when b a)
  when-Persisted false a h g d p = p
  when-Persisted true a h g d p = h g d p

  after_icon-Persisted : (w : World) (st : Setup) → KeepsDisk (after_icon w st)
  after_icon-Persisted w st =
      Keeps->> follow Known (before_click st) (auto_click w)
        (quiet-Persisted (before_click st) (λ g d. (ground arith, ground arith)))
        (λ g d.
          when-Persisted g.cfg.ui.auto_start (toggle w g.server_started)
            (toggle-Persisted w g.server_started) g d)

  with_module-Persisted : (w : World) (st : Setup) (b : Bool) → KeepsDisk (with_module w st b)
  with_module-Persisted w st false g d p = p
  with_module-Persisted w st true g d p = after_icon-Persisted w st g d p

  with_tray-Persisted : (w : World) (st : Setup) (b : Bool) → KeepsDisk (with_tray w st b)
  with_tray-Persisted w st false g d p = p
  with_tray-Persisted w st true g d p =
      with_module-Persisted w st st.module_found (record g { tray = true }) d p

  with_themes-Persisted :
      (w : World) (st : Setup) (l : Option (List Text)) → KeepsDisk (with_themes w st l)
  with_themes-Persisted w st none g d p = p
  with_themes-Persisted w st (some l) g d p =
      Keeps->> follow Known (reading (λ h. calls (fill_themes h.cfg.ui.theme l)))
        (with_tray w st st.tray_made)
        (quiet-Persisted (reading (λ h. calls (fill_themes h.cfg.ui.theme l)))
          (λ h e. (refl, fill_themes-quiet encode decode h.cfg.ui.theme l e)))
        (with_tray-Persisted w st st.tray_made) g d p

  on_create-Persisted : (w : World) (st : Setup) → KeepsDisk (on_create w st)
  unfolding on_create fill_controls
  on_create-Persisted w st =
      Keeps->> follow Known (reading (λ g. calls (fill_controls g.cfg)))
        (with_themes w st st.themes) (λ g d p. p) (with_themes-Persisted w st st.themes)

  on_menu-Persisted : (w : World) → KeepsDisk (on_menu w)
  unfolding on_menu
  on_menu-Persisted w = quiet-Persisted (on_menu w) (λ g d. (ground arith, ground arith))

  on_window_destroyed-Persisted : KeepsDisk on_window_destroyed
  unfolding on_window_destroyed destroy_web_view
  on_window_destroyed-Persisted =
      quiet-Persisted on_window_destroyed (λ g d. (ground arith, ground arith))

  on_destroy-Persisted : KeepsDisk on_destroy
  unfolding on_destroy destroy_web_view
  on_destroy-Persisted = quiet-Persisted on_destroy (λ g d. (ground arith, ground arith))

  handle-Persisted : (w : World) (e : Event) → Unit {0} → KeepsDisk (handle w e)
  unfolding handle on_device_chosen on_device_changed
  handle-Persisted w (created st) _ g d p = on_create-Persisted w st g d p
  handle-Persisted w taskbar_created _ g d p =
      quiet-Persisted (handle w taskbar_created) (λ h e. (ground arith, ground arith)) g d p
  handle-Persisted w tray_double_clicked _ g d p =
      quiet-Persisted (handle w tray_double_clicked) (λ h e. (ground arith, ground arith)) g d p
  handle-Persisted w tray_clicked _ g d p = on_menu-Persisted w g d p
  handle-Persisted w minimized _ g d p = p
  handle-Persisted w window_destroyed _ g d p = on_window_destroyed-Persisted g d p
  handle-Persisted w (menu_answered visible running res) _ g d p =
      on_answer-Persisted w visible running res g d p
  handle-Persisted w theme_chosen _ g d p = on_theme_chosen-Persisted w g d p
  handle-Persisted w device_chosen _ g d p =
      choose_session-Persisted (session_at w.sessions w.device_index) g d p
  handle-Persisted w start_clicked _ g d p = toggle-Persisted w g.server_started g d p
  handle-Persisted w (box_clicked b) _ g d p = on_box-Persisted w b g d p
  handle-Persisted w queue_posted _ g d p =
      quiet-Persisted (handle w queue_posted) (λ h e. (ground arith, ground arith)) g d p
  handle-Persisted w sessions_posted _ g d p = on_sessions_changed-Persisted w g d p
  handle-Persisted w device_posted _ g d p =
      rw (select_first-quiet encode decode g.cfg.smtc.selected_device 0 w.sessions d) p
  handle-Persisted w preview_destroyed _ g d p = on_destroy-Persisted g d p

  All-fine : (es : List (World × Event)) → All (λ we. Unit {0}) es
  All-fine [] = tt
  All-fine (we ∷ es) = (tt, All-fine es)

  -- Whatever happens to the window, in any order, as long as no write fails: if the configuration in
  -- memory passes the check, then the next start of the program loads exactly it from the file.
  -- This holds at the end if it held at the beginning, for an encoder whose texts of valid
  -- configurations are decoded to the documents that they were made of.
  pub run-Persisted :
      (es : List (World × Event)) (g : Gui) (d : Disk)
      → Persisted encode decode g d
      → Persisted encode decode (run es g).0 (after (disk_after encode decode) d (run es g).1)
  run-Persisted es g d p =
      Keeps-run follow Known (λ w. Unit {0}) handle-Persisted es (All-fine es) g d p
