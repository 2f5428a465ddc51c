-- ===== src/Gui/Window/Previews.antt =====
-- When the window has a preview, and what its button says.
use smtc_now_playing.Prelude.{
  ℕ, suc, ◌-◌, Bool, true, false, Option, none, some, List, [], ◌∷◌, Text, codes, get_elem?, ◌≡◌,
  ◌≢◌, refl, arith, All, ◌∙◌,
}
use smtc_now_playing.Gui.{
  Gui, Box, auto_start_box, start_minimized_box, show_preview_box, on_top_box, Call, set_start_text,
  World, Act, calls, destroy_menu, reading, select_theme,
}
use smtc_now_playing.Smtc.Types.{SessionInfo}
use smtc_now_playing.Gui.Devices.{
  add_devices, select_if_any, select_first, on_sessions_changed, on_device_changed, choose_session,
  on_device_chosen, session_at,
}
use smtc_now_playing.Gui.Menu.{on_menu, on_row, on_answer}
use smtc_now_playing.Gui.Serving.{
  addresses, update_web_view_always_on_top, create_web_view, destroy_web_view, on_destroy,
  start_web_server, stop_web_server, toggle,
}
use smtc_now_playing.Gui.Window.{
  Event, created, taskbar_created, tray_double_clicked, tray_clicked, minimized, window_destroyed,
  menu_answered, theme_chosen, device_chosen, start_clicked, box_clicked, queue_posted,
  sessions_posted, device_posted, preview_destroyed, handle, run, on_box, on_window_destroyed,
  on_theme_chosen, add_themes, on_create, Setup, auto_click, after_icon, with_tray, fill_themes,
  theme_index, with_themes, fill_controls,
}
use smtc_now_playing.Gui.Window.Keeping.{after, after-append, Keeps, Keeps->>, Keeps-run}

-- The text of the button after a call.
abbrev pub button_after : Text → Call → Text
button_after t (set_start_text s) = s
button_after t _ = t

abbrev pub button_text : Bool → Text
button_text true = codes "&Stop"
button_text false = codes "&Start"

pub record IsSound (g : Gui) (button : Text) : Type 0 where
  pub previewed : g.preview ≡ true → g.server_started ≡ true
  pub labelled : button ≡ button_text g.server_started

abbrev KeepsSound : Act → Type 0
KeepsSound = Keeps button_after IsSound

addresses-ne-none : (w : World) → w.interfaces ≢ none → addresses w ≢ none
unfolding addresses
addresses-ne-none w h = ground arith

stop_web_server-Sound : KeepsSound stop_web_server
unfolding stop_web_server destroy_web_view
stop_web_server-Sound g s p = ground (arith)

start_web_server-Sound : (w : World) → w.interfaces ≢ none → KeepsSound (start_web_server w)
unfolding start_web_server create_web_view update_web_view_always_on_top
start_web_server-Sound w known g s p = ground (arith, addresses-ne-none w known)

toggle-Sound : (w : World) → w.interfaces ≢ none → (running : Bool) → KeepsSound (toggle w running)
toggle-Sound w known true g s p = stop_web_server-Sound g s p
toggle-Sound w known false g s p = start_web_server-Sound w known _ s (ground arith)

on_box-Sound : (w : World) (b : Box) → KeepsSound (on_box w b)
unfolding on_box create_web_view destroy_web_view update_web_view_always_on_top
on_box-Sound w auto_start_box g s p = ground arith
on_box-Sound w start_minimized_box g s p = ground arith
on_box-Sound w show_preview_box g s p = ground arith
on_box-Sound w on_top_box g s p = ground arith

on_window_destroyed-Sound : KeepsSound on_window_destroyed
unfolding on_window_destroyed destroy_web_view
on_window_destroyed-Sound g s p = ground arith

on_destroy-Sound : KeepsSound on_destroy
unfolding on_destroy destroy_web_view
on_destroy-Sound g s p = ground arith

add_devices-Sound : (l : List SessionInfo) (t : Text) → after button_after t (add_devices l) ≡ t
add_devices-Sound [] t = refl
add_devices-Sound (x ∷ l) t = add_devices-Sound l t

add_themes-Sound : (l : List Text) (t : Text) → after button_after t (add_themes l) ≡ t
add_themes-Sound [] t = refl
add_themes-Sound (x ∷ l) t = add_themes-Sound l t

-- Calls that leave the button alone keep what is known.
calls-Sound : (cs : List Call) → ((t : Text) → after button_after t cs ≡ t) → KeepsSound (calls cs)
calls-Sound cs quiet g s p = rw (quiet s) p

on_theme_chosen-Sound : (w : World) → KeepsSound (on_theme_chosen w)
unfolding on_theme_chosen
on_theme_chosen-Sound w g s p = ground arith

choose_session-Sound : (o : Option SessionInfo) → KeepsSound (choose_session o)
choose_session-Sound none g s p = p
choose_session-Sound (some x) g s p = ground arith

select_first-quiet :
    (device : Text) (i : ℕ) (l : List SessionInfo) (t : Text)
    → after button_after t (select_first device i l) ≡ t
unfolding select_first
select_first-quiet device i [] t = refl
select_first-quiet device i (x ∷ l) t = ground (arith, select_first-quiet device (suc i) l t)

select_if_any-quiet :
    (device : Text) (l : List SessionInfo) (t : Text)
    → after button_after t (select_if_any device l) ≡ t
select_if_any-quiet device [] t = refl
select_if_any-quiet device (x ∷ l) t = refl

on_sessions_changed-Sound : (w : World) → KeepsSound (on_sessions_changed w)
unfolding on_sessions_changed
on_sessions_changed-Sound w g s p =
    rw
      (
        after-append button_after s (add_devices w.sessions)
            (select_if_any g.cfg.smtc.selected_device w.sessions),
        add_devices-Sound w.sessions s,
        select_if_any-quiet g.cfg.smtc.selected_device w.sessions s,
      )
      p

on_answer-Sound :
    (w : World)
    → w.interfaces ≢ none
    → (visible running : Bool) (res : Option ℕ) → KeepsSound (on_answer w visible running res)
unfolding on_row
on_answer-Sound w known visible running none g s p = p
on_answer-Sound w known visible running (some id) g s p = ground (
  arith,
  after-append button_after s (toggle w running g).1 (destroy_menu ∷ []),
  toggle-Sound w known running g s p,
  choose_session-Sound (get_elem? w.sessions (id - 2001)) g s p,
  after-append button_after s (choose_session (get_elem? w.sessions (id - 2001)) g).1
      (destroy_menu ∷ []),
)

on_menu-Sound : (w : World) → KeepsSound (on_menu w)
unfolding on_menu
on_menu-Sound w g s p = ground arith

-- The parts of the making of the window, the last first.
auto_click-Sound : (w : World) → w.interfaces ≢ none → KeepsSound (auto_click w)
auto_click-Sound w known g s p = ground (arith, toggle-Sound w known g.server_started g s p)

after_icon-Sound : (w : World) (st : Setup) → w.interfaces ≢ none → KeepsSound (after_icon w st)
after_icon-Sound w st known g s p = ground (arith, auto_click-Sound w known g s p)

with_tray-Sound :
    (w : World) (st : Setup) (made : Bool) → w.interfaces ≢ none → KeepsSound (with_tray w st made)
with_tray-Sound w st made known g s p =
    ground (arith, after_icon-Sound w st known (record g { tray = true }) s (ground arith))

fill_themes-quiet :
    (theme : Text) (l : List Text) (t : Text) → after button_after t (fill_themes theme l) ≡ t
unfolding fill_themes
fill_themes-quiet theme l t =
    after-append button_after t (add_themes l) (select_theme (theme_index theme l) ∷ [])
    ∙ add_themes-Sound l t

with_themes-Sound :
    (w : World) (st : Setup) (l : Option (List Text))
    → w.interfaces ≢ none
    → KeepsSound (with_themes w st l)
with_themes-Sound w st none known g s p = p
with_themes-Sound w st (some l) known g s p =
    Keeps->> button_after IsSound (reading (λ g. calls (fill_themes g.cfg.ui.theme l)))
      (with_tray w st st.tray_made) (λ g s p. rw (fill_themes-quiet g.cfg.ui.theme l s) p)
      (with_tray-Sound w st st.tray_made known) g s p

on_create-Sound : (w : World) (st : Setup) → w.interfaces ≢ none → KeepsSound (on_create w st)
unfolding on_create
on_create-Sound w st known =
    Keeps->> button_after IsSound (reading (λ g. calls (fill_controls g.cfg)))
      (with_themes w st st.themes) (λ g s p. unfold fill_controls in p)
      (with_themes-Sound w st st.themes known)

handle-Sound : (w : World) (e : Event) → w.interfaces ≢ none → KeepsSound (handle w e)
unfolding handle on_device_chosen on_device_changed
handle-Sound w (created st) known g s p = on_create-Sound w st known g s p
handle-Sound w taskbar_created known g s p = ground arith
handle-Sound w tray_double_clicked known g s p = ground arith
handle-Sound w tray_clicked known g s p = on_menu-Sound w g s p
handle-Sound w minimized known g s p = p
handle-Sound w window_destroyed known g s p = on_window_destroyed-Sound g s p
handle-Sound w (menu_answered visible running res) known g s p =
    on_answer-Sound w known visible running res g s p
handle-Sound w theme_chosen known g s p = on_theme_chosen-Sound w g s p
handle-Sound w device_chosen known g s p =
    choose_session-Sound (session_at w.sessions w.device_index) g s p
handle-Sound w start_clicked known g s p = toggle-Sound w known g.server_started g s p
handle-Sound w (box_clicked b) known g s p = on_box-Sound w b g s p
handle-Sound w queue_posted known g s p = ground arith
handle-Sound w sessions_posted known g s p = on_sessions_changed-Sound w g s p
handle-Sound w device_posted known g s p =
    rw (select_first-quiet g.cfg.smtc.selected_device 0 w.sessions s) p
handle-Sound w preview_destroyed known g s p = on_destroy-Sound g s p

-- In any sequence of events of the window in which the interfaces can always be listed, a preview is
-- only there while the server counts as started, and the button says "&Stop" exactly then and
-- "&Start" otherwise.
pub run-IsSound :
    (es : List (World × Event)) (g : Gui) (button : Text)
    → IsSound g button
    → All (λ we. we.0.interfaces ≢ none) es
    → IsSound (run es g).0 (after button_after button (run es g).1)
run-IsSound es g button sound known =
    Keeps-run button_after IsSound (λ w. w.interfaces ≢ none) handle-Sound es known g button sound
