-- ===== src/Gui/Devices/Selection.antt =====
-- Which device the window's list of devices shows as selected.
use native.Mathlib.Nat.{zero-add}
use smtc_now_playing.Prelude.{
  ℕ, zero, suc, ◌+◌, false, some, List, [], ◌∷◌, ◌++◌, Text, text_eq, text_eq_iff, get_elem?, All,
  ◌≡◌, refl, ap, subst, ◌∙◌, arith,
}
use smtc_now_playing.Prelude.Int.{pos}
use smtc_now_playing.Smtc.Types.{SessionInfo}
use smtc_now_playing.Gui.{
  Gui, World, last_index, clear_devices, select_device_item, select_device, save,
}
use smtc_now_playing.Gui.Devices.{
  add_devices, select_if_any, on_sessions_changed, select_first, on_device_changed, choose_session,
  on_device_chosen,
}

-- No two sessions are of one application.
abbrev Absent : Text → List SessionInfo → Type 0
Absent device = All (λ s. text_eq s.app_id device ≡ false)

abbrev pub Distinct : List SessionInfo → Type 0
Distinct [] = Unit
Distinct (s ∷ rest) = Absent s.app_id rest × Distinct rest

last_index-Absent :
    (device : Text) (l : List SessionInfo) (i found : ℕ)
    → Absent device l
    → last_index (λ s. text_eq s.app_id device) i found l ≡ found
unfolding last_index
last_index-Absent device [] i found h = refl
last_index-Absent device (x ∷ l) i found (off, h) =
    rw off (last_index-Absent device l (suc i) found h)

Absent-at :
    (device : Text) (l : List SessionInfo) (k : ℕ) {s : SessionInfo}
    → Absent device l
    → get_elem? l k ≡ some s
    → text_eq s.app_id device ≡ false
Absent-at device [] k h e = cc
Absent-at device (x ∷ l) zero (off, h) e = ground (arith)
Absent-at device (x ∷ l) (suc k) (off, h) e = Absent-at device l k h e

-- The two loops meet at the only session of the application.
loops_meet :
    (l : List SessionInfo) (i found k : ℕ) {s : SessionInfo}
    → Distinct l
    → get_elem? l k ≡ some s
    → (last_index (λ x. text_eq x.app_id s.app_id) i found l ≡ i + k)
      × (select_first s.app_id i l ≡ select_device_item (i + k) ∷ [])
unfolding last_index select_first
loops_meet [] i found k d e = cc
loops_meet (x ∷ l) i found zero {s} (off, d) e =
    ground (arith, text_eq_iff x.app_id s.app_id, last_index-Absent s.app_id l (suc i) i)
loops_meet (x ∷ l) i found (suc k) {s} (off, d) e = ground (
  arith,
  text_eq_iff x.app_id s.app_id,
  text_eq_iff s.app_id x.app_id,
  Absent-at x.app_id l k off e,
  loops_meet l (suc i) found k d e,
)

select_if_any-meets :
    (l : List SessionInfo) (k : ℕ) {s : SessionInfo}
    → Distinct l
    → get_elem? l k ≡ some s
    → select_if_any s.app_id l ≡ select_device_item k ∷ []
select_if_any-meets [] k d e = cc
select_if_any-meets (x ∷ l) k {s} d e =
    ap (λ n. select_device_item n ∷ []) ((loops_meet (x ∷ l) 0 0 k d e).0 ∙ zero-add k)

select_first-meets :
    (l : List SessionInfo) (k : ℕ) {s : SessionInfo}
    → Distinct l
    → get_elem? l k ≡ some s
    → select_first s.app_id 0 l ≡ select_device_item k ∷ []
select_first-meets l k d e =
    (loops_meet l 0 0 k d e).1 ∙ ap (λ n. select_device_item n ∷ []) (zero-add k)

choose_session-selected :
    (g : Gui) (s : SessionInfo)
    → s.app_id ≡ g.cfg.smtc.selected_device
    → choose_session (some s) g ≡ (g, select_device s.app_id ∷ save g.cfg ∷ [])
choose_session-selected g s same = ground arith

-- With no two sessions of one application, and one of them of the selected one: after the sessions have
-- changed and after the device has, the list shows this session as selected, and choosing it there
-- selects the same device again and leaves the configuration as it is.
pub lists_agree :
    (w : World) (g : Gui) (i : ℕ) (s : SessionInfo)
    → Distinct w.sessions
    → get_elem? w.sessions i ≡ some s
    → s.app_id ≡ g.cfg.smtc.selected_device
    → (on_sessions_changed w g
        ≡ (g, clear_devices ∷ (add_devices w.sessions ++ select_device_item i ∷ [])))
      × (on_device_changed w g ≡ (g, select_device_item i ∷ []))
      × (on_device_chosen (record w { device_index = pos i }) g
          ≡ (g, select_device s.app_id ∷ save g.cfg ∷ []))
unfolding on_sessions_changed on_device_changed on_device_chosen
lists_agree w g i s d e same = (
  ap (λ cs. (g, clear_devices ∷ (add_devices w.sessions ++ cs)))
      (subst (λ device. select_if_any device w.sessions ≡ select_device_item i ∷ []) same
        (select_if_any-meets w.sessions i d e)),
  ap (λ cs. (g, cs))
      (subst (λ device. select_first device 0 w.sessions ≡ select_device_item i ∷ []) same
        (select_first-meets w.sessions i d e)),
  ap (λ o. choose_session o g) e ∙ choose_session-selected g s same,
)
