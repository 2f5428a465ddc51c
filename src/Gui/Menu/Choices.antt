-- ===== src/Gui/Menu/Choices.antt =====
-- What the rows of the tray's menu stand for.
use smtc_now_playing.Prelude.{
  ℕ, suc, ◌+◌, ◌-◌, ◌%◌, ◌^◌, ◌<◌, Bool, some, List, [], ◌∷◌, Text, length, get_elem?, All, ◌≡◌,
  refl, sym, ap, ◌∙◌, ◌≤◌, inl, inr, arith,
}
use smtc_now_playing.Prelude.Tests.{Bool-cases}
use smtc_now_playing.Smtc.Types.{SessionInfo}
use smtc_now_playing.Gui.{Gui, DeviceItem, World, select_device, save}
use smtc_now_playing.Gui.Menu.{has_nul, device_items, on_row}

-- The state after a device is selected.
abbrev pub with_device : Text → Gui → Gui
with_device device g = record g {
  cfg = record g.cfg { smtc = record { selected_device = device } };
}

-- The row shows a session, and selects and saves its application.
abbrev pub Chosen : World → Gui → DeviceItem → Type 0
Chosen w g item =
    (s : SessionInfo) × (get_elem? w.sessions item.position ≡ some s)
    × (item.label ≡ s.name)
    × ((visible running : Bool)
        → on_row w visible running item.id g ≡ (
          with_device s.app_id g,
          select_device s.app_id ∷ save (with_device s.app_id g).cfg ∷ [],
        ))

on_row_device :
    (w : World) (g : Gui) (id : ℕ) (s : SessionInfo)
    → 2001 ≤ id
    → get_elem? w.sessions (id - 2001) ≡ some s
    → (visible running : Bool)
    → on_row w visible running id g
      ≡ (with_device s.app_id g, select_device s.app_id ∷ save (with_device s.app_id g).cfg ∷ [])
unfolding on_row
on_row_device w g id s low e visible running = ground arith

-- The rows made for the sessions from the index i on.
device_items-Chosen :
    (w : World) (g : Gui) (l : List SessionInfo) (i : ℕ)
    → ((k : ℕ) → get_elem? l k ≡ get_elem? w.sessions (i + k))
    → 2001 + i + length l < 2 ^ 32
    → All (Chosen w g) (device_items g.cfg.smtc.selected_device i l)
unfolding device_items
device_items-Chosen w g [] i same small = tt
device_items-Chosen w g (s ∷ l) i same small =
    let rest =
      device_items-Chosen w g l (suc i)
        (λ k. same (suc k) ∙ ap (get_elem? w.sessions) (omega arith)) (omega arith) in
    let there : get_elem? w.sessions i ≡ some s =
      ap (get_elem? w.sessions) (omega arith) ∙ sym (same 0) in
    let m : (2001 + i) % 2 ^ 32 ≡ 2001 + i = omega arith in
    elim (Bool-cases (has_nul s.name)) [
      | inl bad ↦ rw bad rest
      | inr fine ↦ rw fine (
        (
          s,
          there,
          refl,
          on_row_device w g ((2001 + i) % 2 ^ 32) s (omega arith)
              (ap (get_elem? w.sessions) (omega arith) ∙ there),
        ),
        rest,
      )
    ]

-- With fewer sessions than ids: each row of the list of devices has the name of a session, and if the
-- sessions are still the same when the user picks it, it selects this session's application and saves
-- it, whatever the window and the server were like when the menu was made.
pub device_items_choose :
    (w : World) (g : Gui)
    → 2001 + length w.sessions < 2 ^ 32
    → All (Chosen w g) (device_items g.cfg.smtc.selected_device 0 w.sessions)
device_items_choose w g small =
    device_items-Chosen w g w.sessions 0 (λ k. ap (get_elem? w.sessions) (omega arith))
      (omega arith)
