-- ===== src/Gui/Window/Quiet.antt =====
-- Calls of the window that leave the files as they are.
use smtc_now_playing.Prelude.{ℕ, suc, Option, List, [], ◌∷◌, Text, ◌≡◌, refl, arith, ◌∙◌}
use smtc_now_playing.Json.{Json}
use smtc_now_playing.Config.Saving.{Disk}
use smtc_now_playing.Gui.{Call, select_theme}
use smtc_now_playing.Smtc.Types.{SessionInfo}
use smtc_now_playing.Gui.Devices.{add_devices, select_if_any, select_first}
use smtc_now_playing.Gui.Window.{add_themes, fill_themes, theme_index}
use smtc_now_playing.Gui.Window.Files.{disk_after}
use smtc_now_playing.Gui.Window.Keeping.{after, after-append}

module _ (encode : Json → Text) (decode : Text → Option Json) where
  abbrev follow : Disk → Call → Disk
  follow = disk_after encode decode

  pub add_devices-quiet : (l : List SessionInfo) (d : Disk) → after follow d (add_devices l) ≡ d
  add_devices-quiet [] d = refl
  add_devices-quiet (x ∷ l) d = add_devices-quiet l d

  pub add_themes-quiet : (l : List Text) (d : Disk) → after follow d (add_themes l) ≡ d
  add_themes-quiet [] d = refl
  add_themes-quiet (x ∷ l) d = add_themes-quiet l d

  pub select_first-quiet :
      (device : Text) (i : ℕ) (l : List SessionInfo) (d : Disk)
      → after follow d (select_first device i l) ≡ d
  unfolding select_first
  select_first-quiet device i [] d = refl
  select_first-quiet device i (x ∷ l) d = ground (arith, select_first-quiet device (suc i) l d)

  pub select_if_any-quiet :
      (device : Text) (l : List SessionInfo) (d : Disk)
      → after follow d (select_if_any device l) ≡ d
  select_if_any-quiet device [] d = refl
  select_if_any-quiet device (x ∷ l) d = refl

  pub fill_themes-quiet :
      (theme : Text) (l : List Text) (d : Disk) → after follow d (fill_themes theme l) ≡ d
  unfolding fill_themes
  fill_themes-quiet theme l d =
      after-append follow d (add_themes l) (select_theme (theme_index theme l) ∷ [])
      ∙ add_themes-quiet l d
