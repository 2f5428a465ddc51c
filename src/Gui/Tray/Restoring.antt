-- ===== src/Gui/Tray/Restoring.antt =====
-- The tray icon is as before when Explorer has been restarted.
use smtc_now_playing.Prelude.{
  ℕ, zero, suc, Option, none, some, List, [], ◌∷◌, Text, ◌≡◌, refl, arith, ap, ◌∙◌, sym,
}
use smtc_now_playing.Gui.Tray.{
  NotifyIcon, IconData, Request, add_icon, modify_icon, notify_icon_msg, new_data, new_notify_icon,
  icon_if_set, tip_if_set, add_after_explorer_crash, set_tooltip, set_icon,
}

-- What the shell shows of an icon: no icon is 0, no tooltip is empty.
pub record Shown : Type 0 where
  pub owner : ℕ
  pub id : Text
  pub callback : Option ℕ
  pub icon : ℕ
  pub tip : Text

abbrev pub or_kept {ℓ} : {A : Type ℓ} → A → Option A → A
or_kept old none = old
or_kept old (some new) = new

abbrev pub shown_of : IconData → Shown
shown_of d = record {
  owner = d.hwnd;
  id = d.guid;
  callback = d.callback;
  icon = or_kept 0 d.icon;
  tip = or_kept [] d.tip;
}

-- The documented behaviour of `Shell_NotifyIcon` for the icon with one GUID: a new icon has what its
-- flags name, and a change replaces that and keeps the rest.
pub record Shell : Type 0 where
  pub apply : Request → Option Shown → Option Shown
  pub adds : (d : IconData) → apply (add_icon d) none ≡ some (shown_of d)
  pub modifies :
      (d : IconData) (s : Shown)
      → apply (modify_icon d) (some s)
        ≡ some (record s { icon = or_kept s.icon d.icon; tip = or_kept s.tip d.tip })

-- What the program sets on the icon.
pub data Setting : Type 0 where
  tooltip_set : Text → Setting
  icon_set : ℕ → Setting

abbrev pub apply_setting : Setting → NotifyIcon → NotifyIcon × Request
apply_setting (tooltip_set t) ni = set_tooltip t ni
apply_setting (icon_set h) ni = set_icon h ni

abbrev pub settled : List Setting → NotifyIcon → NotifyIcon
settled [] ni = ni
settled (s ∷ ss) ni = settled ss (apply_setting s ni).0

module _ (sh : Shell) where
  abbrev pub shown_after : List Setting → NotifyIcon → Option Shown → Option Shown
  shown_after [] ni o = o
  shown_after (s ∷ ss) ni o =
      shown_after ss (apply_setting s ni).0 (sh.apply (apply_setting s ni).1 o)

  -- What the shell shows, once it has the icon's own settings.
  abbrev in_step : NotifyIcon → Shown
  in_step ni = record {
    owner = ni.hwnd;
    id = ni.guid;
    callback = some notify_icon_msg;
    icon = ni.h_icon;
    tip = ni.tooltip;
  }

  setting_shown :
      (s : Setting) (ni : NotifyIcon)
      → sh.apply (apply_setting s ni).1 (some (in_step ni)) ≡ some (in_step (apply_setting s ni).0)
  unfolding set_tooltip set_icon new_data
  setting_shown (tooltip_set t) ni =
      sh.modifies (record (new_data ni) { tip = some t }) (in_step ni)
  setting_shown (icon_set h) ni = sh.modifies (record (new_data ni) { icon = some h }) (in_step ni)

  settings_shown :
      (ss : List Setting) (ni : NotifyIcon)
      → shown_after ss ni (some (in_step ni)) ≡ some (in_step (settled ss ni))
  settings_shown [] ni = refl
  settings_shown (s ∷ ss) ni =
      ap (shown_after ss (apply_setting s ni).0) (setting_shown s ni)
      ∙ settings_shown ss (apply_setting s ni).0

  icon_kept : (n : ℕ) → or_kept 0 (icon_if_set n) ≡ n
  icon_kept zero = refl
  icon_kept (suc n) = refl

  tip_kept : (t : Text) → or_kept [] (tip_if_set t) ≡ t
  tip_kept [] = refl
  tip_kept (c ∷ t) = refl

  restored : (ni : NotifyIcon) → sh.apply (add_after_explorer_crash ni) none ≡ some (in_step ni)
  unfolding add_after_explorer_crash new_data
  restored ni = sh.adds _ ∙ ap some (ground (arith, icon_kept ni.h_icon, tip_kept ni.tooltip))

  made :
      (hwnd : ℕ) (guid : Text)
      → sh.apply (new_notify_icon hwnd guid).1 none ≡ some (in_step (new_notify_icon hwnd guid).0)
  unfolding new_notify_icon new_data
  made hwnd guid = sh.adds _

  -- With a shell that does what is documented: after any settings of a new icon, the icon that is added
  -- again when Explorer has lost it is shown exactly as the one before, with its message, its picture
  -- and its tooltip.
  pub add_after_explorer_crash-Shown :
      (hwnd : ℕ) (guid : Text) (ss : List Setting)
      → sh.apply (add_after_explorer_crash (settled ss (new_notify_icon hwnd guid).0)) none
        ≡ shown_after ss (new_notify_icon hwnd guid).0 (sh.apply (new_notify_icon hwnd guid).1 none)
  add_after_explorer_crash-Shown hwnd guid ss =
      restored (settled ss (new_notify_icon hwnd guid).0)
      ∙ sym (
          ap (shown_after ss (new_notify_icon hwnd guid).0) (made hwnd guid)
          ∙ settings_shown ss (new_notify_icon hwnd guid).0)
