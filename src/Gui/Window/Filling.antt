-- ===== src/Gui/Window/Filling.antt =====
-- The window is filled with the configuration, and the settings are read back from it.
use smtc_now_playing.Prelude.{
  ℕ, zero, suc, ◌+◌, ◌^◌, ◌<◌, Bool, true, some, List, [], ◌∷◌, Text, text_eq, text_eq_iff,
  get_elem?, All, if◌then◌else◌, ◌≡◌, ◌≢◌, refl, ap, sym, ◌∙◌, arith, inl, inr,
}
use smtc_now_playing.Prelude.Tests.{Bool-cases}
use smtc_now_playing.Prelude.Int.{ℤ, pos, negsuc}
use smtc_now_playing.Prelude.Decimal.{
  decimal, print_int, IsDigit, decimal-IsDigit, value_from, value_from-decimal_lem, decimal-ne,
}
use smtc_now_playing.Json.{fits_int64}
use smtc_now_playing.Config.{Config}
use smtc_now_playing.Updater.{number, parse_uint}
use smtc_now_playing.Updater.Versions.{parse_digits-IsDigit}
use smtc_now_playing.Gui.{
  Box, auto_start_box, start_minimized_box, show_preview_box, on_top_box, Call, set_port_text,
  set_check, World, last_index, checked_atoi,
}
use smtc_now_playing.Gui.Serving.{synced}
use smtc_now_playing.Gui.Window.{theme_index, fill_controls}

parse_uint-IsDigit :
    (s : Text)
    → s ≢ []
    → All IsDigit s
    → value_from 0 s < 2 ^ 64
    → parse_uint s ≡ number (value_from 0 s)
parse_uint-IsDigit [] ne h small = absurd (ne refl)
parse_uint-IsDigit (c ∷ s) ne h small = parse_digits-IsDigit (c ∷ s) 0 h small

parse_uint-decimal : (n : ℕ) → n < 2 ^ 64 → parse_uint (decimal n) ≡ number n
parse_uint-decimal n small =
    parse_uint-IsDigit (decimal n) (decimal-ne n) (decimal-IsDigit n)
      (omega (arith, value_from-decimal_lem n))
    ∙ ap number (value_from-decimal_lem n)

checked_atoi-IsDigit :
    (s : Text) (n : ℕ)
    → s ≢ []
    → All IsDigit s
    → parse_uint s ≡ number n
    → n < 2 ^ 63
    → checked_atoi s ≡ some (pos n)
unfolding checked_atoi
checked_atoi-IsDigit [] n ne h e small = absurd (ne refl)
checked_atoi-IsDigit (c ∷ s) n ne (d, h) e small = ground arith

-- A port that fits a word is read back from its print.
checked_atoi-print_int : (n : ℤ) → fits_int64 n ≡ true → checked_atoi (print_int n) ≡ some n
unfolding print_int checked_atoi fits_int64
checked_atoi-print_int (pos n) fits =
    checked_atoi-IsDigit (decimal n) n (decimal-ne n) (decimal-IsDigit n)
      (parse_uint-decimal n (ground arith)) (ground arith)
checked_atoi-print_int (negsuc n) fits = ground (arith, parse_uint-decimal (suc n) (ground arith))

-- What a text or a box shows after the calls; each is set once.
abbrev pub box : World → Box → Bool
box w auto_start_box = w.auto_start
box w start_minimized_box = w.start_minimized
box w show_preview_box = w.show_preview
box w on_top_box = w.on_top

abbrev pub ShowsCall : World → Call → Type 0
ShowsCall w (set_port_text t) = w.port_text ≡ t
ShowsCall w (set_check b v) = box w b ≡ v
ShowsCall w _ = Unit {0}

abbrev pub Shows : World → List Call → Type 0
Shows w [] = Unit {0}
Shows w (c ∷ cs) = ShowsCall w c × Shows w cs

-- The loop over the themes ends with an index of the theme, if it had one or meets it.
last_index-theme :
    (theme : Text) (themes l : List Text) (i found : ℕ)
    → ((k : ℕ) → get_elem? l k ≡ get_elem? themes (i + k))
    → get_elem? themes found ≡ some theme
    → get_elem? themes (last_index (λ t. text_eq t theme) i found l) ≡ some theme
unfolding last_index
last_index-theme theme themes [] i found same h = h
last_index-theme theme themes (t ∷ l) i found same h =
    let later : (k : ℕ) → get_elem? l k ≡ get_elem? themes (suc i + k) =
      λ k. same (suc k) ∙ ap (get_elem? themes) (omega arith) in
    elim (Bool-cases (text_eq t theme)) [
      | inl e ↦ rw e (
          last_index-theme theme themes l (suc i) i later (
            ap (get_elem? themes) (omega arith)
            ∙ sym (same 0)
            ∙ ap some ((text_eq_iff t theme).0 e)))
      | inr e ↦ rw e (last_index-theme theme themes l (suc i) found later h)
    ]

last_index-met :
    (theme : Text) (themes l : List Text) (i found k : ℕ)
    → ((j : ℕ) → get_elem? l j ≡ get_elem? themes (i + j))
    → get_elem? l k ≡ some theme
    → get_elem? themes (last_index (λ t. text_eq t theme) i found l) ≡ some theme
unfolding last_index
last_index-met theme themes [] i found k same e = cc
last_index-met theme themes (t ∷ l) i found zero same e =
    let it : text_eq t theme ≡ true = (text_eq_iff t theme).1 (ground arith) in
    rw it (
      last_index-theme theme themes l (suc i) i
        (λ j. same (suc j) ∙ ap (get_elem? themes) (omega arith))
        (ap (get_elem? themes) (omega arith) ∙ sym (same 0) ∙ e))
last_index-met theme themes (t ∷ l) i found (suc k) same e =
    last_index-met theme themes l (suc i) (if text_eq t theme then i else found) k
      (λ j. same (suc j) ∙ ap (get_elem? themes) (omega arith)) e

-- If the controls show what the window was filled with, the configured theme is one of the themes, and
-- the port fits a word: the settings that are read back are the configuration itself.
pub synced-fill_controls :
    (w : World) (c : Config) (themes : List Text) (i : ℕ)
    → fits_int64 c.server.port ≡ true
    → get_elem? themes i ≡ some c.ui.theme
    → Shows w (fill_controls c)
    → get_elem? themes (theme_index c.ui.theme themes) ≡ some w.theme_text
    → synced w c ≡ c
unfolding synced fill_controls
synced-fill_controls w c themes i fits there shows picked =
    let selected =
      last_index-met c.ui.theme themes themes 0 0 i (λ j. ap (get_elem? themes) (omega arith))
        there in
    ground (arith, selected, picked, shows, checked_atoi-print_int c.server.port fits)
