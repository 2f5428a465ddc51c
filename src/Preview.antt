-- ===== src/Preview.antt =====
-- internal/webview/webview.go: the preview window. The view itself belongs to a library: it is a handle,
-- and what is asked of it and of the system is a list of calls.
pub mod Resizing
use smtc_now_playing.Prelude.{
  ℕ, zero, suc, ◌+◌, ◌-◌, ◌*◌, ◌/◌, ◌%◌, ◌^◌, Bool, true, false, Option, none, some, List, [], ◌∷◌,
  ◌++◌, Text, codes, ◌||◌, if◌then◌else◌,
}
use smtc_now_playing.Prelude.Tests.{ltb}
use smtc_now_playing.Prelude.Int.{ℤ, pos, negsuc}

pub data Hint : Type 0 where
  hint_fixed hint_max : Hint

pub data Call : Type 0 where
  bind : Text → Call
  set_size : ℤ → ℤ → Hint → Call
  init_script : Call
  navigate : Text → Call
  set_topmost : Bool → Call
  set_style : ℕ → Call
  release_capture : Call
  post_nc_button_down : ℕ → ℕ → Call
  destroy_view : Call
  process_queue : Call

-- `Preview`: the window of the view, `none` for nil.
pub record Preview : Type 0 where
  pub web_view_win : Option ℕ

pub record Options : Type 0 where
  pub url : Text
  pub always_on_top : Bool

abbrev pub ht_left : ℕ
ht_left = 10

abbrev pub ht_bottom_right : ℕ
ht_bottom_right = 17

unfoldable pub set_always_on_top : Bool → Preview → List Call
set_always_on_top on_top wv = elim wv.web_view_win [
  | none ↦ []
  | some hwnd ↦ set_topmost on_top ∷ []
]

-- `New`, for the window that the library makes, `none` if it makes none, and the size in pixels.
unfoldable pub new : Option ℕ → ℤ → ℤ → Options → Option (Preview × List Call)
new none width height opts = none
new (some hwnd) width height opts =
    let wv : Preview = record { web_view_win = some hwnd } in
    some (
      wv,
      bind (codes "rootLoaded")
          ∷ bind (codes "startResize")
          ∷ bind (codes "setMaxSize")
          ∷ set_size width height hint_fixed
          ∷ init_script
          ∷ navigate opts.url
          ∷ set_always_on_top opts.always_on_top wv,
    )

-- A number without its bit k.
abbrev pub clear_bit : ℕ → ℕ → ℕ
clear_bit k x = x - (x / 2 ^ k % 2) * 2 ^ k

-- `style &^ (wsThickFrame | wsMaximizeBox)`: the bits 18 and 16.
unfoldable pub strip_thick_frame : ℕ → ℕ
strip_thick_frame style = clear_bit 16 (clear_bit 18 style)

-- `setMaxSize`, with the style that the window then has.
unfoldable pub set_max_size : ℤ → ℤ → ℕ → Preview → List Call
set_max_size width height style wv = elim wv.web_view_win [
  | none ↦ []
  | some hwnd ↦ set_size width height hint_max ∷ set_style (strip_thick_frame style) ∷ []
]

-- `uintptr` of an int, in 64 bits.
abbrev pub u64 : ℤ → ℕ
u64 (pos n) = n % 2 ^ 64
u64 (negsuc n) = 2 ^ 64 - 1 - n % 2 ^ 64

-- `& 0xFFFF` of an int32.
abbrev pub low_word : ℤ → ℕ
low_word (pos n) = n % 2 ^ 16
low_word (negsuc n) = 2 ^ 16 - 1 - n % 2 ^ 16

-- The parts of `lParam` do not overlap.
unfoldable pub l_param : ℤ → ℤ → ℕ
l_param x y = low_word x + low_word y * 2 ^ 16

abbrev resize_from : ℕ → ℤ → ℤ → Option ℕ → List Call
resize_from ht x y none = []
resize_from ht x y (some hwnd) =
    if ltb ht ht_left || ltb ht_bottom_right ht
    then []
    else release_capture ∷ post_nc_button_down ht (l_param x y) ∷ []

-- `startResize`, with the position of the cursor.
unfoldable pub start_resize : ℤ → ℤ → ℤ → Preview → List Call
start_resize hit_test x y wv = resize_from (u64 hit_test) x y wv.web_view_win

unfoldable pub destroy : Preview → Preview × List Call
destroy wv = elim wv.web_view_win [
  | none ↦ (wv, [])
  | some hwnd ↦ (record { web_view_win = none }, destroy_view ∷ [])
]

-- The methods that ask the view for something, if it is there.
abbrev pub if_there : Call → Preview → List Call
if_there c wv = elim wv.web_view_win [ none ↦ [] | some hwnd ↦ c ∷ [] ]

unfoldable pub process_dispatch_queue : Preview → List Call
process_dispatch_queue wv = if_there process_queue wv

unfoldable pub resize : ℤ → ℤ → Hint → Preview → List Call
resize x y hint wv = if_there (set_size x y hint) wv

unfoldable pub go_to : Text → Preview → List Call
go_to url wv = if_there (navigate url) wv

-- `Window`, 0 without a view.
unfoldable pub window : Preview → ℕ
window wv = elim wv.web_view_win [ none ↦ 0 | some hwnd ↦ hwnd ]
