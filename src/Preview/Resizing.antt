-- ===== src/Preview/Resizing.antt =====
-- What a resize by the edges of the preview posts, and the style of its window.
use smtc_now_playing.Prelude.{
  ℕ, ◌+◌, ◌-◌, ◌*◌, ◌/◌, ◌%◌, ◌^◌, ◌<◌, some, List, [], ◌∷◌, if◌then◌else◌, ◌≡◌, ap, ◌∙◌, arith,
}
use smtc_now_playing.Prelude.Tests.{ltb}
use smtc_now_playing.Prelude.Int.{ℤ, pos, negsuc, ◌≤ℤ◌}
use smtc_now_playing.Preview.{
  Call, release_capture, post_nc_button_down, l_param, low_word, start_resize, strip_thick_frame,
}

-- A word of 16 bits as the coordinate that the receiver of the message reads.
abbrev pub coordinate : ℕ → ℤ
coordinate u = if ltb u (2 ^ 15) then pos u else negsuc (2 ^ 16 - 1 - u)

abbrev pub FitsWord : ℤ → Type 0
FitsWord x = (negsuc (2 ^ 15 - 1) ≤ℤ x) × (x ≤ℤ pos (2 ^ 15 - 1))

low_word-lt : (x : ℤ) → low_word x < 2 ^ 16
low_word-lt (pos n) = omega arith
low_word-lt (negsuc n) = omega arith

coordinate-low_word : (x : ℤ) → FitsWord x → coordinate (low_word x) ≡ x
coordinate-low_word (pos n) fits = ground arith
coordinate-low_word (negsuc n) fits = ground arith

l_param-parts :
    (x y : ℤ) → (l_param x y % 2 ^ 16 ≡ low_word x) × (l_param x y / 2 ^ 16 % 2 ^ 16 ≡ low_word y)
unfolding l_param
l_param-parts x y = omega (arith, low_word-lt x, low_word-lt y)

-- The hit test is an int of 64 bits.
abbrev pub FitsInt : ℤ → Type 0
FitsInt n = (negsuc (2 ^ 63 - 1) ≤ℤ n) × (n ≤ℤ pos (2 ^ 63 - 1))

abbrev pub posted : ℤ → ℤ → ℤ → List Call
posted (pos n) x y =
    if ltb n 10
    then []
    else if ltb 17 n
    then []
    else release_capture ∷ post_nc_button_down n (l_param x y) ∷ []
posted (negsuc n) x y = []

start_resize-posted :
    (hit_test x y : ℤ) (hwnd : ℕ)
    → FitsInt hit_test
    → start_resize hit_test x y (record { web_view_win = some hwnd }) ≡ posted hit_test x y
unfolding start_resize
start_resize-posted (pos n) x y hwnd fits = ground arith
start_resize-posted (negsuc n) x y hwnd fits = ground arith

-- A script that asks for a resize makes the window post exactly the hit tests from 10 to 17, whatever
-- int it passes, negative ones too; and for a cursor whose coordinates fit 16 bits, the receiver reads
-- them from the message as they were, those left of or above the first screen too.
pub start_resize-coordinate :
    (hit_test x y : ℤ) (hwnd : ℕ)
    → FitsInt hit_test
    → FitsWord x
    → FitsWord y
    → (start_resize hit_test x y (record { web_view_win = some hwnd }) ≡ posted hit_test x y)
      × (coordinate (l_param x y % 2 ^ 16) ≡ x)
      × (coordinate (l_param x y / 2 ^ 16 % 2 ^ 16) ≡ y)
start_resize-coordinate hit_test x y hwnd fits fx fy = (
  start_resize-posted hit_test x y hwnd fits,
  ap coordinate (l_param-parts x y).0 ∙ coordinate-low_word x fx,
  ap coordinate (l_param-parts x y).1 ∙ coordinate-low_word y fy,
)

-- The style loses the bits 18 and 16 and keeps all others.
strip_thick_frame_bits :
    (high b18 b17 b16 low : ℕ)
    → b18 < 2
    → b17 < 2
    → b16 < 2
    → low < 2 ^ 16
    → strip_thick_frame (high * 2 ^ 19 + b18 * 2 ^ 18 + b17 * 2 ^ 17 + b16 * 2 ^ 16 + low)
      ≡ high * 2 ^ 19 + b17 * 2 ^ 17 + low
unfolding strip_thick_frame
strip_thick_frame_bits high b18 b17 b16 low p q r s = omega arith
