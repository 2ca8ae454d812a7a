-- ===== src/Draw/Centered.antt =====
-- kernel/src/draw/draw.c: text in the middle of the screen.
use bin_os_c.Base.{
  ℕ, zero, suc, ◌+◌, ◌-◌, ◌*◌, ◌/◌, ◌<◌, ◌≤◌, ◌≡◌, refl, ◌∙◌, Option, none, some, arith, ◌==◌,
  if◌then◌else◌, ◌>>=◌,
}
use bin_os_c.Base.Int.{ℤ, pos, negsuc, sub_ℕ, ◌-ℤ◌}
use bin_os_c.CString.{Buffer, load}
use bin_os_c.CString.Laws.{StringFrom, IsString, tail, load-inside}
use bin_os_c.Draw.{
  Screen, font_width, font_height, draw_string, draw_string_with_bg, move_cursor_to,
}

-- `while (str[len] != '\0') len++;`
unfoldable pub string_length_loop : ℕ → Buffer → ℕ → Option ℕ
string_length_loop zero str len = none
string_length_loop (suc k) str len = do
  c ← load str len
  if c == 0 then some len else string_length_loop k str (len + 1)

unfoldable pub string_length : Buffer → Option ℕ
string_length str = string_length_loop (str.size + 1) str 0

-- Division by 2 drops the fraction.
unfoldable pub half : ℤ → ℤ
half (pos n) = pos (n / 2)
half (negsuc n) = sub_ℕ 0 ((n + 1) / 2)

-- `(fb_width - str_width) / 2`
abbrev pub center : ℕ → ℕ → ℤ
center whole part = half (pos whole -ℤ pos part)

unfoldable pub draw_string_centered : ℤ → Buffer → ℕ → Screen → Option Screen
draw_string_centered y str color s = do
  len ← string_length str
  draw_string (center s.fb_width (len * font_width)) y str color s

unfoldable pub draw_string_centered_with_bg : ℤ → Buffer → ℕ → ℕ → Screen → Option Screen
draw_string_centered_with_bg y str fg_color bg_color s = do
  len ← string_length str
  draw_string_with_bg (center s.fb_width (len * font_width)) y str fg_color bg_color s

unfoldable pub draw_string_center_screen : Buffer → ℕ → Screen → Option Screen
draw_string_center_screen str color s = do
  len ← string_length str
  draw_string (center s.fb_width (len * font_width)) (center s.fb_height font_height) str color s

unfoldable pub draw_string_center_screen_with_bg : Buffer → ℕ → ℕ → Screen → Option Screen
draw_string_center_screen_with_bg str fg_color bg_color s = do
  len ← string_length str
  draw_string_with_bg (center s.fb_width (len * font_width)) (center s.fb_height font_height) str
      fg_color bg_color s

unfoldable pub set_cursor_pos : ℕ → ℕ → Screen → Screen
set_cursor_pos x y s = move_cursor_to x y s

length_loop-StringFrom :
    (n k i : ℕ) (b : Buffer) → StringFrom b i n → n < k → string_length_loop k b i ≡ some (i + n)
unfolding string_length_loop
length_loop-StringFrom n zero i b s lt = absurd (omega arith)
length_loop-StringFrom zero (suc k) i b s lt =
    rw (load-inside b i (omega (arith, s.inside))) (ground (arith, s.ends))
length_loop-StringFrom (suc n) (suc k) i b s lt =
    rw (load-inside b i (omega (arith, s.inside)))
      (ground (arith, s.chars 0, length_loop-StringFrom n k (i + 1) b (tail b i n s)))

length-IsString : (b : Buffer) (n : ℕ) → IsString b n → string_length b ≡ some n
unfolding string_length
length-IsString b n s =
    length_loop-StringFrom n (b.size + 1) 0 b s (omega (arith, s.inside)) ∙ ground arith

center-half : (whole part : ℕ) → part ≤ whole → center whole part ≡ pos ((whole - part) / 2)
unfolding half
center-half whole part le =
    let e : sub_ℕ (whole + 0) (0 + part) ≡ pos (whole - part) = ground arith in rw e refl

-- The left margin, which is the right one or one pixel less.
pub record Margin (whole part m : ℕ) : Type 0 where
  pub fits : m + part + m ≤ whole
  pub even : whole ≤ m + part + m + 1

half-Margin : (whole part : ℕ) → part ≤ whole → Margin whole part ((whole - part) / 2)
half-Margin whole part le = record { fits = omega arith; even = omega arith }

-- Text that fits is drawn with equal margins, up to one pixel.
pub draw_centered-Margin :
    (str : Buffer) (n : ℕ) (color bg : ℕ) (s : Screen)
    → IsString str n
    → n * font_width ≤ s.fb_width
    → font_height ≤ s.fb_height
    → (x y : ℕ) × Margin s.fb_width (n * font_width) x
      × Margin s.fb_height font_height y
      × (draw_string_centered (pos y) str color s ≡ draw_string (pos x) (pos y) str color s)
      × (draw_string_center_screen str color s ≡ draw_string (pos x) (pos y) str color s)
      × (draw_string_center_screen_with_bg str color bg s
          ≡ draw_string_with_bg (pos x) (pos y) str color bg s)
unfolding draw_string_centered draw_string_center_screen draw_string_center_screen_with_bg
draw_centered-Margin str n color bg s is wide high = (
  (s.fb_width - n * font_width) / 2,
  (s.fb_height - font_height) / 2,
  half-Margin s.fb_width (n * font_width) wide,
  half-Margin s.fb_height font_height high,
  rw (length-IsString str n is, center-half s.fb_width (n * font_width) wide) refl,
  rw
      (
        length-IsString str n is,
        center-half s.fb_width (n * font_width) wide,
        center-half s.fb_height font_height high,
      )
      refl,
  rw
      (
        length-IsString str n is,
        center-half s.fb_width (n * font_width) wide,
        center-half s.fb_height font_height high,
      )
      refl,
)
