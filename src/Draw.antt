-- ===== src/Draw.antt =====
-- kernel/src/draw/draw.c: the frame buffer and the text cursor.
pub mod Font
pub mod Cursor
pub mod Centered
pub mod Clear
pub mod Clip
pub mod Strings
mod Tests
use bin_os_c.Base.{
  ℕ, zero, suc, ◌+◌, ◌-◌, ◌*◌, ◌/◌, ◌%◌, ◌^◌, Bool, true, false, ◌&&◌, ◌||◌, not, bit_and, bit_or,
  Option, none, some, List, [], ◌∷◌, get_or, leb, ltb, ◌==◌, if◌then◌else◌, ◌>>=◌, loop,
}
use bin_os_c.Base.Int.{ℤ, pos, negsuc, pos_part, sub_ℕ, ◌+ℤ◌, ◌-ℤ◌, ltb_ℤ}
use bin_os_c.CString.{Buffer, load}
use bin_os_c.Draw.Font.{Glyph, font}

abbrev pub font_width : ℕ
font_width = 8

abbrev pub font_height : ℕ
font_height = 16

-- `fb_ptr` is an array of `uint32_t`, and `fb_pitch` the distance of its rows in them. The array has
-- no size here, so a write outside it is no fault, and the sizes have no bound of their own.
pub record Screen : Type 0 where
  pub fb_width : ℕ
  pub fb_height : ℕ
  pub fb_pitch : ℕ
  pub pixel : ℕ → ℕ
  pub cursor_position_x : ℕ
  pub cursor_position_y : ℕ

-- Values of `uint16_t`.
abbrev pub u16 : ℕ → ℕ
u16 n = n % 2 ^ 16

unfoldable pub move_cursor_right : ℕ → Screen → Screen
move_cursor_right amount s =
    if ltb (s.cursor_position_x + amount) s.fb_width
    then record s { cursor_position_x = u16 (s.cursor_position_x + amount) }
    else record s { cursor_position_x = u16 (s.fb_width + 2 ^ 16 - 1) }

unfoldable pub move_cursor_up : ℕ → Screen → Screen
move_cursor_up amount s =
    if leb amount s.cursor_position_y
    then record s { cursor_position_y = s.cursor_position_y - amount }
    else record s { cursor_position_y = 0 }

unfoldable pub move_cursor_down : ℕ → Screen → Screen
move_cursor_down amount s =
    if ltb (s.cursor_position_y + amount) s.fb_height
    then record s { cursor_position_y = u16 (s.cursor_position_y + amount) }
    else record s { cursor_position_y = u16 (s.fb_height + 2 ^ 16 - 1) }

unfoldable pub move_cursor_left : ℕ → Screen → Screen
move_cursor_left amount s =
    if leb amount s.cursor_position_x
    then record s { cursor_position_x = s.cursor_position_x - amount }
    else record s { cursor_position_x = 0 }

-- The arguments are converted to `uint16_t`.
unfoldable pub move_cursor_to : ℕ → ℕ → Screen → Screen
move_cursor_to x y s = record s {
  cursor_position_x = if ltb (u16 x) s.fb_width then u16 x else s.cursor_position_x;
  cursor_position_y = if ltb (u16 y) s.fb_height then u16 y else s.cursor_position_y;
}

-- A positive or negative number of characters or lines; the product, which the model takes without an
-- overflow, is converted to `uint16_t`.
unfoldable pub move_cursor_by_chars : ℤ → Screen → Screen
move_cursor_by_chars (pos n) s = if n == 0 then s else move_cursor_right (u16 (n * font_width)) s
move_cursor_by_chars (negsuc n) s = move_cursor_left (u16 ((n + 1) * font_width)) s

unfoldable pub move_cursor_by_lines : ℤ → Screen → Screen
move_cursor_by_lines (pos n) s = if n == 0 then s else move_cursor_down (u16 (n * font_height)) s
move_cursor_by_lines (negsuc n) s = move_cursor_up (u16 ((n + 1) * font_height)) s

unfoldable pub cursor_newline : Screen → Screen
cursor_newline s = move_cursor_to 0 (s.cursor_position_y + font_height) s

-- `fb_ptr[py * fb_pitch + px] = color;`
unfoldable pub plot : ℕ → ℕ → ℕ → Screen → Screen
plot px py color s = record s {
  pixel = λ a. if a == py * s.fb_pitch + px then color else s.pixel a;
}

-- The write under `px >= 0 && px < fb_width && py >= 0 && py < fb_height`.
unfoldable pub plot_clipped : ℤ → ℤ → ℕ → Screen → Screen
plot_clipped (pos px) (pos py) color s =
    if ltb px s.fb_width && ltb py s.fb_height then plot px py color s else s
plot_clipped (pos px) (negsuc py) color s = s
plot_clipped (negsuc px) py color s = s

-- Is the pixel of column `col` set in a row of a glyph?
abbrev pub lit : ℕ → ℕ → Bool
lit byte col = not (bit_and byte (0x80 / 2 ^ col) == 0)

-- The coordinates are integers; they are `int`s where `cell_fits` below holds.
unfoldable pub draw_char : ℤ → ℤ → Glyph → ℕ → Screen → Screen
draw_char x y char_bitmap color = loop font_height 0 (λ row. loop font_width 0 (λ col s.
    if lit (get_or char_bitmap row 0) col
    then plot_clipped (x +ℤ pos col) (y +ℤ pos row) color s
    else s))

unfoldable pub draw_char_with_bg : ℤ → ℤ → Glyph → ℕ → ℕ → Screen → Screen
draw_char_with_bg x y char_bitmap fg_color bg_color = loop font_height 0 (λ row.
    loop font_width 0 (λ col.
      plot_clipped (x +ℤ pos col) (y +ℤ pos row)
        (if lit (get_or char_bitmap row 0) col then fg_color else bg_color)))

-- A `char` above 127 is negative, and below 32 like the control characters.
abbrev pub printable : ℕ → Bool
printable c = leb 32 c && leb c 126

unfoldable pub draw_ascii_char : ℤ → ℤ → ℕ → ℕ → Screen → Screen
draw_ascii_char x y c color s =
    if printable c then draw_char x y (get_or font (c - 32) []) color s else s

unfoldable pub draw_ascii_char_with_bg : ℤ → ℤ → ℕ → ℕ → ℕ → Screen → Screen
draw_ascii_char_with_bg x y c fg_color bg_color s =
    if printable c
    then draw_char_with_bg x y (get_or font (c - 32) []) fg_color bg_color s
    else loop font_height 0
        (λ row. loop font_width 0 (λ col. plot_clipped (x +ℤ pos col) (y +ℤ pos row) bg_color)) s

-- The coordinates are `int`: is `current_x += FONT_WIDTH` one, and so every column of the cell?
abbrev pub column_fits : ℤ → Bool
column_fits x = ltb_ℤ (x +ℤ pos font_width) (pos (2 ^ 31))

-- Is every row of the cell an `int`?
abbrev pub row_fits : ℤ → Bool
row_fits y = ltb_ℤ (y +ℤ pos (font_height - 1)) (pos (2 ^ 31))

-- A character that has no glyph is not drawn, so its rows are not computed.
abbrev pub cell_fits : ℤ → ℤ → ℕ → Bool
cell_fits x y c = column_fits x && (not (printable c) || row_fits y)

-- `for (i = 0; str[i]; i++)`: a read behind the array is a fault, and so is an `int` that overflows.
draw_string_loop : ℕ → ℕ → ℤ → ℤ → Buffer → ℕ → Screen → Option Screen
draw_string_loop zero i current_x y str color s = none
draw_string_loop (suc k) i current_x y str color s = do
  c ← load str i
  if c == 0
      then some s
      else if cell_fits current_x y c
      then draw_string_loop k (i + 1) (current_x +ℤ pos font_width) y str color
          (draw_ascii_char current_x y c color s)
      else none

unfoldable pub draw_string : ℤ → ℤ → Buffer → ℕ → Screen → Option Screen
unfolding draw_string_loop
draw_string x y str color s = draw_string_loop (str.size + 1) 0 x y str color s

draw_string_with_bg_loop : ℕ → ℕ → ℤ → ℤ → Buffer → ℕ → ℕ → Screen → Option Screen
draw_string_with_bg_loop zero i x y str fg bg s = none
draw_string_with_bg_loop (suc k) i x y str fg bg s = do
  c ← load str i
  if c == 0
      then some s
      else if column_fits x && row_fits y
      then draw_string_with_bg_loop k (i + 1) (x +ℤ pos font_width) y str fg bg
          (draw_ascii_char_with_bg x y c fg bg s)
      else none

unfoldable pub draw_string_with_bg : ℤ → ℤ → Buffer → ℕ → ℕ → Screen → Option Screen
unfolding draw_string_with_bg_loop
draw_string_with_bg x y str fg bg s = draw_string_with_bg_loop (str.size + 1) 0 x y str fg bg s

unfoldable pub clear_screen : ℕ → Screen → Screen
clear_screen color s = loop s.fb_height 0 (λ y. loop s.fb_width 0 (λ x. plot x y color)) s

-- A row of a rectangle from column `px` on.
rect_row : ℕ → ℤ → ℤ → ℕ → Screen → Screen
rect_row zero px py color s = s
rect_row (suc left) px py color s =
    let rest = rect_row left (px +ℤ pos 1) py color (plot_clipped px py color s) in
    if ltb_ℤ px (pos s.fb_width) then rest else s

rect_rows : ℕ → ℕ → ℤ → ℤ → ℕ → Screen → Screen
unfolding rect_row
rect_rows zero width x py color s = s
rect_rows (suc left) width x py color s =
    let rest = rect_rows left width x (py +ℤ pos 1) color (rect_row width x py color s) in
    if ltb_ℤ py (pos s.fb_height) then rest else s

-- A negative width or height draws nothing. The sums are taken without an overflow.
unfoldable pub draw_rect : ℤ → ℤ → ℤ → ℤ → ℕ → Screen → Screen
unfolding rect_rows
draw_rect x y width height color s = rect_rows (pos_part height) (pos_part width) x y color s

unfoldable pub rgb_to_color : ℕ → ℕ → ℕ → ℕ
rgb_to_color r g b = bit_or (bit_or (bit_or (0xff * 2 ^ 24) (r * 2 ^ 16)) (g * 2 ^ 8)) b
