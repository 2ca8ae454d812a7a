-- ===== src/Terminal.antt =====
-- The output half of kernel/src/shell/shell.c: text on the screen, with line breaks and scrolling.
pub mod Laws
use Prim.Native.Char.{code}
use Prim.Native.String.{String}
use bin_os_c.Base.{
  ℕ, zero, suc, ◌+◌, ◌-◌, ◌*◌, ◌/◌, ◌%◌, Bool, true, false, ◌&&◌, Option, none, some, List, [], ◌∷◌,
  get_or, length, leb, ltb, ◌==◌, if◌then◌else◌, ◌>>=◌, loop,
}
use bin_os_c.Base.Int.{ℤ, pos}
use bin_os_c.CString.{Buffer, load}
use bin_os_c.Draw.{
  Screen, plot, move_cursor_to, move_cursor_up, move_cursor_right, draw_ascii_char, draw_string,
}

abbrev pub line_height : ℕ
line_height = 16

abbrev pub char_width : ℕ
char_width = 8

abbrev pub text_color : ℕ
text_color = 0xffff_ffff

abbrev pub bg_color : ℕ
bg_color = 0xff00_0000

abbrev pub cursor_color : ℕ
cursor_color = 0xff00_ff00

abbrev pub codes : String → List ℕ
codes String.[] = []
codes (String.◌∷◌ c s) = code c ∷ codes s

-- A string constant: its characters and the terminator.
unfoldable pub literal : List ℕ → Buffer
literal cs = record { size = length cs + 1; at = λ i. get_or cs i 0 }

-- `fb[y * pitch + x] = fb[(y + line_height) * pitch + x];`
unfoldable pub scroll_pixel : ℕ → ℕ → ℕ → Screen → Screen
scroll_pixel pitch y x s = record s {
  pixel = λ a. if a == y * pitch + x then s.pixel ((y + line_height) * pitch + x) else s.pixel a;
}

unfoldable pub clear_pixel : ℕ → ℕ → ℕ → Screen → Screen
clear_pixel pitch y x s = record s {
  pixel = λ a. if a == y * pitch + x then bg_color else s.pixel a;
}

-- The source divides `fb_pitch`, which counts words already, by `sizeof(uint32_t)`. On a screen
-- lower than a line the second loop starts in front of the frame buffer, which is a fault.
unfoldable pub shell_scroll_up : Screen → Option Screen
shell_scroll_up s =
    let width = s.fb_width in
    let height = s.fb_height in
    let pitch = s.fb_pitch / 4 in
    let moved = loop (height - line_height) 0 (λ y. loop width 0 (λ x. scroll_pixel pitch y x)) s in
    let cleared =
      loop line_height (height - line_height) (λ y. loop width 0 (λ x. clear_pixel pitch y x))
        moved in
    if ltb height line_height then none else some (move_cursor_up line_height cleared)

unfoldable pub shell_newline : Screen → Option Screen
shell_newline s =
    let s₁ = move_cursor_to 0 (s.cursor_position_y + line_height) s in
    if leb s₁.fb_height (s₁.cursor_position_y + line_height) then shell_scroll_up s₁ else some s₁

-- `get_cursor_x() >= get_screen_width() - char_width`
abbrev pub at_margin : Screen → Bool
at_margin s = leb s.fb_width (s.cursor_position_x + char_width)

-- One character cell, and the cursor behind it.
unfoldable pub put_char : ℕ → ℕ → Screen → Screen
put_char c color s =
    move_cursor_right char_width
      (draw_ascii_char (pos s.cursor_position_x) (pos s.cursor_position_y) c color s)

tab_loop : ℕ → ℕ → Screen → Option Screen
tab_loop zero color s = some s
tab_loop (suc spaces) color s =
    let s₁ = put_char b' ' color s in
    let rest = tab_loop spaces color s₁ in if at_margin s₁ then shell_newline s₁ else rest

unfoldable pub print_char : ℕ → ℕ → Screen → Option Screen
unfolding tab_loop
print_char c color s =
    if c == 10
    then shell_newline s
    else if c == 13
    then some (move_cursor_to 0 s.cursor_position_y s)
    else if c == 9
    then tab_loop (4 - s.cursor_position_x / char_width % 4) color s
    else (let s₁ = put_char c color s in if at_margin s₁ then shell_newline s₁ else some s₁)

print_loop : ℕ → ℕ → Buffer → ℕ → Screen → Option Screen
print_loop zero i text color s = none
print_loop (suc k) i text color s = do
  c ← load text i
  if c == 0 then some s else (do s₁ ← print_char c color s; print_loop k (i + 1) text color s₁)

unfoldable pub shell_print_color : Buffer → ℕ → Screen → Option Screen
unfolding print_loop
shell_print_color text color s = print_loop (text.size + 1) 0 text color s

unfoldable pub shell_print : Buffer → Screen → Option Screen
shell_print text s = shell_print_color text text_color s

unfoldable pub shell_print_prompt : Screen → Option Screen
shell_print_prompt s = do
  s₁ ←
      draw_string (pos s.cursor_position_x) (pos s.cursor_position_y) (literal (codes "$ "))
        text_color s
  some (move_cursor_right (2 * char_width) s₁)
