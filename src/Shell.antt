-- ===== src/Shell.antt =====
-- kernel/src/shell/shell.c: the line editor and the history.
pub mod Command
pub mod Edit
pub mod Enter
pub mod History
pub mod Input
pub mod Move
pub mod Recall
pub mod Shift
pub mod State
pub mod Tests
pub mod Word
pub mod Keys
pub mod Line
use bin_os_c.Base.{
  ℕ, zero, suc, ◌+◌, ◌-◌, ◌*◌, ◌%◌, Bool, true, false, ◌&&◌, not, Option, none, some, leb, ltb,
  ◌==◌, if◌then◌else◌,
}
use bin_os_c.Base
use bin_os_c.Base.Int.{ℤ, pos, sub_ℕ, ◌+ℤ◌, ◌-ℤ◌}
use bin_os_c.CString
use bin_os_c.CString.{Buffer, strlen, strcmp, strcpy, strncpy}
use bin_os_c.Draw.{Screen, draw_string, draw_rect, clear_screen, move_cursor_to}
use bin_os_c.Terminal
use bin_os_c.Terminal.{literal, codes, line_height, char_width, text_color, bg_color, cursor_color}

abbrev pub max_input_length : ℕ
max_input_length = 256

abbrev pub max_history_entries : ℕ
max_history_entries = 10

pub record Shell : Type 0 where
  pub command_buffer : Buffer
  pub input_buffer : Buffer
  pub history : ℕ → Buffer
  pub history_index : ℕ
  pub history_current : ℕ
  pub input_index : ℕ
  pub cursor_pos : ℕ
  pub cursor_blink_counter : ℕ
  pub cursor_visible : Bool
  pub screen : Screen

-- `none` is a read or write outside an array.
abbrev pub M : Type 0 → Type 0
M A = Shell → Option (A × Shell)

abbrev pub continue : {A B : Type 0} → Option (A × Shell) → (A → M B) → Option (B × Shell)
continue none f = none
continue (some (a, s)) f = f a s

abbrev pub pure : {A : Type 0} → A → M A
pure a s = some (a, s)

infixl 5 ◌>>=◌ ◌>>◌
abbrev pub ◌>>=◌ : {A B : Type 0} → M A → (A → M B) → M B
m >>= f = λ s. continue (m s) f

abbrev pub ◌>>◌ : {A B : Type 0} → M A → M B → M B
m >> k = m >>= λ _. k

abbrev pub get : M Shell
get s = some (s, s)

abbrev pub put : Shell → M (Unit {0})
put s' s = some (tt, s')

-- A step that can fault and whose result is used.
abbrev pub lift : {A : Type 0} → Option A → M A
lift none s = none
lift (some a) s = some (a, s)

-- A step on the screen.
abbrev pub display : (Screen → Option Screen) → M (Unit {0})
display f s = continue (lift (f s.screen) s) (λ sc. put (record s { screen = sc }))

-- `input_buffer[i] = c`
abbrev pub set_input : ℕ → ℕ → M (Unit {0})
set_input i c s =
    continue (lift (CString.store s.input_buffer i c) s) (λ b. put (record s { input_buffer = b }))

-- The character under the cursor, drawn again over it.
unfoldable pub draw_cursor : ℤ → ℤ → Shell → Option Screen
draw_cursor text_x prompt_y s =
    let cursor_x = text_x +ℤ pos (s.cursor_pos * char_width) in
    let block =
      draw_rect cursor_x prompt_y (pos char_width) (pos line_height) cursor_color s.screen in
    if ltb s.cursor_pos s.input_index
    then elim (CString.load s.input_buffer s.cursor_pos) [
      | none ↦ none
      | some c ↦
          if c == 0
          then some block
          else draw_string cursor_x prompt_y
              (record { size = 2; at = λ i. if i == 0 then c else 0 }) bg_color block
    ]
    else some block

unfoldable pub draw_visible : Bool → ℤ → ℤ → M (Unit {0})
draw_visible true text_x prompt_y s =
    continue (lift (draw_cursor text_x prompt_y s) s) (λ sc. put (record s { screen = sc }))
draw_visible false text_x prompt_y s = some (tt, s)

unfoldable pub shell_draw_input_line : M (Unit {0})
shell_draw_input_line = do
  s ← get
  let prompt_x = sub_ℕ s.screen.cursor_position_x (2 * char_width)
  let prompt_y = pos s.screen.cursor_position_y
  let text_x = prompt_x +ℤ pos (2 * char_width)
  display (λ sc.
      some
        (draw_rect prompt_x prompt_y (pos sc.fb_width -ℤ prompt_x) (pos line_height) bg_color sc))
  display (draw_string prompt_x prompt_y (literal (codes "$ ")) text_color)
  display (draw_string text_x prompt_y s.input_buffer text_color)
  draw_visible s.cursor_visible text_x prompt_y

unfoldable pub shell_update_cursor : M (Unit {0})
shell_update_cursor s =
    if leb 30 (s.cursor_blink_counter + 1)
    then shell_draw_input_line
        (record s { cursor_visible = not s.cursor_visible; cursor_blink_counter = 0 })
    else some (tt, record s { cursor_blink_counter = s.cursor_blink_counter + 1 })

-- `for (; left > 0; left--, i++) b[i] = b[i + d];`
unfoldable pub shift_left : ℕ → ℕ → ℕ → Buffer → Option Buffer
shift_left zero i d b = some b
shift_left (suc left) i d b =
    Base.◌>>=◌ (CString.load b (i + d))
      λ c. Base.◌>>=◌ (CString.store b i c) λ b₁. shift_left left (i + 1) d b₁

-- `for (i = from + left; i > from; i--) b[i] = b[i - 1];`
unfoldable pub shift_right : ℕ → ℕ → Buffer → Option Buffer
shift_right zero from b = some b
shift_right (suc left) from b =
    Base.◌>>=◌ (CString.load b (from + left))
      λ c. Base.◌>>=◌ (CString.store b (from + suc left) c) λ b₁. shift_right left from b₁

-- Takes `count` characters out of the line at `start`, and puts the cursor there.
unfoldable pub remove_chars : ℕ → ℕ → ℕ → M (Unit {0})
remove_chars rounds start count = do
  s ← get
  b ← lift (shift_left rounds start count s.input_buffer)
  put (record s { input_buffer = b; input_index = s.input_index - count; cursor_pos = start })
  set_input (s.input_index - count) 0
  shell_draw_input_line

unfoldable pub shell_backspace : M (Unit {0})
shell_backspace s =
    if ltb 0 s.cursor_pos
    then remove_chars (s.input_index - (s.cursor_pos - 1)) (s.cursor_pos - 1) 1 s
    else some (tt, s)

unfoldable pub shell_delete : M (Unit {0})
shell_delete s =
    if ltb s.cursor_pos s.input_index
    then remove_chars (s.input_index - s.cursor_pos) s.cursor_pos 1 s
    else some (tt, s)

unfoldable pub shell_move_cursor_left : M (Unit {0})
shell_move_cursor_left s =
    if ltb 0 s.cursor_pos
    then shell_draw_input_line (record s { cursor_pos = s.cursor_pos - 1 })
    else some (tt, s)

unfoldable pub shell_move_cursor_right : M (Unit {0})
shell_move_cursor_right s =
    if ltb s.cursor_pos s.input_index
    then shell_draw_input_line (record s { cursor_pos = s.cursor_pos + 1 })
    else some (tt, s)

unfoldable pub shell_move_cursor_home : M (Unit {0})
shell_move_cursor_home s = shell_draw_input_line (record s { cursor_pos = 0 })

unfoldable pub shell_move_cursor_end : M (Unit {0})
shell_move_cursor_end s = shell_draw_input_line (record s { cursor_pos = s.input_index })

unfoldable pub shell_clear_input : M (Unit {0})
shell_clear_input s =
    (set_input 0 0 >> shell_draw_input_line) (record s { input_index = 0; cursor_pos = 0 })

unfoldable pub shell_cancel_input : M (Unit {0})
shell_cancel_input = do
  shell_clear_input
  display Terminal.shell_newline
  display (Terminal.shell_print (literal (codes "^C\n")))
  display Terminal.shell_print_prompt
  shell_draw_input_line
