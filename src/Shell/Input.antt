-- ===== src/Shell/Input.antt =====
-- kernel/src/shell/shell.c: the history, and `input`, which takes one character.
use bin_os_c.Base.{
  ℕ, zero, suc, ◌+◌, ◌-◌, ◌%◌, Bool, true, false, ◌&&◌, ◌||◌, not, Option, none, some, leb, ltb,
  ◌==◌, if◌then◌else◌,
}
use bin_os_c.Base
use bin_os_c.Base.Int.{ℤ, pos, negsuc}
use bin_os_c.CString
use bin_os_c.CString.{Buffer, strlen, strcmp, strcpy, strncpy}
use bin_os_c.Draw.{clear_screen, move_cursor_to}
use bin_os_c.Terminal
use bin_os_c.Terminal.{bg_color}
use bin_os_c.Shell.{
  Shell, M, get, put, pure, lift, display, set_input, ◌>>=◌, ◌>>◌, max_input_length,
  max_history_entries, shell_draw_input_line, shift_right, remove_chars, shell_backspace,
  shell_delete, shell_move_cursor_home, shell_move_cursor_end, shell_clear_input,
  shell_cancel_input,
}

abbrev pub destination : Option CString.Str → Option Buffer
destination none = none
destination (some none) = none
destination (some (some b)) = some b

-- `strcpy` between two of the arrays, and the destination afterwards.
unfoldable pub copy_string : Buffer → Buffer → M Buffer
copy_string dest src = lift (destination (strcpy (some dest) (some src)))

abbrev pub is_zero : ℤ → Bool
is_zero (pos d) = d == 0
is_zero (negsuc d) = false

unfoldable pub set_history : ℕ → Buffer → (ℕ → Buffer) → ℕ → Buffer
set_history i b history j = if j == i then b else history j

-- Stores the command behind the newest entry.
unfoldable pub append_history : Buffer → M (Unit {0})
append_history command = do
  s ← get
  entry ← copy_string (s.history s.history_index) command
  let next = (s.history_index + 1) % max_history_entries
  put (record s {
    history = set_history s.history_index entry s.history;
    history_index = next;
    history_current = next;
  })

-- `strlen(entry) > 0 && strcmp(entry, command) == 0`
unfoldable pub same_command : Buffer → Buffer → Option Bool
same_command entry command = Base.◌>>=◌ (strlen (some entry)) λ n.
    if n == 0
    then some false
    else Base.◌>>=◌ (strcmp (some entry) (some command)) λ r. some (is_zero r)

unfoldable pub shell_add_to_history : Buffer → M (Unit {0})
shell_add_to_history command = do
  n ← lift (strlen (some command))
  if n == 0 then pure tt else do
    s ← get
    let prev_index = (s.history_index + max_history_entries - 1) % max_history_entries
    same ← lift (same_command (s.history prev_index) command)
    if same then put (record s { history_current = s.history_index }) else append_history command

-- The entry `i` becomes the input line.
unfoldable pub recall : ℕ → M (Unit {0})
recall i = do
  s ← get
  b ← copy_string s.input_buffer (s.history i)
  n ← lift (strlen (some b))
  put (record s { input_buffer = b; input_index = n; cursor_pos = n; history_current = i })
  shell_draw_input_line

unfoldable pub shell_history_up : M (Unit {0})
shell_history_up = do
  s ← get
  let prev = (s.history_current + max_history_entries - 1) % max_history_entries
  n ← lift (strlen (some (s.history prev)))
  if ltb 0 n then recall prev else pure tt

unfoldable pub shell_history_down : M (Unit {0})
shell_history_down = do
  s ← get
  let next = (s.history_current + 1) % max_history_entries
  if next == s.history_index
      then (do shell_clear_input; s₁ ← get; put (record s₁ { history_current = s₁.history_index }))
      else recall next

-- `if (strlen(command_buffer) > 0) shell_add_to_history(command_buffer);`
unfoldable pub remember : Buffer → M (Unit {0})
remember command = do
  n ← lift (strlen (some command))
  if ltb 0 n then shell_add_to_history command else pure tt

-- Enter: the line becomes the command, and goes to the history if it is not empty.
unfoldable pub take_line : M (Unit {0})
take_line = do
  s ← get
  set_input s.input_index 0
  s₁ ← get
  copied ← lift (strncpy (some s₁.command_buffer) (some s₁.input_buffer) (max_input_length - 1))
  b ← lift copied
  command ← lift (CString.store b (max_input_length - 1) 0)
  put (record s₁ { command_buffer = command })
  remember command
  display Terminal.shell_newline
  shell_clear_input

-- `while (start > 0 && input_buffer[start] == ' ') start--;`
unfoldable pub skip_spaces : ℕ → Buffer → Option ℕ
skip_spaces zero b = some 0
skip_spaces (suc n) b =
    Base.◌>>=◌ (CString.load b (suc n))
      λ c. let rest = skip_spaces n b in if c == b' ' then rest else some (suc n)

unfoldable pub skip_word : ℕ → Buffer → Option ℕ
skip_word zero b = some 0
skip_word (suc n) b =
    Base.◌>>=◌ (CString.load b (suc n))
      λ c. let rest = skip_word n b in if c == b' ' then some (suc n) else rest

-- Where the word in front of the cursor starts.
unfoldable pub word_start : ℕ → Buffer → Option ℕ
unfolding skip_spaces skip_word
word_start cursor_pos b = Base.◌>>=◌ (skip_spaces (cursor_pos - 1) b) λ end.
    Base.◌>>=◌ (skip_word end b)
      λ start. Base.◌>>=◌ (CString.load b start) λ c. some (if c == b' ' then start + 1 else start)

unfoldable pub delete_word : M (Unit {0})
delete_word s =
    if ltb 0 s.cursor_pos
    then (do
      start ← lift (word_start s.cursor_pos s.input_buffer)
      let chars_to_remove = s.cursor_pos - start
      remove_chars (s.input_index - chars_to_remove - start) start chars_to_remove)
        s
    else some (tt, s)

-- `received >= 32 && received <= 126 && input_index < MAX_INPUT_LENGTH - 1`
unfoldable pub takes : ℕ → Shell → Bool
takes received s = leb 32 received && leb received 126 && ltb s.input_index (max_input_length - 1)

unfoldable pub type_char : ℕ → M (Unit {0})
type_char received = do
  s ← get
  b ← lift (shift_right (s.input_index - s.cursor_pos) s.cursor_pos s.input_buffer)
  put (record s { input_buffer = b })
  set_input s.cursor_pos received
  s₁ ← get
  put (record s₁ { cursor_pos = s.cursor_pos + 1; input_index = s.input_index + 1 })
  set_input (s.input_index + 1) 0
  shell_draw_input_line

unfoldable pub insert_char : ℕ → M (Unit {0})
insert_char received s = if takes received s then type_char received s else some (tt, s)

unfoldable pub kill_to_end : M (Unit {0})
kill_to_end = do
  s ← get
  set_input s.cursor_pos 0
  s₁ ← get
  put (record s₁ { input_index = s.cursor_pos })
  shell_draw_input_line

unfoldable pub redraw_screen : M (Unit {0})
redraw_screen = do
  display (λ sc. some (move_cursor_to 0 0 (clear_screen bg_color sc)))
  display Terminal.shell_print_prompt
  shell_draw_input_line

-- The last cases of the `switch`, and its default.
unfoldable pub control : ℕ → M (Unit {0})
control received =
    if received == 12
    then redraw_screen
    else if received == 11
    then kill_to_end
    else if received == 21
    then shell_clear_input
    else if received == 23
    then delete_word
    else if received == 27
    then pure tt
    else insert_char received

-- The keys that do not end the line.
unfoldable pub edit : ℕ → M (Unit {0})
edit received =
    if received == 8 || received == 127
    then shell_backspace
    else if received == 3
    then shell_cancel_input
    else if received == 4
    then shell_delete
    else if received == 1
    then shell_move_cursor_home
    else if received == 5
    then shell_move_cursor_end
    else control received

-- Whether a command is there to run, in `command_buffer`; otherwise the source returns NULL.
unfoldable pub input : ℕ → M Bool
input received =
    if received == 10 || received == 13 then take_line >> pure true else edit received >> pure false
