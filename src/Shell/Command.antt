-- ===== src/Shell/Command.antt =====
-- kernel/src/shell/shell.c: the commands, and the start of the shell.
pub mod Args
pub mod Find
pub mod Parse
pub mod Run
pub mod Session
mod Tests
pub mod Word
use bin_os_c.Base.{
  ℕ, zero, suc, ◌+◌, ◌-◌, ◌%◌, Bool, true, false, ◌||◌, Option, none, some, ltb, ◌==◌,
  if◌then◌else◌, List, [], ◌∷◌, ◌++◌,
}
use bin_os_c.Base
use bin_os_c.CString
use bin_os_c.CString.{Buffer, strlen, strcmp}
use bin_os_c.Draw.{Screen, clear_screen, move_cursor_to}
use bin_os_c.Terminal.{
  literal, codes, text_color, bg_color, shell_print, shell_print_color, shell_print_prompt,
}
use bin_os_c.Shell.{
  Shell, M, get, put, pure, lift, display, ◌>>=◌, ◌>>◌, max_history_entries, max_input_length,
  shell_draw_input_line,
}
use bin_os_c.Shell.Input.{is_zero, input}

abbrev pub max_args : ℕ
max_args = 8

abbrev pub max_arg_length : ℕ
max_arg_length = 32

abbrev pub error_color : ℕ
error_color = 0xffff_0000

abbrev pub success_color : ℕ
success_color = 0xff00_ff00

-- `char args[MAX_ARGS][MAX_ARG_LENGTH]`
abbrev pub Args : Type 0
Args = ℕ → Buffer

abbrev pub is_blank : ℕ → Bool
is_blank c = c == b' ' || c == 9

-- `while (command[i] == ' ' || command[i] == '\t') i++;`
unfoldable pub skip_blanks : ℕ → Buffer → ℕ → Option ℕ
skip_blanks zero command i = none
skip_blanks (suc k) command i =
    Base.◌>>=◌ (CString.load command i)
      λ c. let rest = skip_blanks k command (i + 1) in if is_blank c then rest else some i

-- The loop that copies one argument; `j` goes up as `left` goes down from `MAX_ARG_LENGTH - 1`.
unfoldable pub copy_word : ℕ → Buffer → ℕ → Buffer → ℕ → Option (ℕ × Buffer × ℕ)
copy_word zero command i arg j = Base.◌>>=◌ (CString.load command i) λ c. some (i, arg, j)
copy_word (suc left) command i arg j = Base.◌>>=◌ (CString.load command i) λ c.
    if c == 0 || is_blank c
    then some (i, arg, j)
    else Base.◌>>=◌ (CString.store arg j c) λ arg₁. copy_word left command (i + 1) arg₁ (j + 1)

unfoldable pub set_arg : ℕ → Buffer → Args → Args
set_arg k arg args j = if j == k then arg else args j

-- The outer loop, with room for `left` more arguments.
unfoldable pub parse_loop : ℕ → Buffer → ℕ → Args → ℕ → Option (Args × ℕ)
parse_loop zero command i args argc = Base.◌>>=◌ (CString.load command i) λ c. some (args, argc)
parse_loop (suc left) command i args argc = Base.◌>>=◌ (CString.load command i) λ c.
    if c == 0
    then some (args, argc)
    else Base.◌>>=◌ (skip_blanks (command.size + 1) command i) λ i₁.
      Base.◌>>=◌ (CString.load command i₁) λ c₁.
        if c₁ == 0
        then some (args, argc)
        else Base.◌>>=◌ (copy_word (max_arg_length - 1) command i₁ (args argc) 0) λ (i₂, arg, j).
          Base.◌>>=◌ (CString.store arg j 0)
            λ arg₁. parse_loop left command i₂ (set_arg argc arg₁ args) (argc + 1)

unfoldable pub parse_args : Buffer → Args → Option (Args × ℕ)
parse_args command args = parse_loop max_args command 0 args 0

-- `shell_print` of an array.
abbrev pub print : Buffer → M (Unit {0})
print text = display (shell_print text)

abbrev pub say : List ℕ → M (Unit {0})
say cs = display (shell_print (literal cs))

unfoldable pub shell_error : List ℕ → M (Unit {0})
shell_error text = do
  display (shell_print_color (literal (codes "Error: ")) error_color)
  say text
  say (codes ": ")
  s ← get
  print s.command_buffer
  say (codes "\n")

unfoldable pub shell_success : List ℕ → M (Unit {0})
shell_success text = do display (shell_print_color (literal text) success_color); say (codes "\n")

abbrev help_text : List ℕ
help_text =
    codes "Available commands:\n"
    ++ codes "  hello [name]  - Display greeting\n"
    ++ codes "  help          - Show this help message\n"
    ++ codes "  clear         - Clear the screen\n"
    ++ codes "  echo <text>   - Echo text to screen\n"
    ++ codes "  history       - Show command history\n"
    ++ codes "  uptime        - Show system uptime\n"
    ++ codes "  exit          - Exit the shell\n"
    ++ codes "\nNavigation:\n"
    ++ codes "  Ctrl+C        - Cancel current input\n"
    ++ codes "  Ctrl+L        - Clear screen\n"
    ++ codes "  Ctrl+A        - Move to beginning of line\n"
    ++ codes "  Ctrl+E        - Move to end of line\n"
    ++ codes "  Ctrl+K        - Kill to end of line\n"
    ++ codes "  Ctrl+U        - Kill entire line\n"
    ++ codes "  Ctrl+W        - Kill word backward\n"
    ++ codes "  Left/Right    - Move cursor\n"
    ++ codes "  Home/End      - Move to line start/end\n"

unfoldable pub cmd_help : M (Unit {0})
cmd_help = say help_text

unfoldable pub cmd_hello : ℕ → Args → M (Unit {0})
cmd_hello argc args =
    if ltb 1 argc
    then (do say (codes "Hello, "); print (args 1); say (codes "!\n"))
    else say (codes "Hello, World!\n")

unfoldable pub cmd_clear : M (Unit {0})
cmd_clear = display (λ sc. some (move_cursor_to 0 0 (clear_screen bg_color sc)))

-- The arguments from `i` on, `left` of them.
unfoldable pub echo_loop : ℕ → ℕ → ℕ → Args → M (Unit {0})
echo_loop zero i argc args = pure tt
echo_loop (suc left) i argc args = do
  print (args i)
  if ltb i (argc - 1) then say (codes " ") else pure tt
  echo_loop left (i + 1) argc args

unfoldable pub cmd_echo : ℕ → Args → M (Unit {0})
cmd_echo argc args =
    if ltb argc 2
    then shell_error (codes "echo: missing argument")
    else (do echo_loop (argc - 1) 1 argc args; say (codes "\n"))

unfoldable pub print_entry : Buffer → M (Unit {0})
print_entry entry = do say (codes "  "); print entry; say (codes "\n")

-- The entries from `i` on, `left` of them; the result is how many were printed.
unfoldable pub history_loop : ℕ → ℕ → ℕ → M ℕ
history_loop zero i count = pure count
history_loop (suc left) i count = do
  s ← get
  let entry = s.history ((s.history_index + i) % max_history_entries)
  n ← lift (strlen (some entry))
  if ltb 0 n then print_entry entry else pure tt
  history_loop left (i + 1) (if ltb 0 n then count + 1 else count)

unfoldable pub cmd_history : M (Unit {0})
cmd_history = do
  say (codes "Command history:\n")
  count ← history_loop max_history_entries 0 0
  if count == 0 then say (codes "  (no commands in history)\n") else pure tt

unfoldable pub cmd_uptime : M (Unit {0})
cmd_uptime = say (codes "System uptime: Unknown (uptime not implemented)\n")

unfoldable pub cmd_exit : M (Unit {0})
cmd_exit = shell_success (codes "Goodbye!")

unfoldable pub unknown_command : M (Unit {0})
unknown_command = do
  shell_error (codes "Unknown command")
  say (codes "Type 'help' for available commands.\n")

unfoldable pub prompt_again : M (Unit {0})
prompt_again = do display shell_print_prompt; shell_draw_input_line

-- `strcmp(args[0], name) == 0`
unfoldable pub is_named : Buffer → List ℕ → M Bool
is_named arg name = do r ← lift (strcmp (some arg) (some (literal name))); pure (is_zero r)

pub data Command : Type 0 where
  hello help clear echo history uptime exit unknown : Command

-- The chain of comparisons.
unfoldable pub find_command : Buffer → M Command
find_command arg = do
  b₁ ← is_named arg (codes "hello")
  if b₁ then pure hello else do
    b₂ ← is_named arg (codes "help")
    if b₂ then pure help else do
      b₃ ← is_named arg (codes "clear")
      if b₃ then pure clear else do
        b₄ ← is_named arg (codes "echo")
        if b₄ then pure echo else do
          b₅ ← is_named arg (codes "history")
          if b₅ then pure history else do
            b₆ ← is_named arg (codes "uptime")
            if b₆
                then pure uptime
                else do b₇ ← is_named arg (codes "exit"); if b₇ then pure exit else pure unknown

unfoldable pub run_command : Command → ℕ → Args → M (Unit {0})
run_command hello argc args = cmd_hello argc args
run_command help argc args = cmd_help
run_command clear argc args = cmd_clear
run_command echo argc args = cmd_echo argc args
run_command history argc args = cmd_history
run_command uptime argc args = cmd_uptime
run_command exit argc args = cmd_exit
run_command unknown argc args = unknown_command

-- `exit` returns at once.
abbrev pub returns : Command → Bool
returns exit = true
returns _ = false

-- `command_buffer[0] = '\0';` and what follows.
unfoldable pub finish_command : M (Unit {0})
finish_command = do
  s ← get
  b ← lift (CString.store s.command_buffer 0 0)
  put (record s { command_buffer = b })
  prompt_again

-- `args` is what the stack holds where the arguments go.
unfoldable pub parse_command : Args → M (Unit {0})
parse_command args = do
  s ← get
  c ← lift (CString.load s.command_buffer 0)
  if c == 0 then prompt_again else do
    (args₁, argc) ← lift (parse_args s.command_buffer args)
    if argc == 0 then prompt_again else do
      command ← find_command (args₁ 0)
      run_command command argc args₁
      if returns command then pure tt else finish_command

unfoldable pub clear_array : Buffer → Buffer
clear_array b = record b { at = λ i. 0 }

abbrev pub welcome : List ℕ
welcome = codes "Binbows Installer v1.2\nType 'help' for available commands.\n\n"

unfoldable pub shell_print_welcome : M (Unit {0})
shell_print_welcome = say welcome

unfoldable pub shell_init : M (Unit {0})
shell_init s =
    (do
      s₁ ← get
      b ← lift (CString.store s₁.command_buffer 0 0)
      b₁ ← lift (CString.store s₁.input_buffer 0 0)
      put (record s₁ {
        command_buffer = b;
        input_buffer = b₁;
        history = λ i. clear_array (s₁.history i);
      })
      cmd_clear
      shell_print_welcome
      display shell_print_prompt)
      (record s {
        input_index = 0;
        cursor_pos = 0;
        history_index = 0;
        history_current = 0;
        cursor_blink_counter = 0;
      })

-- What the keyboard does with a character: a command that is handed out is run.
unfoldable pub type_key : Args → ℕ → M (Unit {0})
type_key args c = do done ← input c; if done then parse_command args else pure tt

unfoldable pub type_keys : Args → List ℕ → M (Unit {0})
type_keys args [] = pure tt
type_keys args (c ∷ cs) = do type_key args c; type_keys args cs
