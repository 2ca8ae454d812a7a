-- ===== src/Shell/Command/Run.antt =====
-- What the commands of kernel/src/shell/shell.c change: the screen, and the command once it has run.
use bin_os_c.Base.{
  ℕ, zero, suc, ◌+◌, ◌-◌, ◌%◌, ◌≤◌, ◌<◌, ◌≡◌, refl, inl, inr, Bool, true, false, some, List, arith,
  length, ltb, ◌==◌, if◌then◌else◌, Bool-cases,
}
use bin_os_c.CString.{Buffer}
use bin_os_c.CString.Laws.{IsString, strlen-IsString}
use bin_os_c.Draw.{Screen, clear_screen, move_cursor_to}
use bin_os_c.Draw.Clear.{clear_screen-Draws}
use bin_os_c.Terminal
use bin_os_c.Terminal.{shell_print_color, literal, codes, bg_color, text_color, shell_print}
use bin_os_c.Terminal.Laws.{
  Ready, Draws-Ready, to-Ready, print_color-Prints, prompt-Prints, nonzero, literal-IsString,
}
use bin_os_c.Shell.{Shell, M, pure, ◌>>◌, display, max_history_entries}
use bin_os_c.Shell.State.{IsShell, HasString, DrawsLine}
use bin_os_c.Shell.Command.{
  Args, print, say, error_color, success_color, shell_error, shell_success, cmd_help, cmd_hello,
  cmd_clear, echo_loop, cmd_echo, print_entry, history_loop, cmd_history, cmd_uptime, cmd_exit,
  unknown_command, Command, hello, help, clear, echo, history, uptime, exit, unknown, run_command,
}

-- Only the screen is another, and it is ready.
abbrev pub Shows : M (Unit {0}) → Shell → Type 0
Shows m s = DrawsLine s (m s)

-- Whatever the shell holds, only the screen changes.
abbrev pub Only : M (Unit {0}) → Type 0
Only m = (s : Shell) → Ready s.screen → Shows m s

then-Shows :
    (m k : M (Unit {0})) (s : Shell)
    → Shows m s
    → ((sc : Screen) → Ready sc → Shows k (record s { screen = sc }))
    → Shows (m >> k) s
then-Shows m k s (sc, run, r) rest = let (sc', run', r') = rest sc r in (sc', rw run run', r')

then-Only : (m k : M (Unit {0})) → Only m → Only k → Only (m >> k)
then-Only m k first second s r =
    then-Shows m k s (first s r) (λ sc r'. second (record s { screen = sc }) r')

skip-Only : Only (pure tt)
skip-Only s r = (s.screen, refl, r)

print-Only : (b : Buffer) (n : ℕ) → IsString b n → Only (print b)
unfolding shell_print
print-Only b n is s r =
    let (sc, run, r') = print_color-Prints b n text_color s.screen is r in (sc, rw run, r')

pub say-Only : (cs : List ℕ) → nonzero cs ≡ true → Only (say cs)
say-Only cs ne = print-Only (literal cs) (length cs) (literal-IsString cs ne)

color-Only :
    (cs : List ℕ) (color : ℕ)
    → nonzero cs ≡ true
    → Only (display (shell_print_color (literal cs) color))
color-Only cs color ne s r =
    let (sc, run, r') =
      print_color-Prints (literal cs) (length cs) color s.screen (literal-IsString cs ne) r in
    (sc, rw run, r')

choose-Only : (b : Bool) (m k : M (Unit {0})) → Only m → Only k → Only (if b then m else k)
choose-Only true m k first second = first
choose-Only false m k first second = second

print_entry-Only : (b : Buffer) (n : ℕ) → IsString b n → Only (print_entry b)
unfolding print_entry
print_entry-Only b n is =
    then-Only (say (codes "  ")) _ (say-Only (codes "  ") refl)
      (then-Only (print b) _ (print-Only b n is) (say-Only (codes "\n") refl))

shell_success-Only : (cs : List ℕ) → nonzero cs ≡ true → Only (shell_success cs)
unfolding shell_success
shell_success-Only cs ne =
    then-Only _ _ (color-Only cs success_color ne) (say-Only (codes "\n") refl)

pub cmd_clear-Only : Only cmd_clear
unfolding cmd_clear
cmd_clear-Only s r =
    let sc = clear_screen bg_color s.screen in
    let r₁ = Draws-Ready s.screen sc (clear_screen-Draws bg_color s.screen) r in
    (move_cursor_to 0 0 sc, refl, to-Ready 0 0 sc r₁)

prompt-Only : Only (display Terminal.shell_print_prompt)
prompt-Only s r = let (sc, run, r') = prompt-Prints s.screen r in (sc, rw run, r')

-- The arguments below `argc` are strings.
abbrev pub Strings : Args → ℕ → Type 0
Strings args argc = (j : ℕ) → j < argc → (l : ℕ) × IsString (args j) l

cmd_hello-Only : (argc : ℕ) (args : Args) → Strings args argc → Only (cmd_hello argc args)
unfolding cmd_hello
cmd_hello-Only argc args strings = elim (Bool-cases (ltb 1 argc)) [
  | inl named ↦
      let (l, is) = strings 1 (ground arith) in
      rw named (
        then-Only (say (codes "Hello, ")) _ (say-Only (codes "Hello, ") refl)
          (then-Only (print (args 1)) _ (print-Only (args 1) l is) (say-Only (codes "!\n") refl)))
  | inr alone ↦ rw alone (say-Only (codes "Hello, World!\n") refl)
]

echo_loop-Only :
    (left i argc : ℕ) (args : Args)
    → i + left ≤ argc
    → Strings args argc
    → Only (echo_loop left i argc args)
unfolding echo_loop
echo_loop-Only zero i argc args le strings = skip-Only
echo_loop-Only (suc left) i argc args le strings =
    let (l, is) = strings i (omega arith) in
    then-Only (print (args i)) _ (print-Only (args i) l is) (
      then-Only (if ltb i (argc - 1) then say (codes " ") else pure tt) _
        (choose-Only (ltb i (argc - 1)) (say (codes " ")) (pure tt) (say-Only (codes " ") refl)
          skip-Only)
        (echo_loop-Only left (i + 1) argc args (omega arith) strings))

error-Shows :
    (cs : List ℕ) (n : ℕ) (s : Shell)
    → nonzero cs ≡ true
    → IsString s.command_buffer n
    → Ready s.screen
    → Shows (shell_error cs) s
unfolding shell_error
error-Shows cs n s ne is r =
    let (sc₁, run₁, r₁) = color-Only (codes "Error: ") error_color refl s r in
    let s₁ = record s { screen = sc₁ } in
    let (sc₂, run₂, r₂) = say-Only cs ne s₁ r₁ in
    let s₂ = record s { screen = sc₂ } in
    let (sc₃, run₃, r₃) = say-Only (codes ": ") refl s₂ r₂ in
    let s₃ = record s { screen = sc₃ } in
    let (sc₄, run₄, r₄) =
      then-Only (print s.command_buffer) (say (codes "\n")) (print-Only s.command_buffer n is)
        (say-Only (codes "\n") refl) s₃ r₃ in
    (sc₄, rw (run₁, run₂, run₃) run₄, r₄)

cmd_echo-Shows :
    (argc : ℕ) (args : Args) (n : ℕ) (s : Shell)
    → Strings args argc
    → IsString s.command_buffer n
    → Ready s.screen
    → Shows (cmd_echo argc args) s
unfolding cmd_echo
cmd_echo-Shows argc args n s strings is r = elim (Bool-cases (ltb argc 2)) [
  | inl few ↦ rw few (error-Shows (codes "echo: missing argument") n s refl is r)
  | inr more ↦ rw more (
      then-Only (echo_loop (argc - 1) 1 argc args) _
        (echo_loop-Only (argc - 1) 1 argc args (ground arith) strings) (say-Only (codes "\n") refl)
        s r)
]

unknown-Shows :
    (n : ℕ) (s : Shell) → IsString s.command_buffer n → Ready s.screen → Shows unknown_command s
unfolding unknown_command
unknown-Shows n s is r =
    then-Shows (shell_error (codes "Unknown command"))
      (say (codes "Type 'help' for available commands.\n")) s
      (error-Shows (codes "Unknown command") n s refl is r)
      λ sc r'.
        say-Only (codes "Type 'help' for available commands.\n") refl (record s { screen = sc }) r'

history_loop-Finds :
    (left i count : ℕ) (s : Shell)
    → ((j : ℕ) → j < max_history_entries → HasString (s.history j))
    → Ready s.screen
    → (c : ℕ) × (sc : Screen) × (history_loop left i count s ≡ some (c, record s { screen = sc }))
      × Ready sc
unfolding history_loop
history_loop-Finds zero i count s entries r = (count, s.screen, refl, r)
history_loop-Finds (suc left) i count s entries r =
    let entry = s.history ((s.history_index + i) % max_history_entries) in
    let (size, (n, is)) = entries ((s.history_index + i) % max_history_entries) (omega arith) in
    let (sc₁, run₁, r₁) =
      choose-Only (ltb 0 n) (print_entry entry) (pure tt) (print_entry-Only entry n is) skip-Only s
        r in
    let (c, sc₂, run₂, r₂) =
      history_loop-Finds left (i + 1) (if ltb 0 n then count + 1 else count)
        (record s { screen = sc₁ }) entries r₁ in
    (c, sc₂, rw (strlen-IsString entry n is, run₁) run₂, r₂)

cmd_history-Shows :
    (s : Shell)
    → ((j : ℕ) → j < max_history_entries → HasString (s.history j))
    → Ready s.screen
    → Shows cmd_history s
unfolding cmd_history
cmd_history-Shows s entries r =
    then-Shows (say (codes "Command history:\n")) _ s
      (say-Only (codes "Command history:\n") refl s r)
      λ sc₁ r₁.
        let (c, sc₂, run₂, r₂) =
          history_loop-Finds max_history_entries 0 0 (record s { screen = sc₁ }) entries r₁ in
        let (sc₃, run₃, r₃) =
          choose-Only (c == 0) (say (codes "  (no commands in history)\n")) (pure tt)
            (say-Only (codes "  (no commands in history)\n") refl) skip-Only
            (record s { screen = sc₂ }) r₂ in
        (sc₃, rw run₂ run₃, r₃)

-- Every command shows something on the screen and changes nothing else.
pub run_command-Shows :
    (c : Command) (argc : ℕ) (args : Args) (s : Shell)
    → Strings args argc
    → IsShell s
    → Shows (run_command c argc args) s
unfolding run_command cmd_help cmd_uptime cmd_exit
run_command-Shows hello argc args s strings is = cmd_hello-Only argc args strings s is.ready
run_command-Shows help argc args s strings is = say-Only _ refl s is.ready
run_command-Shows clear argc args s strings is = cmd_clear-Only s is.ready
run_command-Shows echo argc args s strings is =
    let (size, (n, command)) = is.command in cmd_echo-Shows argc args n s strings command is.ready
run_command-Shows history argc args s strings is = cmd_history-Shows s is.entries is.ready
run_command-Shows uptime argc args s strings is = say-Only _ refl s is.ready
run_command-Shows exit argc args s strings is =
    shell_success-Only (codes "Goodbye!") refl s is.ready
run_command-Shows unknown argc args s strings is =
    let (size, (n, command)) = is.command in unknown-Shows n s command is.ready
