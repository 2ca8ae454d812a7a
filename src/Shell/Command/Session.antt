-- ===== src/Shell/Command/Session.antt =====
-- Sessions of kernel/src/shell/shell.c: the start and any keys after it.
use bin_os_c.Base.{ℕ, ◌<◌, ◌≡◌, refl, inl, inr, ◌||◌, some, List, [], ◌∷◌, arith, ◌==◌, Bool-cases}
use bin_os_c.Terminal.Laws.{Ready, prompt-Prints}
use bin_os_c.Shell.{Shell, ◌>>◌, max_history_entries, max_input_length}
use bin_os_c.Shell.Keys.{input-IsShell}
use bin_os_c.Shell.Shift.{written, store-inside}
use bin_os_c.Shell.State.{IsShell}
use bin_os_c.Shell.Command.{
  Args, shell_init, shell_print_welcome, welcome, type_key, type_keys, clear_array,
}
use bin_os_c.Shell.Command.Args.{HasRoom}
use bin_os_c.Shell.Command.Run.{cmd_clear-Only, say-Only}
use bin_os_c.Shell.Command.Parse.{empty-IsString, parse_command-Runs}

-- What the linker and the boot loader give: the arrays, and a screen that a line fits on.
pub record Blank (s : Shell) : Type 0 where
  pub input_size : s.input_buffer.size ≡ max_input_length
  pub command_size : s.command_buffer.size ≡ max_input_length
  pub history_size : (j : ℕ) → j < max_history_entries → (s.history j).size ≡ max_input_length
  pub ready : Ready s.screen

-- The start makes a well-formed shell with an empty line.
pub shell_init-IsShell :
    (s : Shell)
    → Blank s
    → (s' : Shell) × (shell_init s ≡ some (tt, s')) × IsShell s' × (s'.input_index ≡ 0)
unfolding shell_init shell_print_welcome clear_array
shell_init-IsShell s blank =
    let b = written s.command_buffer 0 0 in
    let b₁ = written s.input_buffer 0 0 in
    let s₁ = record s {
      command_buffer = b;
      input_buffer = b₁;
      history = λ i. clear_array (s.history i);
      input_index = 0;
      cursor_pos = 0;
      history_index = 0;
      history_current = 0;
      cursor_blink_counter = 0;
    } in
    let (sc₁, run₁, r₁) = cmd_clear-Only s₁ blank.ready in
    let s₂ = record s₁ { screen = sc₁ } in
    let (sc₂, run₂, r₂) = say-Only welcome refl s₂ r₁ in
    let (sc₃, run₃, r₃) = prompt-Prints sc₂ r₂ in
    (
      record s₁ { screen = sc₃ },
      rw (
        store-inside s.command_buffer 0 0 (omega (arith, blank.command_size)),
        store-inside s.input_buffer 0 0 (omega (arith, blank.input_size)),
        run₁,
        run₂,
        run₃,
      ),
      record {
        input_size = blank.input_size;
        line = empty-IsString b₁ blank.input_size refl;
        cursor_fits = omega arith;
        command = (blank.command_size, (0, empty-IsString b blank.command_size refl));
        index_fits = omega arith;
        current_fits = omega arith;
        entries = λ j lt. (
          blank.history_size j lt,
          (0, empty-IsString (clear_array (s.history j)) (blank.history_size j lt) refl),
        );
        ready = r₃;
      },
      refl,
    )

pub type_key-IsShell :
    (args : Args) (c : ℕ) (s : Shell)
    → HasRoom args
    → IsShell s
    → (s' : Shell) × (type_key args c s ≡ some (tt, s')) × IsShell s'
unfolding type_key
type_key-IsShell args c s room is =
    let (s₁, run₁, is₁) = input-IsShell c s is in
    elim (Bool-cases (c == 10 || c == 13)) [
      | inl enter ↦
          let (s₂, run₂, is₂, ran, effect) = parse_command-Runs args s₁ room is₁ in
          (s₂, rw (run₁, enter) run₂, is₂)
      | inr other ↦ (s₁, rw (run₁, other), is₁)
    ]

pub type_keys-IsShell :
    (args : Args) (cs : List ℕ) (s : Shell)
    → HasRoom args
    → IsShell s
    → (s' : Shell) × (type_keys args cs s ≡ some (tt, s')) × IsShell s'
unfolding type_keys
type_keys-IsShell args [] s room is = (s, refl, is)
type_keys-IsShell args (c ∷ cs) s room is =
    let (s₁, run₁, is₁) = type_key-IsShell args c s room is in
    let (s₂, run₂, is₂) = type_keys-IsShell args cs s₁ room is₁ in (s₂, rw run₁ run₂, is₂)

-- From arrays of the sizes that the source declares and a screen that has room for a line, with
-- an argument array of eight rows of 32 bytes: after `shell_init`, any sequence of characters is
-- taken to its end without a fault, the commands that are entered included, and leaves a
-- well-formed shell.
pub session-IsShell :
    (args : Args) (cs : List ℕ) (s : Shell)
    → HasRoom args
    → Blank s
    → (s' : Shell) × ((shell_init >> type_keys args cs) s ≡ some (tt, s')) × IsShell s'
session-IsShell args cs s room blank =
    let (s₁, run₁, is₁, empty) = shell_init-IsShell s blank in
    let (s₂, run₂, is₂) = type_keys-IsShell args cs s₁ room is₁ in (s₂, rw run₁ run₂, is₂)
