-- ===== src/Shell/Command/Parse.antt =====
-- Whole commands of kernel/src/shell/shell.c.
use bin_os_c.Base.{
  ℕ, zero, suc, ◌≢◌, true, false, ◌<◌, ◌≡◌, refl, subst, ◌⊎◌, inl, inr, Option, some, arith, ◌==◌,
  Bool-cases,
}
use bin_os_c.CString.{Buffer}
use bin_os_c.CString.Laws.{IsString, load-inside}
use bin_os_c.Draw.{Screen}
use bin_os_c.Terminal.Laws.{prompt-Prints}
use bin_os_c.Shell.{Shell, max_input_length}
use bin_os_c.Shell.Line.{screen-IsShell, draw-Drawn}
use bin_os_c.Shell.Shift.{written, store-inside}
use bin_os_c.Shell.State.{IsShell}
use bin_os_c.Shell.Command.{
  Args, Command, hello, help, clear, echo, history, uptime, exit, unknown, run_command,
  prompt_again, returns, finish_command, parse_command,
}
use bin_os_c.Shell.Command.Args.{HasRoom, Splits, parse_args-Splits, Splits-IsString}
use bin_os_c.Shell.Command.Word.{Blanks}
use bin_os_c.Shell.Command.Find.{Found, find_command-Found}
use bin_os_c.Shell.Command.Run.{run_command-Shows}

-- The line and the history are as they were; so is the command, or it is empty.
pub record Ran (s s' : Shell) : Type 0 where
  pub line : s'.input_buffer ≡ s.input_buffer
  pub length : s'.input_index ≡ s.input_index
  pub cursor : s'.cursor_pos ≡ s.cursor_pos
  pub history : s'.history ≡ s.history
  pub history_index : s'.history_index ≡ s.history_index
  pub command : (s'.command_buffer ≡ s.command_buffer) ⊎ (s'.command_buffer.at 0 ≡ 0)

-- A command that is neither empty nor blank, of `n` characters: its arguments are the words of the
-- array, the command is the one that the first of them names, and it runs with them. Then, unless
-- that was `exit`, the array is emptied and the prompt is shown.
pub record Executes (n : ℕ) (s s' : Shell) : Type 0 where
  pub args : Args
  pub argc : ℕ
  pub name_length : ℕ
  pub command : Command
  pub screen : Screen
  pub given : 0 < argc
  pub splits : Splits s.command_buffer n 0 args 0 argc
  pub name : IsString (args 0) name_length
  pub found : Found (args 0) name_length command
  pub shows : run_command command argc args s ≡ some (tt, record s { screen = screen })
  pub leaves :
      (command ≡ exit) × (s' ≡ record s { screen = screen })
      ⊎ (command ≢ exit)
        × (s'.command_buffer ≡ written s.command_buffer 0 0)
        × (prompt_again
              (record s { command_buffer = written s.command_buffer 0 0; screen = screen })
            ≡ some (tt, s'))

-- What a command of `n` characters does: nothing but the prompt if it is empty or blank.
abbrev pub Effect : ℕ → Shell → Shell → Type 0
Effect n s s' =
    Blanks s.command_buffer 0 n
      × (s'.command_buffer ≡ s.command_buffer)
      × (prompt_again s ≡ some (tt, s'))
    ⊎ Executes n s s'

-- The command runs to its end.
abbrev pub Runs : Shell → Option (Unit {0} × Shell) → Type 0
Runs s o =
    (s' : Shell) × (o ≡ some (tt, s'))
    × IsShell s'
    × Ran s s'
    × ((n : ℕ) × IsString s.command_buffer n × Effect n s s')

same_shell : (sc : Screen) (s : Shell) → Ran s (record s { screen = sc })
same_shell sc s = record {
  line = refl;
  length = refl;
  cursor = refl;
  history = refl;
  history_index = refl;
  command = inl refl;
}

prompt_again-Shows :
    (s : Shell)
    → IsShell s
    → (sc : Screen) × (prompt_again s ≡ some (tt, record s { screen = sc }))
      × IsShell (record s { screen = sc })
unfolding prompt_again
prompt_again-Shows s is =
    let (sc₁, run₁, r₁) = prompt-Prints s.screen is.ready in
    let (sc₂, run₂, is₂) = draw-Drawn (record s { screen = sc₁ }) (screen-IsShell sc₁ s r₁ is) in
    (sc₂, rw run₁ run₂, is₂)

-- Nothing but the prompt.
prompt_again-Runs :
    (n : ℕ) (s : Shell)
    → IsString s.command_buffer n
    → Blanks s.command_buffer 0 n
    → IsShell s
    → Runs s (prompt_again s)
prompt_again-Runs n s string blank is =
    let (sc, run, is') = prompt_again-Shows s is in
    (record s { screen = sc }, run, is', same_shell sc s, (n, string, inl (blank, refl, run)))

pub empty-IsString : (b : Buffer) → b.size ≡ max_input_length → b.at 0 ≡ 0 → IsString b 0
empty-IsString b size e = record {
  chars = λ j lt. absurd (omega arith);
  ends = ground arith;
  inside = omega (arith, size);
}

-- The same shell with an empty command.
emptied-IsShell :
    (s : Shell) → IsShell s → IsShell (record s { command_buffer = written s.command_buffer 0 0 })
emptied-IsShell s is = record {
  input_size = is.input_size;
  line = is.line;
  cursor_fits = is.cursor_fits;
  command = (is.command.0, (0, empty-IsString (written s.command_buffer 0 0) is.command.0 refl));
  index_fits = is.index_fits;
  current_fits = is.current_fits;
  entries = is.entries;
  ready = is.ready;
}

finish-Shows :
    (s : Shell)
    → IsShell s
    → (sc : Screen) × (finish_command s
        ≡ some (tt, record s { command_buffer = written s.command_buffer 0 0; screen = sc }))
      × IsShell (record s { command_buffer = written s.command_buffer 0 0; screen = sc })
      × (prompt_again (record s { command_buffer = written s.command_buffer 0 0 })
          ≡ some (tt, record s { command_buffer = written s.command_buffer 0 0; screen = sc }))
unfolding finish_command
finish-Shows s is =
    let s₁ = record s { command_buffer = written s.command_buffer 0 0 } in
    let (sc, run, is') = prompt_again-Shows s₁ (emptied-IsShell s is) in
    (sc, rw (store-inside s.command_buffer 0 0 (omega (arith, is.command.0))) run, is', run)

emptied_shell :
    (sc : Screen) (s : Shell)
    → Ran s (record s { command_buffer = written s.command_buffer 0 0; screen = sc })
emptied_shell sc s = record {
  line = refl;
  length = refl;
  cursor = refl;
  history = refl;
  history_index = refl;
  command = inr refl;
}

returns-exit : (c : Command) → returns c ≡ true → c ≡ exit
returns-exit exit e = refl
returns-exit hello e = ground arith
returns-exit help e = ground arith
returns-exit clear e = ground arith
returns-exit echo e = ground arith
returns-exit history e = ground arith
returns-exit uptime e = ground arith
returns-exit unknown e = ground arith

stays_ne_exit : (c : Command) → returns c ≡ false → c ≢ exit
stays_ne_exit c e h =
    let absurd_test : returns exit ≡ false = subst (λ c'. returns c' ≡ false) h e in ground arith

-- An empty command has no characters.
no_chars : (b : Buffer) (n : ℕ) → IsString b n → b.at 0 ≡ 0 → Blanks b 0 n
no_chars b zero is e = λ j ge lt. absurd (omega arith)
no_chars b (suc n) is e = absurd (is.chars 0 (omega arith) e)

-- A command without arguments is blank.
no_words :
    (b : Buffer) (n : ℕ) (args : Args) (argc : ℕ)
    → Splits b n 0 args 0 argc
    → argc ≡ 0
    → Blanks b 0 n
no_words b n args zero (inl full) e = absurd (omega arith)
no_words b n args zero (inr blank) e = blank
no_words b n args (suc argc) splits e = absurd (omega arith)

pub parse_command-Runs :
    (args : Args) (s : Shell) → HasRoom args → IsShell s → Runs s (parse_command args s)
unfolding parse_command
parse_command-Runs args s room is =
    let (size, (n, command)) = is.command in
    let load = load-inside s.command_buffer 0 (omega (arith, size)) in
    elim (Bool-cases (s.command_buffer.at 0 == 0)) [
      | inl nothing ↦
          rw (load, nothing)
            (prompt_again-Runs n s command (no_chars s.command_buffer n command (ground arith)) is)
      | inr something ↦
          let (args₁, argc, run₁, most, splits) =
            parse_args-Splits s.command_buffer n args command room in
          elim (Bool-cases (argc == 0)) [
            | inl none_given ↦
                rw (load, something, run₁, none_given)
                  (prompt_again-Runs n s command
                    (no_words s.command_buffer n args₁ argc splits (ground arith)) is)
            | inr given ↦
                let strings = λ (j : ℕ) (lt : j < argc).
                  Splits-IsString s.command_buffer n 0 args₁ 0 argc splits j (omega arith)
                    (omega arith) in
                let (l, name) = strings 0 (ground arith) in
                let (c, run₂, found) = find_command-Found (args₁ 0) l s name in
                let (sc, run₃, r) = run_command-Shows c argc args₁ s strings is in
                let s₁ = record s { screen = sc } in
                let is₁ = screen-IsShell sc s r is in
                elim (Bool-cases (returns c)) [
                  | inl leave ↦ (
                    s₁,
                    rw (load, something, run₁, given, run₂, run₃, leave),
                    is₁,
                    same_shell sc s,
                    (
                      n,
                      command,
                      inr (record {
                        args = args₁;
                        argc = argc;
                        name_length = l;
                        command = c;
                        screen = sc;
                        given = ground arith;
                        splits = splits;
                        name = name;
                        found = found;
                        shows = run₃;
                        leaves = inl (returns-exit c leave, refl);
                      }),
                    ),
                  )
                  | inr stay ↦
                      let (sc₂, run₄, is₂, prompts) = finish-Shows s₁ is₁ in
                      (
                        record s { command_buffer = written s.command_buffer 0 0; screen = sc₂ },
                        rw (load, something, run₁, given, run₂, run₃, stay) run₄,
                        is₂,
                        emptied_shell sc₂ s,
                        (
                          n,
                          command,
                          inr (record {
                            args = args₁;
                            argc = argc;
                            name_length = l;
                            command = c;
                            screen = sc;
                            given = ground arith;
                            splits = splits;
                            name = name;
                            found = found;
                            shows = run₃;
                            leaves = inr (stays_ne_exit c stay, refl, prompts);
                          }),
                        ),
                      )
                ]
          ]
    ]
