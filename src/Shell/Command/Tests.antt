-- ===== src/Shell/Command/Tests.antt =====
-- Commands at a small shell.
use bin_os_c.Base.{ℕ, ◌+◌, ◌≤◌, ◌≡◌, refl, some}
use bin_os_c.CString.{Buffer}
use bin_os_c.Terminal.{literal, codes}
use bin_os_c.Terminal.Laws.{literal-IsString}
use bin_os_c.Shell.{Shell, ◌>>◌}
use bin_os_c.Shell.State.{IsShell}
use bin_os_c.Shell.Tests.{console-Ready, prompt, prompt-IsShell}
use bin_os_c.Shell.Command.{
  Args, Command, max_args, parse_args, find_command, shell_init, type_keys,
}
use bin_os_c.Shell.Command.Args.{HasRoom, Splits, parse_args-Splits}
use bin_os_c.Shell.Command.Find.{Found, find_command-Found}
use bin_os_c.Shell.Command.Session.{Blank, session-IsShell}

-- The stack holds anything.
abbrev junk : Args
junk k = record { size = 32; at = λ i. i + k }

junk-HasRoom : HasRoom junk
junk-HasRoom k lt = refl

abbrev hello_there : Buffer
hello_there = literal (codes " hello\t there ")

parse_args-Splits_example :
    (args : Args) × (argc : ℕ) × (parse_args hello_there junk ≡ some (args, argc))
    × (argc ≤ max_args)
    × Splits hello_there 14 0 args 0 argc
parse_args-Splits_example =
    parse_args-Splits hello_there 14 junk (literal-IsString (codes " hello\t there ") refl)
      junk-HasRoom

find_command-Found_example :
    (c : Command) × (find_command (literal (codes "echo")) prompt ≡ some (c, prompt))
    × Found (literal (codes "echo")) 4 c
find_command-Found_example =
    find_command-Found (literal (codes "echo")) 4 prompt (literal-IsString (codes "echo") refl)

prompt-Blank : Blank prompt
prompt-Blank = record {
  input_size = refl;
  command_size = refl;
  history_size = λ j lt. (prompt-IsShell.entries j lt).0;
  ready = console-Ready;
}

session-IsShell_example :
    (s : Shell) × ((shell_init >> type_keys junk (codes "echo a\n")) prompt ≡ some (tt, s))
    × IsShell s
session-IsShell_example = session-IsShell junk (codes "echo a\n") prompt junk-HasRoom prompt-Blank
