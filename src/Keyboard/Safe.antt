-- ===== src/Keyboard/Safe.antt =====
-- Steps of kernel/src/ps2_keyboard/keyboard.c that end, with what becomes of the flags.
use bin_os_c.Base.{
  ℕ, ◌+◌, ◌-◌, ◌<◌, ◌≡◌, refl, ◌∙◌, Bool, true, false, not, ◌&&◌, ◌||◌, Option, some, List, [], ◌∷◌,
  arith, leb, ◌==◌, if◌then◌else◌, all_below, length,
}
use bin_os_c.Base.Int.{pos}
use bin_os_c.CString.{Buffer}
use bin_os_c.Terminal.{literal, codes, shell_print_prompt}
use bin_os_c.Terminal.Laws.{nonzero, literal-IsString, prompt-Prints}
use bin_os_c.Shell
use bin_os_c.Shell.{
  Shell, display, shell_cancel_input, shell_move_cursor_left, shell_move_cursor_right,
}
use bin_os_c.Shell.Keys.{Total, cancel_input-Total, forget}
use bin_os_c.Shell.Line.{screen-IsShell}
use bin_os_c.Shell.Move.{left-Cut, right-Cut}
use bin_os_c.Shell.State.{IsShell}
use bin_os_c.Shell.Command.{Args, cmd_clear, type_key}
use bin_os_c.Shell.Command.Args.{HasRoom}
use bin_os_c.Shell.Command.Run.{cmd_clear-Only}
use bin_os_c.Shell.Command.Session.{type_key-IsShell}
use bin_os_c.Io.{Ports, M, ◌>>◌, pure}
use bin_os_c.Serial.{Arg, int}
use bin_os_c.Serial.Line.{Uart}
use bin_os_c.Serial.Sends.{serial_printf-Sent}
use bin_os_c.Keyboard.{
  Keyboard, Machine, on_shell, printf, handle_special_key, handle_printable_key, control_character,
  type_and_report, get_character, key_esc, key_f1, key_f12, key_home, key_end, key_up, key_down,
  key_left, key_right, key_insert, key_delete, key_pgup, key_pgdown, key_tab,
}
use bin_os_c.Keyboard.Logs.{
  is_plain, Printable, plain-Printable, function_key-Printable, alt-Printable, character-Printable,
}

module _ {D : Type 0} {io : Ports D} {patience : ℕ} (u : Uart io patience) (args : Args)
    (stack : Buffer) (room : HasRoom args) (long : 11 < stack.size) where
  -- The shell is well formed, and the serial port is online.
  pub record IsMachine (m : Machine D) : Type 0 where
    pub shell : IsShell m.shell
    pub online : u.Online m.ports

  -- The step ends in such a machine, with these flags.
  abbrev pub Follows : Keyboard → Option (Unit {0} × Machine D) → Type 0
  Follows kb o = (m : Machine D) × (o ≡ some (tt, m)) × IsMachine m × (m.keyboard ≡ kb)

  abbrev pub Keeps : M (Machine D) (Unit {0}) → Type 0
  Keeps k = (m : Machine D) → IsMachine m → Follows m.keyboard (k m)

  pub then-Keeps : (k k' : M (Machine D) (Unit {0})) → Keeps k → Keeps k' → Keeps (k >> k')
  then-Keeps k k' first second m is =
      let (m₁, run₁, is₁, e₁) = first m is in
      let (m₂, run₂, is₂, e₂) = second m₁ is₁ in (m₂, rw run₁ run₂, is₂, e₂ ∙ e₁)

  pub choose-Keeps :
      (b : Bool) (k k' : M (Machine D) (Unit {0}))
      → Keeps k
      → Keeps k'
      → Keeps (if b then k else k')
  choose-Keeps true k k' yes_ no_ = yes_
  choose-Keeps false k k' yes_ no_ = no_

  -- The first step runs only under its condition.
  pub when-Keeps :
      (b : Bool) (k k' : M (Machine D) (Unit {0}))
      → (b ≡ true → Keeps k)
      → Keeps k'
      → Keeps (if b then k else k')
  when-Keeps true k k' yes_ no_ = yes_ refl
  when-Keeps false k k' yes_ no_ = no_

  pub nothing-Keeps : Keeps (pure tt)
  nothing-Keeps m is = (m, refl, is, refl)

  pub printf-Keeps :
      (cs : List ℕ) (values : List Arg)
      → nonzero cs ≡ true
      → Printable (literal cs) values
      → Keeps (printf io patience args stack cs values)
  printf-Keeps cs values ne (text, r) m is =
      let (d, run, online, sent) =
        serial_printf-Sent u (literal cs) (length cs) values text stack m.ports
          (literal-IsString cs ne) r long is.online in
      (record m { ports = d }, rw run refl, record { shell = is.shell; online = online }, refl)

  pub log-Keeps :
      (cs : List ℕ)
      → nonzero cs ≡ true
      → all_below (length cs) (λ j. is_plain ((literal cs).at (0 + j))) ≡ true
      → Keeps (printf io patience args stack cs [])
  log-Keeps cs ne ok = printf-Keeps cs [] ne (plain-Printable cs ok)

  pub shell-Keeps :
      (k : Shell.M (Unit {0})) → ((s : Shell) → IsShell s → Total (k s)) → Keeps (on_shell k)
  shell-Keeps k total m is =
      let (s, run, shell) = total m.shell is.shell in
      (record m { shell = s }, rw run refl, record { shell = shell; online = is.online }, refl)

  clear-Total : (s : Shell) → IsShell s → Total (cmd_clear s)
  clear-Total s is =
      let (sc, run, r) = cmd_clear-Only s is.ready in
      (record s { screen = sc }, run, screen-IsShell sc s r is)

  prompt-Total : (s : Shell) → IsShell s → Total (display shell_print_prompt s)
  prompt-Total s is =
      let (sc, run, r) = prompt-Prints s.screen is.ready in
      (record s { screen = sc }, rw run refl, screen-IsShell sc s r is)

  control_character-Keeps : (c : ℕ) → Keeps (control_character io patience args stack c)
  unfolding control_character
  control_character-Keeps c =
      choose-Keeps (c == b'c' || c == b'C') (on_shell shell_cancel_input) _
        (shell-Keeps shell_cancel_input cancel_input-Total)
        (choose-Keeps (c == b'l' || c == b'L') _ (pure tt)
          (then-Keeps (on_shell shell_cancel_input) _
            (shell-Keeps shell_cancel_input cancel_input-Total)
            (then-Keeps (on_shell cmd_clear) (on_shell (display shell_print_prompt))
              (shell-Keeps cmd_clear clear-Total)
              (shell-Keeps (display shell_print_prompt) prompt-Total)))
          nothing-Keeps)

  type-Keeps : (c : ℕ) → Keeps (on_shell (type_key args c))
  type-Keeps c = shell-Keeps (type_key args c) (λ s is. type_key-IsShell args c s room is)

  pub type_and_report-Keeps :
      (c : ℕ) (message : List ℕ) (pressed : Bool)
      → Keeps (printf io patience args stack message [])
      → Keeps (type_and_report io patience args stack c message pressed)
  unfolding type_and_report
  type_and_report-Keeps c message pressed report =
      choose-Keeps pressed _ (pure tt)
        (then-Keeps (on_shell (type_key args c)) _ (type-Keeps c) report) nothing-Keeps

  pub printable_key-Keeps :
      (key : ℕ) (pressed : Bool) → Keeps (handle_printable_key io patience args stack key pressed)
  unfolding handle_printable_key
  printable_key-Keeps key false m is = nothing-Keeps m is
  printable_key-Keeps key true m is =
      let c = get_character m.keyboard key in
      choose-Keeps (c == 0) (pure tt) _ nothing-Keeps
        (choose-Keeps m.keyboard.ctrl_pressed (control_character io patience args stack c) _
          (control_character-Keeps c)
          (choose-Keeps m.keyboard.alt_pressed _ _
            (printf-Keeps (codes "[ALT+%c]\r\n") (int (pos c) ∷ []) refl (alt-Printable c))
            (then-Keeps (on_shell (type_key args c)) _ (type-Keeps c)
              (printf-Keeps (codes "%c") (int (pos c) ∷ []) refl (character-Printable c)))))
        m is

  pub special_key-Keeps :
      (key : ℕ) (pressed : Bool) → Keeps (handle_special_key io patience args stack key pressed)
  unfolding handle_special_key all_below literal
  special_key-Keeps key pressed = choose-Keeps (not pressed) (pure tt) _ nothing-Keeps (
      choose-Keeps (key == key_esc) _ _ (log-Keeps (codes "[ESC]\r\n") refl refl) (
        when-Keeps (leb key_f1 key && leb key key_f12) _ _
          (λ is_f.
            printf-Keeps (codes "[F%d]\r\n") (int (pos (key - key_f1 + 1)) ∷ []) refl
              (function_key-Printable (key - key_f1 + 1) (ground arith)))
          (choose-Keeps (key == key_home) _ _ (log-Keeps (codes "[HOME]\r\n") refl refl) (
            choose-Keeps (key == key_end) _ _ (log-Keeps (codes "[END]\r\n") refl refl) (
              choose-Keeps (key == key_up) _ _ (log-Keeps (codes "[UP]\r\n") refl refl) (
                choose-Keeps (key == key_down) _ _ (log-Keeps (codes "[DOWN]\r\n") refl refl) (
                  choose-Keeps (key == key_left) _ _
                    (shell-Keeps shell_move_cursor_left (λ s is. forget (left-Cut s is)))
                    (choose-Keeps (key == key_right) _ _
                      (shell-Keeps shell_move_cursor_right (λ s is. forget (right-Cut s is)))
                      (choose-Keeps (key == key_insert) _ _
                        (log-Keeps (codes "[INSERT]\r\n") refl refl)
                        (choose-Keeps (key == key_delete) _ _
                          (log-Keeps (codes "[DELETE]\r\n") refl refl)
                          (choose-Keeps (key == key_pgup) _ _
                            (log-Keeps (codes "[PGUP]\r\n") refl refl)
                            (choose-Keeps (key == key_pgdown) _ _
                              (log-Keeps (codes "[PGDOWN]\r\n") refl refl)
                              (choose-Keeps (key == key_tab) _ _
                                (log-Keeps (codes "[TAB]\r\n") refl refl) nothing-Keeps)))))))))))))
