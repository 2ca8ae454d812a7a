-- ===== src/Shell/Keys.antt =====
-- Every key of kernel/src/shell/shell.c: `input` as a whole.
use bin_os_c.Base.{ℕ, ◌≡◌, refl, ◌||◌, Option, some, ◌==◌, Bool-cases, inl, inr}
use bin_os_c.CString.{Buffer}
use bin_os_c.CString.Laws.{IsString}
use bin_os_c.Draw.{Screen, clear_screen, move_cursor_to}
use bin_os_c.Draw.Clear.{clear_screen-Draws}
use bin_os_c.Terminal.{literal, codes, text_color, bg_color, shell_print}
use bin_os_c.Terminal.Laws.{
  Ready, Prints, Draws-Ready, to-Ready, newline-Prints, print_color-Prints, prompt-Prints,
  literal-IsString,
}
use bin_os_c.Shell.{Shell, shell_cancel_input}
use bin_os_c.Shell.Edit.{backspace-Removed, delete-Removed, insert_char-Inserted}
use bin_os_c.Shell.Enter.{take_line-Taken}
use bin_os_c.Shell.Input.{redraw_screen, control, edit, input}
use bin_os_c.Shell.Line.{Ends, draw-Drawn, screen-IsShell}
use bin_os_c.Shell.Move.{clear_input-Cut, kill_to_end-Cut, home-Cut, end-Cut}
use bin_os_c.Shell.State.{IsShell}
use bin_os_c.Shell.Word.{delete_word-Removed}

-- The step ends in a state of the shell.
abbrev pub Total : Option (Unit {0} × Shell) → Type 0
Total o = (s : Shell) × (o ≡ some (tt, s)) × IsShell s

shell_print-Prints :
    (text : Buffer) (n : ℕ) (s : Screen) → IsString text n → Ready s → Prints (shell_print text s)
unfolding shell_print
shell_print-Prints text n s is r = print_color-Prints text n text_color s is r

pub cancel_input-Total : (s : Shell) → IsShell s → Total (shell_cancel_input s)
unfolding shell_cancel_input
cancel_input-Total s is =
    let (s₁, run₁, is₁, cut) = clear_input-Cut s is in
    let (sc₂, run₂, r₂) = newline-Prints s₁.screen is₁.ready in
    let (sc₃, run₃, r₃) =
      shell_print-Prints (literal (codes "^C\n")) 3 sc₂ (literal-IsString (codes "^C\n") refl) r₂ in
    let (sc₄, run₄, r₄) = prompt-Prints sc₃ r₃ in
    let (sc₅, run₅, is₅) = draw-Drawn (record s₁ { screen = sc₄ }) (screen-IsShell sc₄ s₁ r₄ is₁) in
    (record s₁ { screen = sc₅ }, rw (run₁, run₂, run₃, run₄) run₅, is₅)

redraw_screen-Total : (s : Shell) → IsShell s → Total (redraw_screen s)
unfolding redraw_screen
redraw_screen-Total s is =
    let sc₁ = clear_screen bg_color s.screen in
    let r₁ = Draws-Ready s.screen sc₁ (clear_screen-Draws bg_color s.screen) is.ready in
    let (sc₂, run₂, r₂) = prompt-Prints (move_cursor_to 0 0 sc₁) (to-Ready 0 0 sc₁ r₁) in
    let (sc₃, run₃, is₃) = draw-Drawn (record s { screen = sc₂ }) (screen-IsShell sc₂ s r₂ is) in
    (record s { screen = sc₃ }, rw run₂ run₃, is₃)

pub forget : {P : Shell → Type 0} {o : Option (Unit {0} × Shell)} → Ends P o → Total o
forget (s, run, is, p) = (s, run, is)

control-Total : (c : ℕ) (s : Shell) → IsShell s → Total (control c s)
unfolding control
control-Total c s is = elim (Bool-cases (c == 12)) [
  | inl e ↦ rw e (redraw_screen-Total s is)
  | inr e ↦ elim (Bool-cases (c == 11)) [
    | inl e₁ ↦ rw (e, e₁) (forget (kill_to_end-Cut s is))
    | inr e₁ ↦ elim (Bool-cases (c == 21)) [
      | inl e₂ ↦ rw (e, e₁, e₂) (forget (clear_input-Cut s is))
      | inr e₂ ↦ elim (Bool-cases (c == 23)) [
        | inl e₃ ↦ rw (e, e₁, e₂, e₃) (forget (delete_word-Removed s is))
        | inr e₃ ↦ elim (Bool-cases (c == 27)) [
          | inl e₄ ↦ (s, rw (e, e₁, e₂, e₃, e₄), is)
          | inr e₄ ↦ rw (e, e₁, e₂, e₃, e₄) (forget (insert_char-Inserted c s is))
        ]
      ]
    ]
  ]
]

-- A key that does not end the line ends in a state of the shell.
edit-Total : (c : ℕ) (s : Shell) → IsShell s → Total (edit c s)
unfolding edit
edit-Total c s is = elim (Bool-cases (c == 8 || c == 127)) [
  | inl e ↦ rw e (forget (backspace-Removed s is))
  | inr e ↦ elim (Bool-cases (c == 3)) [
    | inl e₁ ↦ rw (e, e₁) (cancel_input-Total s is)
    | inr e₁ ↦ elim (Bool-cases (c == 4)) [
      | inl e₂ ↦ rw (e, e₁, e₂) (forget (delete-Removed s is))
      | inr e₂ ↦ elim (Bool-cases (c == 1)) [
        | inl e₃ ↦ rw (e, e₁, e₂, e₃) (forget (home-Cut s is))
        | inr e₃ ↦ elim (Bool-cases (c == 5)) [
          | inl e₄ ↦ rw (e, e₁, e₂, e₃, e₄) (forget (end-Cut s is))
          | inr e₄ ↦ rw (e, e₁, e₂, e₃, e₄) (control-Total c s is)
        ]
      ]
    ]
  ]
]

-- In a well-formed shell, `input` of any character ends, reads and writes inside the shell's
-- arrays, leaves a well-formed shell (terminated strings in all arrays, the cursor on the line
-- and on the screen), and hands out a command exactly for the two line ends.
pub input-IsShell :
    (c : ℕ) (s : Shell)
    → IsShell s
    → (s' : Shell) × (input c s ≡ some (c == 10 || c == 13, s')) × IsShell s'
unfolding input
input-IsShell c s is = elim (Bool-cases (c == 10 || c == 13)) [
  | inl enter ↦ let (s', run, is', taken) = take_line-Taken s is in (s', rw (enter, run), is')
  | inr other ↦ let (s', run, is') = edit-Total c s is in (s', rw (other, run), is')
]
