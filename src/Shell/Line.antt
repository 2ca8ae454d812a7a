-- ===== src/Shell/Line.antt =====
-- What the editing keys of kernel/src/shell/shell.c make of the line.
use bin_os_c.Base.{ℕ, ◌+◌, ◌-◌, ◌≤◌, ◌<◌, ◌≡◌, refl, Option, some, arith}
use bin_os_c.CString.{Buffer}
use bin_os_c.CString.Laws.{IsString}
use bin_os_c.Draw.{Screen}
use bin_os_c.Shell.{Shell, shell_draw_input_line, remove_chars, max_input_length}
use bin_os_c.Shell.Shift.{written, store-inside, shift_left-ShiftedLeft}
use bin_os_c.Shell.State.{IsShell, IsShell-Drawable, draw_input_line-DrawsLine}
use bin_os_c.Terminal.Laws.{Ready}

-- The state with another line, and what is on the screen then.
abbrev pub with_line : Buffer → ℕ → ℕ → Shell → Shell
with_line b n p s = record s { input_buffer = b; input_index = n; cursor_pos = p }

pub with_line-IsShell :
    (b : Buffer) (n p : ℕ) (s : Shell)
    → b.size ≡ max_input_length
    → IsString b n
    → p ≤ n
    → IsShell s
    → IsShell (with_line b n p s)
with_line-IsShell b n p s size line fits is = record {
  input_size = size;
  line = line;
  cursor_fits = fits;
  command = is.command;
  index_fits = is.index_fits;
  current_fits = is.current_fits;
  entries = is.entries;
  ready = is.ready;
}

-- The step ends in a state of the shell for which `P` holds.
abbrev pub Ends : (Shell → Type 0) → Option (Unit {0} × Shell) → Type 0
Ends P o = (s : Shell) × (o ≡ some (tt, s)) × IsShell s × P s

-- Everything but the line and the screen is the same.
pub record SameRest (s s' : Shell) : Type 0 where
  pub history : s'.history ≡ s.history
  pub history_index : s'.history_index ≡ s.history_index
  pub history_current : s'.history_current ≡ s.history_current
  pub command : s'.command_buffer ≡ s.command_buffer

-- The line has lost `count` characters at `start`, where the cursor is now.
pub record Removed (start count : ℕ) (s s' : Shell) : Type 0 where
  pub shorter : s'.input_index ≡ s.input_index - count
  pub cursor : s'.cursor_pos ≡ start
  pub before : (j : ℕ) → j < start → s'.input_buffer.at j ≡ s.input_buffer.at j
  pub behind :
      (j : ℕ)
      → start ≤ j
      → j < s'.input_index
      → s'.input_buffer.at j ≡ s.input_buffer.at (j + count)
  pub rest : SameRest s s'

-- The same shell with another screen.
pub screen-IsShell :
    (sc : Screen) (s : Shell) → Ready sc → IsShell s → IsShell (record s { screen = sc })
screen-IsShell sc s r is = record {
  input_size = is.input_size;
  line = is.line;
  cursor_fits = is.cursor_fits;
  command = is.command;
  index_fits = is.index_fits;
  current_fits = is.current_fits;
  entries = is.entries;
  ready = r;
}

-- The end of every editing step: a line is in the array, and is drawn.
pub draw-Drawn :
    (s : Shell)
    → IsShell s
    → (sc : Screen) × (shell_draw_input_line s ≡ some (tt, record s { screen = sc }))
      × IsShell (record s { screen = sc })
draw-Drawn s is =
    let (sc, run, r) = draw_input_line-DrawsLine s (IsShell-Drawable s is) in
    (sc, run, screen-IsShell sc s r is)

pub remove_chars-Removed :
    (rounds start count : ℕ) (s : Shell)
    → IsShell s
    → start + count ≤ s.input_index
    → s.input_index ≤ start + rounds + count
    → start + rounds + count ≤ s.input_index + 1
    → Ends (Removed start count s) (remove_chars rounds start count s)
unfolding remove_chars
remove_chars-Removed rounds start count s is fits enough most =
    let n = s.input_index - count in
    let (b, run₁, sh) =
      shift_left-ShiftedLeft rounds start count s.input_buffer (omega (arith, is.line.inside)) in
    let line : IsString (written b n 0) n = record {
      chars = λ j lt.
          ground (arith, sh.before j, sh.moved j, is.line.chars j, is.line.chars (j + count));
      ends = ground arith;
      inside = omega (arith, is.line.inside, sh.same_size);
    } in
    let s₁ = with_line (written b n 0) n start s in
    let size : b.size ≡ max_input_length = ground (arith, sh.same_size, is.input_size) in
    let (sc, run₂, is₂) =
      draw-Drawn s₁ (with_line-IsShell (written b n 0) n start s size line (omega arith) is) in
    (
      record s₁ { screen = sc },
      rw (run₁, store-inside b n 0 (omega (arith, is.line.inside, sh.same_size))) run₂,
      is₂,
      record {
        shorter = refl;
        cursor = refl;
        before = λ j lt. ground (arith, sh.before j);
        behind = λ j le lt. ground (arith, sh.moved j);
        rest = record {
          history = refl;
          history_index = refl;
          history_current = refl;
          command = refl;
        };
      },
    )
