-- ===== src/Shell/Move.antt =====
-- The keys of kernel/src/shell/shell.c that move the cursor or cut the line short.
use bin_os_c.Base.{
  ℕ, ◌+◌, ◌-◌, ◌≤◌, ◌<◌, ◌≡◌, refl, ◌∙◌, min, some, arith, ltb, Bool-cases, inl, inr,
}
use bin_os_c.CString.Laws.{IsString}
use bin_os_c.Draw.{Screen}
use bin_os_c.Shell.{
  Shell, shell_draw_input_line, shell_clear_input, shell_move_cursor_home, shell_move_cursor_end,
  shell_move_cursor_left, shell_move_cursor_right,
}
use bin_os_c.Shell.Input.{kill_to_end}
use bin_os_c.Shell.Line.{with_line, with_line-IsShell, Ends, SameRest, draw-Drawn}
use bin_os_c.Shell.Shift.{written, store-inside}
use bin_os_c.Shell.State.{IsShell}

-- What is left of the line is its first `n` characters; the cursor is at `p`.
pub record Cut (n p : ℕ) (s s' : Shell) : Type 0 where
  pub length : s'.input_index ≡ n
  pub cursor : s'.cursor_pos ≡ p
  pub kept : (j : ℕ) → j < n → s'.input_buffer.at j ≡ s.input_buffer.at j
  pub rest : SameRest s s'

same_rest :
    (s s' : Shell)
    → s'.history ≡ s.history
    → s'.history_index ≡ s.history_index
    → s'.history_current ≡ s.history_current
    → s'.command_buffer ≡ s.command_buffer
    → SameRest s s'
same_rest s s' e₁ e₂ e₃ e₄ = record {
  history = e₁;
  history_index = e₂;
  history_current = e₃;
  command = e₄;
}

cut-Cut :
    (n p : ℕ) (s : Shell)
    → IsShell s
    → n ≤ s.input_index
    → p ≤ n
    → (sc : Screen) × (shell_draw_input_line (with_line (written s.input_buffer n 0) n p s)
        ≡ some (tt, record (with_line (written s.input_buffer n 0) n p s) { screen = sc }))
      × IsShell (record (with_line (written s.input_buffer n 0) n p s) { screen = sc })
cut-Cut n p s is le fits =
    let b = written s.input_buffer n 0 in
    let line : IsString b n = record {
      chars = λ j lt. ground (arith, is.line.chars j);
      ends = ground arith;
      inside = omega (arith, is.line.inside);
    } in
    draw-Drawn (with_line b n p s) (with_line-IsShell b n p s is.input_size line fits is)

-- In a well-formed shell, Ctrl+K keeps the characters in front of the cursor, drops the others,
-- and leaves the cursor and the history where they were.
pub kill_to_end-Cut :
    (s : Shell) → IsShell s → Ends (Cut s.cursor_pos s.cursor_pos s) (kill_to_end s)
unfolding kill_to_end
kill_to_end-Cut s is =
    let (sc, run, is') = cut-Cut s.cursor_pos s.cursor_pos s is is.cursor_fits (omega arith) in
    (
      record (with_line (written s.input_buffer s.cursor_pos 0) s.cursor_pos s.cursor_pos s) {
        screen = sc;
      },
      rw
          (store-inside s.input_buffer s.cursor_pos 0
            (omega (arith, is.line.inside, is.cursor_fits)))
          run,
      is',
      record {
        length = refl;
        cursor = refl;
        kept = λ j lt. ground arith;
        rest = same_rest s _ refl refl refl refl;
      },
    )

-- Ctrl+U empties the line.
pub clear_input-Cut : (s : Shell) → IsShell s → Ends (Cut 0 0 s) (shell_clear_input s)
unfolding shell_clear_input
clear_input-Cut s is =
    let (sc, run, is') = cut-Cut 0 0 s is (omega arith) (omega arith) in
    (
      record (with_line (written s.input_buffer 0 0) 0 0 s) { screen = sc },
      rw (store-inside s.input_buffer 0 0 (omega (arith, is.line.inside))) run,
      is',
      record {
        length = refl;
        cursor = refl;
        kept = λ j lt. ground arith;
        rest = same_rest s _ refl refl refl refl;
      },
    )

move-Cut :
    (p : ℕ) (s : Shell)
    → IsShell s
    → p ≤ s.input_index
    → Ends (Cut s.input_index p s) (shell_draw_input_line (record s { cursor_pos = p }))
move-Cut p s is fits =
    let (sc, run, is') =
      draw-Drawn (record s { cursor_pos = p })
        (with_line-IsShell s.input_buffer s.input_index p s is.input_size is.line fits is) in
    (
      record s { cursor_pos = p; screen = sc },
      run,
      is',
      record {
        length = refl;
        cursor = refl;
        kept = λ j lt. refl;
        rest = same_rest s _ refl refl refl refl;
      },
    )

-- Home puts the cursor at the start of the line and leaves the line alone.
pub home-Cut : (s : Shell) → IsShell s → Ends (Cut s.input_index 0 s) (shell_move_cursor_home s)
unfolding shell_move_cursor_home
home-Cut s is = move-Cut 0 s is (omega arith)

pub end-Cut :
    (s : Shell) → IsShell s → Ends (Cut s.input_index s.input_index s) (shell_move_cursor_end s)
unfolding shell_move_cursor_end
end-Cut s is = move-Cut s.input_index s is (omega arith)

-- Left and right move the cursor by one and stop at the ends of the line.
pub left-Cut :
    (s : Shell)
    → IsShell s
    → Ends (Cut s.input_index (s.cursor_pos - 1) s) (shell_move_cursor_left s)
unfolding shell_move_cursor_left
left-Cut s is = elim (Bool-cases (ltb 0 s.cursor_pos)) [
  | inl inside ↦ rw inside (move-Cut (s.cursor_pos - 1) s is (omega (arith, is.cursor_fits)))
  | inr start ↦ (
    s,
    rw start,
    is,
    record {
      length = refl;
      cursor = ground arith;
      kept = λ j lt. refl;
      rest = same_rest s s refl refl refl refl;
    },
  )
]

pub right-Cut :
    (s : Shell)
    → IsShell s
    → Ends (Cut s.input_index (min (s.cursor_pos + 1) s.input_index) s) (shell_move_cursor_right s)
unfolding shell_move_cursor_right
right-Cut s is = elim (Bool-cases (ltb s.cursor_pos s.input_index)) [
  | inl inside ↦
      let (s', run, is', c) = move-Cut (s.cursor_pos + 1) s is (ground arith) in
      (
        s',
        rw inside run,
        is',
        record {
          length = c.length;
          cursor = c.cursor ∙ ground arith;
          kept = c.kept;
          rest = c.rest;
        },
      )
  | inr end ↦ (
    s,
    rw end,
    is,
    record {
      length = refl;
      cursor = ground (arith, is.cursor_fits);
      kept = λ j lt. refl;
      rest = same_rest s s refl refl refl refl;
    },
  )
]

-- In a well-formed shell, the functions for left, right, home and end keep the line and the
-- history and move the cursor by one or to an end, never off the line.
pub cursor_keys-Cut :
    (s : Shell)
    → IsShell s
    → Ends (Cut s.input_index (s.cursor_pos - 1) s) (shell_move_cursor_left s)
      × Ends
          (Cut s.input_index (min (s.cursor_pos + 1) s.input_index) s)
          (shell_move_cursor_right s)
      × Ends (Cut s.input_index 0 s) (shell_move_cursor_home s)
      × Ends (Cut s.input_index s.input_index s) (shell_move_cursor_end s)
cursor_keys-Cut s is = (left-Cut s is, right-Cut s is, home-Cut s is, end-Cut s is)
