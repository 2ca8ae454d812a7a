-- ===== src/Shell/Tests.antt =====
-- The terminal and the shell on a small screen.
use bin_os_c.Base.{
  ℕ, ◌-◌, ◌<◌, ◌≡◌, ◌≢◌, refl, min, true, ◌||◌, some, arith, ◌==◌, ◌⊎◌, inl, inr, if◌then◌else◌,
  ltb, Bool-cases,
}
use bin_os_c.CString.{Buffer}
use bin_os_c.CString.Laws.{IsString}
use bin_os_c.Draw.{Screen}
use bin_os_c.Terminal.{literal, codes, shell_print_color}
use bin_os_c.Terminal.Laws.{Ready, Prints, print_color-Prints, literal-IsString}
use bin_os_c.Shell.{
  Shell, shell_backspace, shell_delete, shell_move_cursor_right, shell_move_cursor_left,
  shell_move_cursor_home, shell_move_cursor_end,
}
use bin_os_c.Shell.Edit.{Inserted, Types, remove_keys-Removed, insert_char-Inserted}
use bin_os_c.Shell.Enter.{Taken, take_line-Taken}
use bin_os_c.Shell.Input.{
  insert_char, take_line, delete_word, input, shell_history_up, shell_history_down,
}
use bin_os_c.Shell.Keys.{input-IsShell}
use bin_os_c.Shell.Line.{Ends, Removed}
use bin_os_c.Shell.Move.{Cut, cursor_keys-Cut}
use bin_os_c.Shell.Recall.{Recalled, following, history_keys-Recalled}
use bin_os_c.Shell.State.{HasString, IsShell}
use bin_os_c.Shell.Word.{LastWord, delete_word-Removed}

abbrev pub console : Screen
console = record {
  fb_width = 320;
  fb_height = 64;
  fb_pitch = 320;
  pixel = λ a. 0;
  cursor_position_x = 16;
  cursor_position_y = 48;
}

pub console-Ready : Ready console
console-Ready = ground arith

-- An array of zeros, with `n` times the letter `x` in front.
abbrev pub xs : ℕ → Buffer
xs n = record { size = 256; at = λ i. if ltb i n then b'x' else 0 }

xs-IsString : (n : ℕ) → n < 256 → IsString (xs n) n
xs-IsString n lt = record {
  chars = λ j lt. ground arith;
  ends = ground arith;
  inside = omega arith;
}

-- Three characters are typed, and the cursor is on the last one; one command was run.
abbrev pub prompt : Shell
prompt = record {
  command_buffer = xs 2;
  input_buffer = xs 3;
  history = λ j. if j == 0 then xs 2 else xs 0;
  history_index = 1;
  history_current = 1;
  input_index = 3;
  cursor_pos = 2;
  cursor_blink_counter = 0;
  cursor_visible = true;
  screen = console;
}

entry-HasString : (j : ℕ) → HasString (if j == 0 then xs 2 else xs 0)
entry-HasString j = elim (Bool-cases (j == 0)) [
  | inl e ↦ rw e (refl, (2, xs-IsString 2 (omega arith)))
  | inr e ↦ rw e (refl, (0, xs-IsString 0 (omega arith)))
]

pub prompt-IsShell : IsShell prompt
prompt-IsShell = record {
  input_size = refl;
  line = xs-IsString 3 (omega arith);
  cursor_fits = omega arith;
  command = (refl, (2, xs-IsString 2 (omega arith)));
  index_fits = omega arith;
  current_fits = omega arith;
  entries = λ j lt. entry-HasString j;
  ready = console-Ready;
}

print_color-Prints_example : Prints (shell_print_color (literal (codes "a\tb\n")) 7 console)
print_color-Prints_example =
    print_color-Prints (literal (codes "a\tb\n")) 4 7 console
      (literal-IsString (codes "a\tb\n") refl) console-Ready

remove_keys-Removed_example :
    Ends
      (λ s. (0 < 2) × Removed 1 1 prompt s ⊎ (prompt.cursor_pos ≡ 0) × (s ≡ prompt))
      (shell_backspace prompt)
    × Ends
        (λ s.
          (2 < 3) × Removed 2 1 prompt s ⊎ (prompt.cursor_pos ≡ prompt.input_index) × (s ≡ prompt))
        (shell_delete prompt)
remove_keys-Removed_example = remove_keys-Removed prompt prompt-IsShell

insert_char-Inserted_example :
    Ends
      (λ s. Types 65 prompt × Inserted 65 prompt s ⊎ ¬ Types 65 prompt × (s ≡ prompt))
      (insert_char 65 prompt)
insert_char-Inserted_example = insert_char-Inserted 65 prompt prompt-IsShell

delete_word-Removed_example :
    Ends
      (λ s.
        (start : ℕ) × (end : ℕ) × LastWord (xs 3) 2 start end
        × (Removed start (2 - start) prompt s ⊎ (prompt.cursor_pos ≡ 0) × (s ≡ prompt)))
      (delete_word prompt)
delete_word-Removed_example = delete_word-Removed prompt prompt-IsShell

cursor_keys-Cut_example :
    Ends (Cut 3 1 prompt) (shell_move_cursor_left prompt)
    × Ends (Cut 3 (min 3 3) prompt) (shell_move_cursor_right prompt)
    × Ends (Cut 3 0 prompt) (shell_move_cursor_home prompt)
    × Ends (Cut 3 3 prompt) (shell_move_cursor_end prompt)
cursor_keys-Cut_example = cursor_keys-Cut prompt prompt-IsShell

history_keys-Recalled_example :
    Ends
      (λ s.
        Recalled 0 prompt s × ¬ IsString (prompt.history 0) 0
        ⊎ IsString (prompt.history 0) 0 × (s ≡ prompt))
      (shell_history_up prompt)
    × Ends
        (λ s.
          (following prompt ≢ 1) × Recalled 2 prompt s
          ⊎ (following prompt ≡ 1)
            × (s.input_index ≡ 0)
            × (s.cursor_pos ≡ 0)
            × (s.history_current ≡ 1)
            × (s.history ≡ prompt.history))
        (shell_history_down prompt)
history_keys-Recalled_example = history_keys-Recalled prompt prompt-IsShell

take_line-Taken_example : Ends (Taken prompt) (take_line prompt)
take_line-Taken_example = take_line-Taken prompt prompt-IsShell

input-IsShell_example : (s : Shell) × (input 23 prompt ≡ some (23 == 10 || 23 == 13, s)) × IsShell s
input-IsShell_example = input-IsShell 23 prompt prompt-IsShell
