-- ===== src/Shell/Edit.antt =====
-- The editing keys of kernel/src/shell/shell.c that change the line.
use bin_os_c.Base.{
  ℕ, ◌+◌, ◌-◌, ◌≤◌, ◌<◌, ◌≡◌, refl, true, false, arith, ltb, Bool-cases, ◌⊎◌, inl, inr,
}
use bin_os_c.CString.Laws.{IsString}
use bin_os_c.Shell.{Shell, shell_backspace, shell_delete, max_input_length}
use bin_os_c.Shell.Input.{takes, type_char, insert_char}
use bin_os_c.Shell.Line.{
  with_line, with_line-IsShell, Ends, SameRest, Removed, draw-Drawn, remove_chars-Removed,
}
use bin_os_c.Shell.Shift.{written, store-inside, shift_right-ShiftedRight}
use bin_os_c.Shell.State.{IsShell}

-- In a well-formed shell, backspace takes out the character in front of the cursor and moves the
-- rest of the line up, and does nothing at the start of the line.
pub backspace-Removed :
    (s : Shell)
    → IsShell s
    → Ends
        (λ s'.
          (0 < s.cursor_pos) × Removed (s.cursor_pos - 1) 1 s s' ⊎ (s.cursor_pos ≡ 0) × (s' ≡ s))
        (shell_backspace s)
unfolding shell_backspace
backspace-Removed s is = elim (Bool-cases (ltb 0 s.cursor_pos)) [
  | inr start ↦ (s, rw start, is, inr (ground arith, refl))
  | inl inside ↦
      let p = s.cursor_pos - 1 in
      let (s', run, is', rm) =
        remove_chars-Removed (s.input_index - p) p 1 s is (ground (arith, is.cursor_fits))
          (ground (arith, is.cursor_fits)) (ground (arith, is.cursor_fits)) in
      (s', rw inside run, is', inl (ground arith, rm))
]

-- In a well-formed shell, delete takes out the character under the cursor and moves the rest of
-- the line up, and does nothing at the end of the line.
pub delete-Removed :
    (s : Shell)
    → IsShell s
    → Ends
        (λ s'.
          (s.cursor_pos < s.input_index) × Removed s.cursor_pos 1 s s'
          ⊎ (s.cursor_pos ≡ s.input_index) × (s' ≡ s))
        (shell_delete s)
unfolding shell_delete
delete-Removed s is = elim (Bool-cases (ltb s.cursor_pos s.input_index)) [
  | inr end ↦ (s, rw end, is, inr (ground (arith, is.cursor_fits), refl))
  | inl inside ↦
      let (s', run, is', rm) =
        remove_chars-Removed (s.input_index - s.cursor_pos) s.cursor_pos 1 s is (ground arith)
          (ground arith) (ground arith) in
      (s', rw inside run, is', inl (ground arith, rm))
]

-- The line has `c` at the old place of the cursor, and the cursor behind it.
pub record Inserted (c : ℕ) (s s' : Shell) : Type 0 where
  pub longer : s'.input_index ≡ s.input_index + 1
  pub cursor : s'.cursor_pos ≡ s.cursor_pos + 1
  pub before : (j : ℕ) → j < s.cursor_pos → s'.input_buffer.at j ≡ s.input_buffer.at j
  pub here : s'.input_buffer.at s.cursor_pos ≡ c
  pub behind :
      (j : ℕ)
      → s.cursor_pos ≤ j
      → j < s.input_index
      → s'.input_buffer.at (j + 1) ≡ s.input_buffer.at j
  pub rest : SameRest s s'

type_char-Inserted :
    (c : ℕ) (s : Shell)
    → IsShell s
    → 32 ≤ c
    → s.input_index < max_input_length - 1
    → Ends (Inserted c s) (type_char c s)
unfolding type_char
type_char-Inserted c s is ge room =
    let n = s.input_index in
    let p = s.cursor_pos in
    let (b, run₁, sh) =
      shift_right-ShiftedRight (n - p) p s.input_buffer
        (omega (arith, is.line.inside, is.cursor_fits)) in
    let b₁ = written b p c in
    let b₂ = written b₁ (n + 1) 0 in
    let size : b.size ≡ max_input_length = ground (arith, sh.same_size, is.input_size) in
    let line : IsString b₂ (n + 1) = record {
      chars =
          λ j lt. ground (arith, sh.before j, sh.moved j, is.line.chars j, is.line.chars (j - 1));
      ends = ground arith;
      inside = omega (arith, size);
    } in
    let (sc, run₂, is₂) =
      draw-Drawn (with_line b₂ (n + 1) (p + 1) s)
        (with_line-IsShell b₂ (n + 1) (p + 1) s size line (omega (arith, is.cursor_fits)) is) in
    (
      record (with_line b₂ (n + 1) (p + 1) s) { screen = sc },
      rw
          (
            run₁,
            store-inside b p c (omega (arith, size, is.cursor_fits)),
            store-inside b₁ (n + 1) 0 (omega (arith, size)),
          )
          run₂,
      is₂,
      record {
        longer = refl;
        cursor = refl;
        before = λ j lt. ground (arith, sh.before j, is.cursor_fits);
        here = ground (arith, is.cursor_fits);
        behind = λ j le lt. ground (arith, sh.moved (j + 1));
        rest = record {
          history = refl;
          history_index = refl;
          history_current = refl;
          command = refl;
        };
      },
    )

-- The characters that are typed, while there is room for one more.
abbrev pub Types : ℕ → Shell → Type 0
Types c s = (32 ≤ c) × (c ≤ 126) × (s.input_index < max_input_length - 1)

takes-Types : (c : ℕ) (s : Shell) → takes c s ≡ true → Types c s
unfolding takes
takes-Types c s e = ground arith

not_takes : (c : ℕ) (s : Shell) → takes c s ≡ false → ¬ Types c s
unfolding takes
not_takes c s e ty = ground arith

-- In a well-formed shell, a printable character goes in at the cursor, the rest of the line moves
-- by one and the cursor stands behind it, while the line has fewer than 255 characters; any other
-- character, and any character on a full line, changes nothing.
pub insert_char-Inserted :
    (c : ℕ) (s : Shell)
    → IsShell s
    → Ends (λ s'. Types c s × Inserted c s s' ⊎ ¬ Types c s × (s' ≡ s)) (insert_char c s)
unfolding insert_char
insert_char-Inserted c s is = elim (Bool-cases (takes c s)) [
  | inr misfit ↦ (s, rw misfit, is, inr (not_takes c s misfit, refl))
  | inl fits ↦
      let ty = takes-Types c s fits in
      let (s', run, is', ins) = type_char-Inserted c s is ty.0 ty.2 in
      (s', rw fits run, is', inl (ty, ins))
]

-- In a well-formed shell, backspace takes out the character in front of the cursor and delete the
-- one under it, the rest of the line moves up, and at the start or the end of the line they do
-- nothing.
pub remove_keys-Removed :
    (s : Shell)
    → IsShell s
    → Ends
        (λ s'.
          (0 < s.cursor_pos) × Removed (s.cursor_pos - 1) 1 s s' ⊎ (s.cursor_pos ≡ 0) × (s' ≡ s))
        (shell_backspace s)
      × Ends
          (λ s'.
            (s.cursor_pos < s.input_index) × Removed s.cursor_pos 1 s s'
            ⊎ (s.cursor_pos ≡ s.input_index) × (s' ≡ s))
          (shell_delete s)
remove_keys-Removed s is = (backspace-Removed s is, delete-Removed s is)
