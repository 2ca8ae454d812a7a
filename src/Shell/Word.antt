-- ===== src/Shell/Word.antt =====
-- Ctrl+W of kernel/src/shell/shell.c: the word in front of the cursor.
use bin_os_c.Base.{
  ℕ, zero, suc, ◌+◌, ◌-◌, ◌≤◌, ◌<◌, ◌≡◌, ◌≢◌, refl, some, arith, ltb, ◌==◌, Bool-cases, ◌⊎◌, inl,
  inr,
}
use bin_os_c.CString.{Buffer}
use bin_os_c.CString.Laws.{load-inside}
use bin_os_c.Shell.{Shell}
use bin_os_c.Shell.Input.{skip_spaces, skip_word, word_start, delete_word}
use bin_os_c.Shell.Line.{Ends, Removed, remove_chars-Removed}
use bin_os_c.Shell.State.{IsShell}

abbrev pub space : ℕ
space = 32

-- Behind the place are spaces, up to and with `i`, and on it is none unless the line begins there.
skip_spaces-stop :
    (i : ℕ) (b : Buffer)
    → i < b.size
    → (end : ℕ) × (skip_spaces i b ≡ some end)
      × (end ≤ i)
      × ((j : ℕ) → end < j → j ≤ i → b.at j ≡ space)
      × ((end ≡ 0) ⊎ (b.at end ≢ space))
unfolding skip_spaces
skip_spaces-stop zero b lt = (0, refl, omega arith, (λ j gt le. absurd (omega arith)), inl refl)
skip_spaces-stop (suc n) b lt =
    let (end, run, le, blank, solid) = skip_spaces-stop n b (omega arith) in
    elim (Bool-cases (b.at (suc n) == space)) [
      | inl is_space ↦ (
        end,
        rw (load-inside b (suc n) lt, is_space) run,
        omega arith,
        (λ j gt le'. ground (arith, blank j)),
        solid,
      )
      | inr char ↦ (
        suc n,
        rw (load-inside b (suc n) lt, char),
        omega arith,
        (λ j gt le'. absurd (omega arith)),
        inr (ground arith),
      )
    ]

skip_word-stop :
    (i : ℕ) (b : Buffer)
    → i < b.size
    → (start : ℕ) × (skip_word i b ≡ some start)
      × (start ≤ i)
      × ((j : ℕ) → start < j → j ≤ i → b.at j ≢ space)
      × ((start ≡ 0) ⊎ (b.at start ≡ space))
unfolding skip_word
skip_word-stop zero b lt = (0, refl, omega arith, (λ j gt le. absurd (omega arith)), inl refl)
skip_word-stop (suc n) b lt =
    let (start, run, le, word, stop) = skip_word-stop n b (omega arith) in
    elim (Bool-cases (b.at (suc n) == space)) [
      | inl is_space ↦ (
        suc n,
        rw (load-inside b (suc n) lt, is_space),
        omega arith,
        (λ j gt le'. absurd (omega arith)),
        inr (ground arith),
      )
      | inr char ↦ (
        start,
        rw (load-inside b (suc n) lt, char) run,
        omega arith,
        (λ j gt le'. ground (arith, word j)),
        stop,
      )
    ]

-- From `start` to `end` a word, then only spaces to the cursor; in front of `start` the line begins
-- or a space stands. There is no word where the cursor is at the start of the line, and where only
-- spaces are in front of it; then `start` is behind the first of them.
pub record LastWord (b : Buffer) (cursor start end : ℕ) : Type 0 where
  pub start_fits : start ≤ end
  pub end_fits : end ≤ cursor
  pub word : (j : ℕ) → start ≤ j → j < end → b.at j ≢ space
  pub blank : (j : ℕ) → end ≤ j → j < cursor → b.at j ≡ space
  pub some_word :
      (start < end)
      ⊎ (start ≡ end) × ((cursor ≡ 0) × (end ≡ 0) ⊎ (end ≡ 1) × (1 ≤ cursor) × (b.at 0 ≡ space))
  pub edge : (start ≡ 0) ⊎ (b.at (start - 1) ≡ space)

-- A space that ends the way back is in front of the word, or is the first of nothing but spaces.
word_or_blank :
    (e w cursor : ℕ) (b : Buffer)
    → 0 < cursor
    → w ≤ e
    → (e ≡ 0) ⊎ (b.at e ≢ space)
    → b.at w ≡ space
    → (w + 1 < e + 1)
      ⊎ (w + 1 ≡ e + 1)
        × ((cursor ≡ 0) × (e + 1 ≡ 0) ⊎ (e + 1 ≡ 1) × (1 ≤ cursor) × (b.at 0 ≡ space))
word_or_blank e w cursor b gt le (inl start) is_space =
    inr (omega arith, inr (omega arith, gt, ground arith))
word_or_blank e w cursor b gt le (inr char) is_space = elim (Bool-cases (w == e)) [
  | inl here ↦ absurd (ground arith)
  | inr front ↦ inl (ground arith)
]

pub word_start-LastWord :
    (cursor : ℕ) (b : Buffer)
    → 0 < cursor
    → cursor ≤ b.size
    → (start : ℕ) × (word_start cursor b ≡ some start) × ((end : ℕ) × LastWord b cursor start end)
unfolding word_start
word_start-LastWord cursor b gt fits =
    let (e, run₁, le₁, blank, solid) = skip_spaces-stop (cursor - 1) b (omega arith) in
    let (w, run₂, le₂, word, stop) = skip_word-stop e b (omega arith) in
    let load = load-inside b w (omega arith) in
    elim (Bool-cases (b.at w == space)) [
      | inr char ↦ (
        w,
        rw (run₁, run₂, load, char),
        (
          e + 1,
          record {
            start_fits = omega arith;
            end_fits = omega arith;
            word = λ j le lt. ground (arith, word j);
            blank = λ j le lt. blank j (omega arith) (omega arith);
            some_word = inl (omega arith);
            edge = inl (ground (arith, stop));
          },
        ),
      )
      | inl is_space ↦ (
        w + 1,
        rw (run₁, run₂, load, is_space),
        (
          e + 1,
          record {
            start_fits = omega arith;
            end_fits = omega arith;
            word = λ j le lt. ground (arith, word j);
            blank = λ j le lt. blank j (omega arith) (omega arith);
            some_word = word_or_blank e w cursor b gt le₂ solid (ground arith);
            edge = inr (ground arith);
          },
        ),
      )
    ]

-- In a well-formed shell, Ctrl+W takes out the last run of characters that are no spaces in front
-- of the cursor, which has at least one character, together with the spaces behind it up to the
-- cursor, and moves the rest of the line up; where only spaces are in front of the cursor it
-- takes out all of them but the first, and at the start of the line it does nothing.
pub delete_word-Removed :
    (s : Shell)
    → IsShell s
    → Ends
        (λ s'.
          (start : ℕ) × (end : ℕ) × LastWord s.input_buffer s.cursor_pos start end
          × (Removed start (s.cursor_pos - start) s s' ⊎ (s.cursor_pos ≡ 0) × (s' ≡ s)))
        (delete_word s)
unfolding delete_word
delete_word-Removed s is = elim (Bool-cases (ltb 0 s.cursor_pos)) [
  | inr at_start ↦ (
    s,
    rw at_start,
    is,
    (
      0,
      0,
      record {
        start_fits = omega arith;
        end_fits = omega arith;
        word = λ j le lt. absurd (omega arith);
        blank = λ j le lt. absurd (ground arith);
        some_word = inr (refl, inl (ground arith, refl));
        edge = inl refl;
      },
      inr (ground arith, refl),
    ),
  )
  | inl inside ↦
      let (start, run₁, (end, last)) =
        word_start-LastWord s.cursor_pos s.input_buffer (ground arith)
          (omega (arith, is.line.inside, is.cursor_fits)) in
      let count = s.cursor_pos - start in
      let le : start ≤ s.cursor_pos = omega (arith, last.start_fits, last.end_fits) in
      let (s', run₂, is', rm) =
        remove_chars-Removed (s.input_index - count - start) start count s is
          (omega (arith, is.cursor_fits)) (omega arith) (omega (arith, is.cursor_fits)) in
      (s', rw (inside, run₁) run₂, is', (start, end, last, inl rm))
]
