-- ===== src/Shell/History.antt =====
-- The history of kernel/src/shell/shell.c: a ring of the last commands.
use bin_os_c.Base.{
  ℕ, ◌+◌, ◌-◌, ◌%◌, ◌<◌, ◌≡◌, ◌≢◌, ◌↔◌, refl, sym, subst, ◌∙◌, Bool, true, false, some, arith, ◌==◌,
  Bool-cases, ◌⊎◌, inl, inr,
}
use bin_os_c.Base.Int.{ℤ, pos, negsuc}
use bin_os_c.CString.{Buffer}
use bin_os_c.CString.Laws.{IsString, SameFrom, IsString-length, strlen-IsString, strcmp-Compares}
use bin_os_c.CString.Copy.{CopiedFrom, strcpy-CopiedFrom}
use bin_os_c.Shell.{Shell, max_history_entries, max_input_length}
use bin_os_c.Shell.Input.{
  copy_string, is_zero, set_history, append_history, same_command, shell_add_to_history,
}
use bin_os_c.Shell.Line.{Ends}
use bin_os_c.Shell.State.{IsShell, HasString}

-- The strings in two arrays are the same.
abbrev pub SameString : Buffer → Buffer → Type 0
SameString a b = (n : ℕ) × (m : ℕ) × IsString a n × IsString b m × SameFrom a b 0 n m

pub copied-IsString :
    (dest src d : Buffer) (n : ℕ)
    → IsString src n
    → n < dest.size
    → CopiedFrom dest src d 0 n
    → IsString d n
copied-IsString dest src d n is fits c = record {
  chars = λ j lt. ground (arith, c.chars j, is.chars j);
  ends = ground (arith, c.ends);
  inside = omega (arith, c.same_size);
}

-- A string copied between two of the shell's arrays.
pub copy_string-SameString :
    (dest src : Buffer) (n : ℕ) (s : Shell)
    → IsString src n
    → n < dest.size
    → (d : Buffer) × (copy_string dest src s ≡ some (d, s))
      × (d.size ≡ dest.size)
      × IsString d n
      × SameFrom d src 0 n n
unfolding copy_string
copy_string-SameString dest src n s is fits =
    let (d, run, c) = strcpy-CopiedFrom dest src n is fits in
    (
      d,
      rw run,
      c.same_size,
      copied-IsString dest src d n is fits c,
      (refl, λ j lt. ground (arith, c.chars j)),
    )

pub is_zero_iff : (r : ℤ) → (is_zero r ≡ true) ↔ (r ≡ pos 0)
is_zero_iff (pos d) = ((λ e. ground arith), λ e. ground arith)
is_zero_iff (negsuc d) = ((λ e. absurd (ground arith)), λ e. absurd (ground arith))

same_command_iff :
    (entry command : Buffer) (m n : ℕ)
    → IsString entry m
    → IsString command n
    → (b : Bool) × (same_command entry command ≡ some b)
      × ((b ≡ true) ↔ (0 < m) × SameFrom entry command 0 m n)
unfolding same_command
same_command_iff entry command m n is is' = elim (Bool-cases (m == 0)) [
  | inl empty ↦ (
    false,
    rw (strlen-IsString entry m is, empty),
    ((λ e. absurd (ground arith)), λ e. absurd (ground (arith, e.0))),
  )
  | inr full ↦
      let (r, run, iff) = strcmp-Compares entry command m n is is' in
      (
        is_zero r,
        rw (strlen-IsString entry m is, full, run),
        ((λ e. (ground arith, iff.0 ((is_zero_iff r).0 e))), λ e. (is_zero_iff r).1 (iff.1 e.1)),
      )
]

-- The same shell with another history.
pub history-IsShell :
    (h : ℕ → Buffer) (i c : ℕ) (s : Shell)
    → ((j : ℕ) → j < max_history_entries → HasString (h j))
    → i < max_history_entries
    → c < max_history_entries
    → IsShell s
    → IsShell (record s { history = h; history_index = i; history_current = c })
history-IsShell h i c s entries lt lt' is = record {
  input_size = is.input_size;
  line = is.line;
  cursor_fits = is.cursor_fits;
  command = is.command;
  index_fits = lt;
  current_fits = lt';
  entries = entries;
  ready = is.ready;
}

-- The entry behind the newest one has become the command, of length `n`; the others stay.
pub record Appended (command : Buffer) (n : ℕ) (s s' : Shell) : Type 0 where
  pub newest : IsString (s'.history s.history_index) n
  pub same : SameFrom (s'.history s.history_index) command 0 n n
  pub others : (j : ℕ) → j ≢ s.history_index → s'.history j ≡ s.history j
  pub index : s'.history_index ≡ (s.history_index + 1) % max_history_entries
  pub current : s'.history_current ≡ s'.history_index

-- Only the history is another.
pub record SameLine (s s' : Shell) : Type 0 where
  pub line : s'.input_buffer ≡ s.input_buffer
  pub length : s'.input_index ≡ s.input_index
  pub cursor : s'.cursor_pos ≡ s.cursor_pos
  pub command : s'.command_buffer ≡ s.command_buffer

set_history-there : (i : ℕ) (b : Buffer) (h : ℕ → Buffer) → set_history i b h i ≡ b
unfolding set_history
set_history-there i b h = let e : (i == i) ≡ true = ground arith in rw e refl

set_history-other :
    (i : ℕ) (b : Buffer) (h : ℕ → Buffer) (j : ℕ) → j ≢ i → set_history i b h j ≡ h j
unfolding set_history
set_history-other i b h j ne = let e : (j == i) ≡ false = ground arith in rw e refl

set_history-HasString :
    (i : ℕ) (b : Buffer) (h : ℕ → Buffer) (j : ℕ)
    → HasString (h j)
    → HasString b
    → HasString (set_history i b h j)
unfolding set_history
set_history-HasString i b h j old new = elim (Bool-cases (j == i)) [
  | inl e ↦ rw e new
  | inr e ↦ rw e old
]

append_history-Appended :
    (command : Buffer) (n : ℕ) (s : Shell)
    → IsShell s
    → IsString command n
    → n < max_input_length
    → Ends (λ s'. Appended command n s s' × SameLine s s') (append_history command s)
unfolding append_history
append_history-Appended command n s is str fits =
    let i = s.history_index in
    let (size, old) = is.entries i is.index_fits in
    let (d, run, same_size, line, same) =
      copy_string-SameString (s.history i) command n s str (omega (arith, size)) in
    let next = (i + 1) % max_history_entries in
    let h = set_history i d s.history in
    (
      record s { history = h; history_index = next; history_current = next },
      rw run,
      history-IsShell h next next s
          (λ j lt.
            set_history-HasString i d s.history j (is.entries j lt) (same_size ∙ size, (n, line)))
          (omega arith) (omega arith) is,
      (
        record {
          newest = subst (λ b. IsString b n) (sym (set_history-there i d s.history)) line;
          same = subst (λ b. SameFrom b command 0 n n) (sym (set_history-there i d s.history)) same;
          others = λ j ne. set_history-other i d s.history j ne;
          index = refl;
          current = refl;
        },
        record { line = refl; length = refl; cursor = refl; command = refl },
      ),
    )

abbrev pub newest : Shell → Buffer
newest s = s.history ((s.history_index + max_history_entries - 1) % max_history_entries)

-- The history is as it was, except that going back starts at the newest entry.
pub record Unchanged (s s' : Shell) : Type 0 where
  pub history : s'.history ≡ s.history
  pub index : s'.history_index ≡ s.history_index
  pub current : (s'.history_current ≡ s.history_current) ⊎ (s'.history_current ≡ s.history_index)

-- The empty command and one that repeats the newest entry are not stored; any other command is
-- stored behind the newest entry.
abbrev pub Remembers : Buffer → ℕ → Shell → Shell → Type 0
Remembers command n s s' =
    ((n ≡ 0) ⊎ SameString (newest s) command) × Unchanged s s'
    ⊎ (0 < n) × ¬ SameString (newest s) command × Appended command n s s'

differs :
    (entry command : Buffer) (m n : ℕ) (b : Bool)
    → IsString entry m
    → IsString command n
    → ((b ≡ true) ↔ (0 < m) × SameFrom entry command 0 m n)
    → 0 < n
    → b ≡ false
    → ¬ SameString entry command
differs entry command m n b is is' iff gt new (m', n', is₂, is₂', (e, same)) =
    let em = IsString-length entry m m' is is₂ in
    let en = IsString-length command n n' is' is₂' in
    let yes' = iff.1 (omega arith, (omega arith, λ j lt. same j (omega arith))) in
    absurd (ground arith)

-- In a well-formed shell, for a command of fewer than 256 characters: an empty command and one
-- that repeats the newest entry leave the history's entries as they were; any other is copied
-- behind the newest entry, which it becomes, and the other entries stay.
pub add_to_history-Remembers :
    (command : Buffer) (n : ℕ) (s : Shell)
    → IsShell s
    → IsString command n
    → n < max_input_length
    → Ends (λ s'. Remembers command n s s' × SameLine s s') (shell_add_to_history command s)
unfolding shell_add_to_history
add_to_history-Remembers command n s is str fits = elim (Bool-cases (n == 0)) [
  | inl empty ↦ (
    s,
    rw (strlen-IsString command n str, empty),
    is,
    (
      inl (inl (ground arith), record { history = refl; index = refl; current = inl refl }),
      record { line = refl; length = refl; cursor = refl; command = refl },
    ),
  )
  | inr full ↦
      let (size, (m, old)) =
        is.entries ((s.history_index + max_history_entries - 1) % max_history_entries)
          (omega arith) in
      let (b, run, iff) = same_command_iff (newest s) command m n old str in
      elim (Bool-cases b) [
        | inl same ↦ (
          record s { history_current = s.history_index },
          rw (strlen-IsString command n str, full, run, same),
          history-IsShell s.history s.history_index s.history_index s is.entries is.index_fits
              is.index_fits is,
          (
            inl (
              inr (m, n, old, str, (iff.0 same).1),
              record { history = refl; index = refl; current = inr refl },
            ),
            record { line = refl; length = refl; cursor = refl; command = refl },
          ),
        )
        | inr new ↦
            let (s', run', is', (app, rest)) = append_history-Appended command n s is str fits in
            (
              s',
              rw (strlen-IsString command n str, full, run, new) run',
              is',
              (
                inr (
                  ground arith,
                  differs (newest s) command m n b old str iff (ground arith) new,
                  app,
                ),
                rest,
              ),
            )
      ]
]
