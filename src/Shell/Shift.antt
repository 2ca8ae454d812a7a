-- ===== src/Shell/Shift.antt =====
-- The two loops of kernel/src/shell/shell.c that move characters along the line.
use bin_os_c.Base.{ℕ, zero, suc, ◌+◌, ◌-◌, ◌≤◌, ◌<◌, ◌≡◌, refl, some, arith, ◌==◌, if◌then◌else◌}
use bin_os_c.CString
use bin_os_c.CString.{Buffer}
use bin_os_c.CString.Laws.{load-inside}
use bin_os_c.Shell.{shift_left, shift_right}

pub record ShiftedLeft (left i d : ℕ) (b b' : Buffer) : Type 0 where
  pub same_size : b'.size ≡ b.size
  pub before : (j : ℕ) → j < i → b'.at j ≡ b.at j
  pub moved : (j : ℕ) → i ≤ j → j < i + left → b'.at j ≡ b.at (j + d)
  pub behind : (j : ℕ) → i + left ≤ j → b'.at j ≡ b.at j

pub record ShiftedRight (left from : ℕ) (b b' : Buffer) : Type 0 where
  pub same_size : b'.size ≡ b.size
  pub before : (j : ℕ) → j ≤ from → b'.at j ≡ b.at j
  pub moved : (j : ℕ) → from < j → j ≤ from + left → b'.at j ≡ b.at (j - 1)
  pub behind : (j : ℕ) → from + left < j → b'.at j ≡ b.at j

abbrev pub written : Buffer → ℕ → ℕ → Buffer
written b i c = record b { at = λ j. if j == i then c else b.at j }

pub store-inside : (b : Buffer) (i c : ℕ) → i < b.size → CString.store b i c ≡ some (written b i c)
unfolding CString.store
store-inside b i c lt = ground arith

pub shift_left-ShiftedLeft :
    (left i d : ℕ) (b : Buffer)
    → i + left + d ≤ b.size
    → (b' : Buffer) × (shift_left left i d b ≡ some b') × ShiftedLeft left i d b b'
unfolding shift_left
shift_left-ShiftedLeft zero i d b fits = (b, refl, ground arith)
shift_left-ShiftedLeft (suc left) i d b fits =
    let c = b.at (i + d) in
    let (b', run, sh) = shift_left-ShiftedLeft left (i + 1) d (written b i c) (omega arith) in
    (
      b',
      rw (load-inside b (i + d) (omega arith), store-inside b i c (omega arith)) run,
      record {
        same_size = sh.same_size;
        before = λ j lt. ground (arith, sh.before j);
        moved = λ j le lt. ground (arith, sh.before j, sh.moved j);
        behind = λ j le. ground (arith, sh.behind j);
      },
    )

pub shift_right-ShiftedRight :
    (left from : ℕ) (b : Buffer)
    → from + left < b.size
    → (b' : Buffer) × (shift_right left from b ≡ some b') × ShiftedRight left from b b'
unfolding shift_right
shift_right-ShiftedRight zero from b fits = (b, refl, ground arith)
shift_right-ShiftedRight (suc left) from b fits =
    let c = b.at (from + left) in
    let (b', run, sh) =
      shift_right-ShiftedRight left from (written b (from + suc left) c) (omega arith) in
    (
      b',
      rw
          (
            load-inside b (from + left) (omega arith),
            store-inside b (from + suc left) c (omega arith),
          )
          run,
      record {
        same_size = sh.same_size;
        before = λ j le. ground (arith, sh.before j);
        moved = λ j lt le. ground (arith, sh.moved j, sh.behind j);
        behind = λ j lt. ground (arith, sh.behind j);
      },
    )
