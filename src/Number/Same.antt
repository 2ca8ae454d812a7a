-- ===== src/Number/Same.antt =====
-- `to_string` of kernel/src/utility.c and `int_to_string` of kernel/src/serial/serial.c.
use bin_os_c.Base.{
  ℕ, ◌+◌, ◌-◌, ◌*◌, ◌/◌, ◌%◌, ◌^◌, ◌≤◌, ◌<◌, ◌≡◌, inl, inr, false, some, List, length, arith, ltb,
  leb, Bool-cases,
}
use bin_os_c.Base.Int.{ℤ, pos, negsuc}
use bin_os_c.CString.{Buffer}
use bin_os_c.CString.Laws.{IsString}
use bin_os_c.Shell.Shift.{written, store-inside}
use bin_os_c.Number.{uint_to_string, int_to_string}
use bin_os_c.Number.Digits.{digits, Fits, Spells, length-digits}
use bin_os_c.Number.Text.{write_digits-Text}
use bin_os_c.Number.Read.{Spells-nonzero, ReadsBack, write_digits-ReadsBack}

pub split_10 : (n : ℕ) → n ≡ n / 10 * 10 + n % 10
split_10 n = omega arith

pub small_10 : (n : ℕ) → n % 10 < 16
small_10 n = omega arith

pub split_16 : (n : ℕ) → n ≡ n / 16 * 16 + n % 16
split_16 n = omega arith

pub small_16 : (n : ℕ) → n % 16 < 16
small_16 n = omega arith

pub ten_digits : (n : ℕ) → n < 2 ^ 32 → Fits 10 10 n
ten_digits n lt = omega arith

pub eight_digits : (n : ℕ) → n < 2 ^ 32 → Fits 8 16 n
eight_digits n lt = omega arith

-- For a number below 2^32 and an array of at least 11 bytes: `uint_to_string` in base 10 and in
-- base 16 ends and writes a terminated string, from which the number is read back.
pub uint_to_string-ReadsBack :
    (value : ℕ) (str : Buffer)
    → value < 2 ^ 32
    → 10 < str.size
    → ((b : Buffer) × (uint_to_string value str 10 ≡ some b)
        × ReadsBack 10 split_10 small_10 b value)
      × ((b : Buffer) × (uint_to_string value str 16 ≡ some b)
          × ReadsBack 16 split_16 small_16 b value)
unfolding uint_to_string
uint_to_string-ReadsBack value str lt room = (
  write_digits-ReadsBack 10 split_10 small_10 9 value str (ten_digits value lt) room,
  write_digits-ReadsBack 16 split_16 small_16 7 value str (eight_digits value lt) (omega arith),
)

-- The sign's place and the digits.
abbrev pub sign_length : ℤ → ℕ
sign_length (pos n) = 0
sign_length (negsuc n) = 1

abbrev pub magnitude : ℤ → ℕ
magnitude (pos n) = n
magnitude (negsuc n) = n + 1

abbrev pub decimal : ℤ → List ℕ
decimal v = digits 10 10 (magnitude v)

-- The array holds the integer in decimal.
pub record IsInteger (v : ℤ) (b : Buffer) : Type 0 where
  pub string : IsString b (sign_length v + length (decimal v))
  pub spells : Spells b (sign_length v) (decimal v)
  pub sign : (j : ℕ) → j < sign_length v → b.at j ≡ b'-'

sign_length-le : (v : ℤ) → sign_length v ≤ 1
sign_length-le (pos n) = omega arith
sign_length-le (negsuc n) = omega arith

pub short_10 : (n : ℕ) → length (digits 10 10 n) ≤ 10
short_10 n = length-digits 10 split_10 10 n

-- The sign's bytes and the digits make one string.
signed-IsString :
    (ds : List ℕ) (b : Buffer) (first : ℕ)
    → ((j : ℕ) → j < first → b.at j ≡ b'-')
    → Spells b first ds
    → b.at (first + length ds) ≡ 0
    → first + length ds < b.size
    → IsString b (first + length ds)
signed-IsString ds b first sign sp ends room = record {
  chars = λ j lt. elim (Bool-cases (ltb j first)) [
    | inl front ↦ ground (arith, sign j)
    | inr digit ↦ ground (arith, Spells-nonzero ds b first (j - first) sp)
  ];
  ends = ground arith;
  inside = omega arith;
}

pub IsInteger-intro :
    (v : ℤ) (b : Buffer)
    → ((j : ℕ) → j < sign_length v → b.at j ≡ b'-')
    → Spells b (sign_length v) (decimal v)
    → b.at (sign_length v + length (decimal v)) ≡ 0
    → 11 < b.size
    → IsInteger v b
IsInteger-intro v b sign sp ends room = record {
  string =
      signed-IsString (decimal v) b (sign_length v) sign sp ends
        (omega (arith, short_10 (magnitude v), sign_length-le v));
  spells = sp;
  sign = sign;
}

-- `int_to_string` writes the integer into its array.
pub int_to_string-IsInteger :
    (v : ℤ) (str : Buffer)
    → magnitude v < 2 ^ 31
    → 11 < str.size
    → (b : Buffer) × (int_to_string v str 10 ≡ some b) × (b.size ≡ str.size) × IsInteger v b
unfolding int_to_string
int_to_string-IsInteger (pos n) str lt room =
    let (b, run, text) =
      write_digits-Text 10 split_10 small_10 9 n str 0 (ten_digits n (omega arith)) (omega arith) in
    (
      b,
      run,
      text.same_size,
      IsInteger-intro (pos n) b (λ j no_sign. absurd (omega arith)) text.spells text.ends
          (omega (arith, text.same_size)),
    )
int_to_string-IsInteger (negsuc n) str lt room =
    let small : leb (2 ^ 31) (n + 1) ≡ false = ground arith in
    let b₁ = written str 0 b'-' in
    let (b, run, text) =
      write_digits-Text 10 split_10 small_10 9 (n + 1) b₁ 1 (ten_digits (n + 1) (omega arith))
        (omega arith) in
    (
      b,
      rw (small, store-inside str 0 b'-' (omega arith)) run,
      text.same_size,
      IsInteger-intro (negsuc n) b (λ j is_sign. ground (arith, text.front j)) text.spells text.ends
          (omega (arith, text.same_size)),
    )
