-- ===== src/Number.antt =====
-- Numbers as text: kernel/src/utility.c, and the two helpers of kernel/src/serial/serial.c.
pub mod Digits
pub mod Read
pub mod Same
pub mod Static
pub mod Text
mod Tests
use bin_os_c.Base.{
  ℕ, zero, suc, ◌+◌, ◌-◌, ◌*◌, ◌/◌, ◌%◌, ◌^◌, Option, none, some, ltb, leb, ◌==◌, if◌then◌else◌,
  ◌>>=◌,
}
use bin_os_c.Base.Int.{ℤ, pos, negsuc}
use bin_os_c.CString.{Buffer, load, store}
use bin_os_c.Terminal.{literal, codes}

-- The exchange of `b[lo]` and `b[hi]`, inwards until they meet.
unfoldable pub reverse_loop : ℕ → ℕ → ℕ → Buffer → Option Buffer
reverse_loop zero lo hi b = if ltb lo hi then none else some b
reverse_loop (suc k) lo hi b =
    if ltb lo hi
    then (do
      temp ← load b lo
      c ← load b hi
      b₁ ← store b lo c
      b₂ ← store b₁ hi temp
      reverse_loop k (lo + 1) (hi - 1) b₂)
    else some b

-- The `do` loop; it writes a digit each round, so it has a round for each byte of the array.
unfoldable pub digit_loop : ℕ → ℕ → ℕ → Buffer → ℕ → Option (Buffer × ℕ)
digit_loop zero base n b i = none
digit_loop (suc k) base n b i = do
  let q = n / base
  c ← load (literal (codes "0123456789abcdef")) (n - q * base)
  b₁ ← store b i c
  if q == 0 then some (b₁, i + 1) else digit_loop k base q b₁ (i + 1)

-- The digits from `first` on, the terminator, and the exchange.
unfoldable pub write_digits : ℕ → ℕ → Buffer → ℕ → Option Buffer
write_digits base n str first = do
  (b, ptr) ← digit_loop str.size base n str first
  b₁ ← store b ptr 0
  reverse_loop str.size first (ptr - 1) b₁

unfoldable pub uint_to_string : ℕ → Buffer → ℕ → Option Buffer
uint_to_string value str base = write_digits base value str 0

-- The negation of the least `int` is undefined, and so is the index of a negative digit.
unfoldable pub int_to_string : ℤ → Buffer → ℕ → Option Buffer
int_to_string (pos n) str base = write_digits base n str 0
int_to_string (negsuc n) str base =
    if (base == 10)
    then (if leb (2 ^ 31) (n + 1)
        then none
        else (do b ← store str 0 b'-'; write_digits base (n + 1) b 1))
    else none

-- `while (s > 0)`, with a round for each byte of the array.
unfoldable pub to_string_loop : ℕ → ℕ → Buffer → ℕ → Option (Buffer × ℕ)
to_string_loop k zero b i = some (b, i)
to_string_loop zero (suc n) b i = none
to_string_loop (suc k) (suc n) b i = do
  b₁ ← store b i (suc n % 10 + b'0')
  to_string_loop k (suc n / 10) b₁ (i + 1)

-- The rest of `to_string` behind the loop.
unfoldable pub finish_string : Buffer → ℕ → Option Buffer
finish_string b i = do b₁ ← store b i 0; reverse_loop b.size 0 (i - 1) b₁

-- `buffer` is the static array, which is returned.
unfoldable pub to_string : ℤ → Buffer → Option Buffer
to_string (pos zero) buffer = do b ← store buffer 0 b'0'; store b 1 0
to_string (pos (suc n)) buffer = do
  (b, i) ← to_string_loop buffer.size (suc n) buffer 0
  finish_string b i
to_string (negsuc n) buffer = if leb (2 ^ 31) (n + 1) then none else (do
  (b, i) ← to_string_loop buffer.size (n + 1) buffer 0
  b₁ ← store b i b'-'
  finish_string b₁ (i + 1))
