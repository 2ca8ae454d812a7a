-- ===== src/CString.antt =====
-- The string functions of kernel/src/memory.c over bounded arrays of `char`.
pub mod Copy
pub mod Laws
mod Tests
use bin_os_c.Base.{
  ℕ, zero, suc, ◌+◌, ◌%◌, Bool, true, false, ◌&&◌, ◌||◌, not, Option, none, some, ltb, ◌==◌,
  if◌then◌else◌, ◌>>=◌,
}
use bin_os_c.Base.Int.{ℤ, pos, negsuc, sub_ℕ}

-- An array object of `size` bytes; a byte is below 256.
pub record Buffer : Type 0 where
  pub size : ℕ
  pub at : ℕ → ℕ

-- A read or write outside the array is a fault.
unfoldable pub load : Buffer → ℕ → Option ℕ
load b i = if ltb i b.size then some (b.at i) else none

unfoldable pub store : Buffer → ℕ → ℕ → Option Buffer
store b i c =
    if ltb i b.size then some (record b { at = λ j. if j == i then c else b.at j }) else none

-- A `char *`, NULL or to the start of an array.
abbrev pub Str : Type 0
Str = Option Buffer

-- The loops have one round for each byte of the array and one more, in which a read faults.
strlen_loop : ℕ → Buffer → ℕ → Option ℕ
strlen_loop zero b i = none
strlen_loop (suc k) b i = do c ← load b i; if c == 0 then some i else strlen_loop k b (i + 1)

unfoldable pub strlen : Str → Option ℕ
unfolding strlen_loop
strlen none = some 0
strlen (some b) = strlen_loop (b.size + 1) b 0

-- `*str1 && *str2 && *str1 == *str2`
abbrev pub goes_on : ℕ → ℕ → Bool
goes_on x y = not (x == 0) && not (y == 0) && x == y

strcmp_loop : ℕ → Buffer → Buffer → ℕ → Option ℤ
strcmp_loop zero a b i = none
strcmp_loop (suc k) a b i = do
  x ← load a i
  y ← load b i
  if goes_on x y then strcmp_loop k a b (i + 1) else some (sub_ℕ x y)

unfoldable pub strcmp : Str → Str → Option ℤ
unfolding strcmp_loop
strcmp none none = some (pos 0)
strcmp none (some b) = some (negsuc 0)
strcmp (some a) none = some (pos 1)
strcmp (some a) (some b) = strcmp_loop (a.size + 1) a b 0

-- `n` counts down, so it bounds the rounds.
strncmp_loop : ℕ → Buffer → Buffer → ℕ → Option ℤ
strncmp_loop zero a b i = some (pos 0)
strncmp_loop (suc n) a b i = do
  x ← load a i
  y ← load b i
  if goes_on x y then strncmp_loop n a b (i + 1) else some (sub_ℕ x y)

unfoldable pub strncmp : Str → Str → ℕ → Option ℤ
unfolding strncmp_loop
strncmp none none n = some (pos 0)
strncmp none (some b) n = some (negsuc 0)
strncmp (some a) none n = some (pos 1)
strncmp (some a) (some b) n = strncmp_loop n a b 0

memcmp_loop : ℕ → Buffer → Buffer → ℕ → Option ℤ
memcmp_loop zero a b i = some (pos 0)
memcmp_loop (suc left) a b i = do
  x ← load a i
  y ← load b i
  if x == y then memcmp_loop left a b (i + 1) else some (if ltb x y then negsuc 0 else pos 1)

unfoldable pub memcmp : Buffer → Buffer → ℕ → Option ℤ
unfolding memcmp_loop
memcmp a b n = memcmp_loop n a b 0

-- The destination afterwards; it does not overlap the source.
strcpy_loop : ℕ → Buffer → Buffer → ℕ → Option Buffer
strcpy_loop zero dest src i = none
strcpy_loop (suc k) dest src i = do
  c ← load src i
  if c == 0 then store dest i 0 else (do d ← store dest i c; strcpy_loop k d src (i + 1))

unfoldable pub strcpy : Str → Str → Option Str
unfolding strcpy_loop
strcpy none src = some none
strcpy (some dest) none = some (some dest)
strcpy (some dest) (some src) = do d ← strcpy_loop (src.size + 1) dest src 0; some (some d)

-- `for (; i < n; i++) dest[i] = '\0';` with `left` rounds to go.
fill_zero : ℕ → Buffer → ℕ → Option Buffer
fill_zero zero dest i = some dest
fill_zero (suc left) dest i = do d ← store dest i 0; fill_zero left d (i + 1)

strncpy_loop : ℕ → Buffer → Buffer → ℕ → Option Buffer
unfolding fill_zero
strncpy_loop zero dest src i = some dest
strncpy_loop (suc left) dest src i = do
  c ← load src i
  if c == 0
      then fill_zero (suc left) dest i
      else (do d ← store dest i c; strncpy_loop left d src (i + 1))

unfoldable pub strncpy : Str → Str → ℕ → Option Str
unfolding strncpy_loop
strncpy none src n = some none
strncpy (some dest) none n = some (some dest)
strncpy (some dest) (some src) n = do d ← strncpy_loop n dest src 0; some (some d)
