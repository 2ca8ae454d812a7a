-- ===== src/Serial.antt =====
-- kernel/src/serial/serial.c: text over the serial port.
pub mod Line
pub mod Printf
pub mod Sends
mod Tests
pub mod Text
use bin_os_c.Base.{
  ℕ, zero, suc, ◌+◌, ◌-◌, ◌%◌, ◌^◌, bit_and, Bool, true, false, ◌&&◌, ◌||◌, Option, none, some,
  List, [], ◌∷◌, leb, ltb, ◌==◌, if◌then◌else◌,
}
use bin_os_c.Base
use bin_os_c.Base.Int.{ℤ, pos, negsuc}
use bin_os_c.CString
use bin_os_c.CString.{Buffer, Str}
use bin_os_c.Terminal.{literal, codes}
use bin_os_c.Number.{int_to_string, uint_to_string}
use bin_os_c.Io.{Ports, M, pure, ◌>>=◌, ◌>>◌, lift, fault, inb, outb}

-- COM1
abbrev pub port : ℕ
port = 0x3f8

-- What `va_arg` finds.
pub data Arg : Type 0 where
  int : ℤ → Arg
  unsigned : ℕ → Arg
  string : Str → Arg
  pointer : ℕ → Arg

-- An argument of another type than the one asked for is undefined, unless it is an integer that
-- both types hold.
unfoldable pub next_int : List Arg → Option (ℤ × List Arg)
next_int (int v ∷ args) = some (v, args)
next_int (unsigned n ∷ args) = if ltb n (2 ^ 31) then some (pos n, args) else none
next_int _ = none

unfoldable pub next_unsigned : List Arg → Option (ℕ × List Arg)
next_unsigned (unsigned n ∷ args) = some (n, args)
next_unsigned (int (pos n) ∷ args) = some (n, args)
next_unsigned _ = none

unfoldable pub next_string : List Arg → Option (Str × List Arg)
next_string (string s ∷ args) = some (s, args)
next_string _ = none

unfoldable pub next_pointer : List Arg → Option (ℕ × List Arg)
next_pointer (pointer p ∷ args) = some (p, args)
next_pointer _ = none

-- `(char)`
unfoldable pub low_byte : ℤ → ℕ
low_byte (pos n) = n % 2 ^ 8
low_byte (negsuc n) = 2 ^ 8 - 1 - n % 2 ^ 8

abbrev pub is_hex_letter : ℕ → Bool
is_hex_letter c = leb b'a' c && leb c b'f'

-- `for (i = 0; buffer[i]; i++)`
unfoldable pub upper_loop : ℕ → Buffer → ℕ → Option Buffer
upper_loop zero b i = none
upper_loop (suc k) b i = Base.◌>>=◌ (CString.load b i) λ c.
    if c == 0
    then some b
    else Base.◌>>=◌ (if is_hex_letter c then CString.store b i (c - b'a' + b'A') else some b)
        λ b₁. upper_loop k b₁ (i + 1)

unfoldable pub to_upper : Buffer → Option Buffer
to_upper b = upper_loop (b.size + 1) b 0

-- `patience` bounds the rounds of the loops that poll the port.
module _ {D : Type 0} (io : Ports D) (patience : ℕ) where
  unfoldable pub init_serial : M D ℕ
  init_serial = do
    outb io (port + 1) 0x00
    outb io (port + 3) 0x80
    outb io (port + 0) 0x03
    outb io (port + 1) 0x00
    outb io (port + 3) 0x03
    outb io (port + 2) 0xc7
    outb io (port + 4) 0x0b
    outb io (port + 4) 0x1e
    outb io (port + 0) 0xae
    c ← inb io (port + 0)
    if c == 0xae then (do outb io (port + 4) 0x0f; pure 0) else pure 1

  unfoldable pub is_transmit_empty : M D ℕ
  is_transmit_empty = do status ← inb io (port + 5); pure (bit_and status 0x20)

  -- `while (is_transmit_empty() == 0);`
  unfoldable pub wait_transmit : ℕ → M D (Unit {0})
  wait_transmit zero = fault
  wait_transmit (suc k) = do
    empty ← is_transmit_empty
    if empty == 0 then wait_transmit k else pure tt

  unfoldable pub write_serial_char : ℕ → M D (Unit {0})
  write_serial_char a = do wait_transmit patience; outb io port a

  unfoldable pub write_loop : ℕ → Buffer → ℕ → M D (Unit {0})
  write_loop zero str i = fault
  write_loop (suc k) str i = do
    c ← lift (CString.load str i)
    if c == 0 then pure tt else do write_serial_char c; write_loop k str (i + 1)

  unfoldable pub write_serial : Buffer → M D (Unit {0})
  write_serial str = do write_loop (str.size + 1) str 0; write_serial_char 13; write_serial_char 10

  -- The `switch`; the result is the arguments that are left and the array for the numbers.
  unfoldable pub conversion : ℕ → List Arg → Buffer → M D (List Arg × Buffer)
  conversion c args buffer =
      if c == b'd' || c == b'i'
      then (do
        (value, rest) ← lift (next_int args)
        b ← lift (int_to_string value buffer 10)
        write_serial b
        pure (rest, b))
      else if c == b'u'
      then (do
        (value, rest) ← lift (next_unsigned args)
        b ← lift (uint_to_string value buffer 10)
        write_serial b
        pure (rest, b))
      else if c == b'x'
      then (do
        (value, rest) ← lift (next_unsigned args)
        b ← lift (uint_to_string value buffer 16)
        write_serial b
        pure (rest, b))
      else if c == b'X'
      then (do
        (value, rest) ← lift (next_unsigned args)
        b ← lift (uint_to_string value buffer 16)
        b₁ ← lift (to_upper b)
        write_serial b₁
        pure (rest, b₁))
      else if c == b'c'
      then (do
        (value, rest) ← lift (next_int args)
        write_serial_char (low_byte value)
        pure (rest, buffer))
      else if c == b's'
      then (do
        (str, rest) ← lift (next_string args)
        write_serial (elim str [ none ↦ literal (codes "(null)") | some s ↦ s ])
        pure (rest, buffer))
      else if c == b'p'
      then (do
        (ptr, rest) ← lift (next_pointer args)
        write_serial (literal (codes "0x"))
        b ← lift (uint_to_string (ptr % 2 ^ 32) buffer 16)
        write_serial b
        pure (rest, b))
      else if c == b'%'
      then (do write_serial_char b'%'; pure (args, buffer))
      else (do write_serial_char b'%'; write_serial_char c; pure (args, buffer))

  -- `while (*format)`; behind a `%` two characters are taken.
  unfoldable pub printf_loop : ℕ → Buffer → ℕ → List Arg → Buffer → M D (Unit {0})
  printf_loop zero format i args buffer = fault
  printf_loop (suc k) format i args buffer = do
    c ← lift (CString.load format i)
    if c == 0
        then pure tt
        else if c == b'%'
        then (do
          c₁ ← lift (CString.load format (i + 1))
          (rest, b) ← conversion c₁ args buffer
          printf_loop k format (i + 2) rest b)
        else (do write_serial_char c; printf_loop k format (i + 1) args buffer)

  -- `buffer` is the array on the stack.
  unfoldable pub serial_printf : Buffer → List Arg → Buffer → M D (Unit {0})
  serial_printf format args buffer = printf_loop (format.size + 1) format 0 args buffer
