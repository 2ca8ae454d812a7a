-- ===== src/Serial/Printf.antt =====
-- `serial_printf` of kernel/src/serial/serial.c against a description of the texts it prints.
use bin_os_c.Base.{
  ℕ, ◌+◌, ◌<◌, ◌≡◌, ◌≢◌, ◌^◌, ◌%◌, Bool, false, none, some, List, [], ◌∷◌, ◌++◌, arith, ◌==◌, ◌||◌,
}
use bin_os_c.Base.Int.{ℤ}
use bin_os_c.CString.{Buffer}
use bin_os_c.CString.Laws.{IsString}
use bin_os_c.Terminal.{codes}
use bin_os_c.Number.Same.{magnitude}
use bin_os_c.Serial.{Arg, int, unsigned, string, pointer, low_byte}
use bin_os_c.Serial.Line.{bytes, line}
use bin_os_c.Serial.Text.{decimal_text, hex_text, integer_text, uppers}

-- The letters behind a `%` that mean something.
abbrev pub is_conversion : ℕ → Bool
is_conversion c =
    c == b'd'
    || c == b'i'
    || c == b'u'
    || c == b'x'
    || c == b'X'
    || c == b'c'
    || c == b's'
    || c == b'p'
    || c == b'%'

-- What a conversion prints of the arguments, and the arguments it leaves. A text or a number is
-- followed by the two bytes that `write_serial` adds.
pub data Piece : ℕ → List Arg → List ℕ → List Arg → Type 0 where
  decimal :
      (v : ℤ) (args : List Arg)
      → magnitude v < 2 ^ 31
      → Piece b'd' (int v ∷ args) (line (integer_text v)) args
  integer :
      (v : ℤ) (args : List Arg)
      → magnitude v < 2 ^ 31
      → Piece b'i' (int v ∷ args) (line (integer_text v)) args
  natural :
      (n : ℕ) (args : List Arg)
      → n < 2 ^ 32
      → Piece b'u' (unsigned n ∷ args) (line (decimal_text n)) args
  hex :
      (n : ℕ) (args : List Arg)
      → n < 2 ^ 32
      → Piece b'x' (unsigned n ∷ args) (line (hex_text n)) args
  upper_hex :
      (n : ℕ) (args : List Arg)
      → n < 2 ^ 32
      → Piece b'X' (unsigned n ∷ args) (line (uppers (hex_text n))) args
  character : (v : ℤ) (args : List Arg) → Piece b'c' (int v ∷ args) (low_byte v ∷ []) args
  some_text :
      (s : Buffer) (n : ℕ) (args : List Arg)
      → IsString s n
      → Piece b's' (string (some s) ∷ args) (line (bytes s 0 n)) args
  no_text : (args : List Arg) → Piece b's' (string none ∷ args) (line (codes "(null)")) args
  address :
      (p : ℕ) (args : List Arg)
      → Piece b'p' (pointer p ∷ args) (line (codes "0x") ++ line (hex_text (p % 2 ^ 32))) args
  percent : (args : List Arg) → Piece b'%' args (b'%' ∷ []) args
  other :
      (c : ℕ) (args : List Arg)
      → is_conversion c ≡ false
      → c ≢ 0
      → Piece c args (b'%' ∷ c ∷ []) args

-- What the format from `i` on prints of the arguments.
pub data Renders (format : Buffer) : ℕ → List Arg → List ℕ → Type 0 where
  finish : (i : ℕ) (args : List Arg) → format.at i ≡ 0 → Renders format i args []
  plain :
      (i : ℕ) (args : List Arg) (t : List ℕ)
      → format.at i ≢ 0
      → format.at i ≢ b'%'
      → Renders format (i + 1) args t
      → Renders format i args (format.at i ∷ t)
  converts :
      (i : ℕ) (args args' : List Arg) (t t' : List ℕ)
      → format.at i ≡ b'%'
      → Piece (format.at (i + 1)) args t args'
      → Renders format (i + 2) args' t'
      → Renders format i args (t ++ t')

pub Piece-nonzero :
    (c : ℕ) (args : List Arg) (t : List ℕ) (args' : List Arg) → Piece c args t args' → c ≢ 0
Piece-nonzero c args t args' (decimal v rest lt) = ground arith
Piece-nonzero c args t args' (integer v rest lt) = ground arith
Piece-nonzero c args t args' (natural v rest lt) = ground arith
Piece-nonzero c args t args' (hex v rest lt) = ground arith
Piece-nonzero c args t args' (upper_hex v rest lt) = ground arith
Piece-nonzero c args t args' (character v rest) = ground arith
Piece-nonzero c args t args' (some_text s n rest is) = ground arith
Piece-nonzero c args t args' (no_text rest) = ground arith
Piece-nonzero c args t args' (address p rest) = ground arith
Piece-nonzero c args t args' (percent rest) = ground arith
Piece-nonzero c args t args' (other c' rest letter more) = more

abbrev pub Letters : ℕ → Type 0
Letters c =
    ((c == b'd' || c == b'i') ≡ false)
    × ((c == b'u') ≡ false)
    × ((c == b'x') ≡ false)
    × ((c == b'X') ≡ false)
    × ((c == b'c') ≡ false)
    × ((c == b's') ≡ false)
    × ((c == b'p') ≡ false)
    × ((c == b'%') ≡ false)

pub is_conversion-Letters : (c : ℕ) → is_conversion c ≡ false → Letters c
is_conversion-Letters c no_letter = ground arith
