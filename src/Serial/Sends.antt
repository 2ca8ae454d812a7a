-- ===== src/Serial/Sends.antt =====
-- `serial_printf` of kernel/src/serial/serial.c sends what the description says.
use bin_os_c.Base.{
  ℕ, zero, suc, ◌+◌, ◌<◌, ◌≡◌, ◌^◌, ◌%◌, refl, sym, subst, ◌∙◌, true, false, Option, List, [], ◌∷◌,
  arith, ◌==◌,
}
use bin_os_c.CString.{Buffer}
use bin_os_c.CString.Laws.{StringFrom, IsString, tail, load-inside}
use bin_os_c.Terminal.{literal, codes}
use bin_os_c.Terminal.Laws.{literal-IsString}
use bin_os_c.Io.{Ports}
use bin_os_c.Serial.{
  Arg, next_int, next_unsigned, next_string, next_pointer, low_byte, write_serial,
  write_serial_char, conversion, printf_loop, serial_printf,
}
use bin_os_c.Serial.Line.{Uart, Sent, Sent-then, Sent-nothing, line, char-Sent, write_serial-Sent}
use bin_os_c.Serial.Text.{
  hex_text, uppers, Holds, decimal-Holds, hex-Holds, integer-Holds, upper-Holds,
}
use bin_os_c.Serial.Printf.{
  Piece, decimal, integer, natural, hex, upper_hex, character, some_text, no_text, address, percent,
  other, Renders, finish, plain, converts, Piece-nonzero, is_conversion-Letters,
}

module _ {D : Type 0} {io : Ports D} {patience : ℕ} (u : Uart io patience) where
  -- The conversion sends the text, and leaves the arguments and an array that is as long.
  abbrev Converts : D → List ℕ → List Arg → Buffer → Option ((List Arg × Buffer) × D) → Type 0
  Converts d text args buffer o = (b : Buffer) × (b.size ≡ buffer.size) × Sent u text d (args, b) o

  line-Sent :
      (b : Buffer) (t : List ℕ) (d : D)
      → Holds b t
      → u.Online d
      → Sent u (line t) d tt (write_serial io patience b d)
  line-Sent b t d (n, s, e) online = rw (sym e) (write_serial-Sent u b n d s online)

  piece-Converts :
      (c : ℕ) (args : List Arg) (text : List ℕ) (args' : List Arg) (buffer : Buffer) (d : D)
      → Piece c args text args'
      → 11 < buffer.size
      → u.Online d
      → Converts d text args' buffer (conversion io patience c args buffer d)
  unfolding conversion next_int next_unsigned next_string next_pointer literal
  piece-Converts c args text args' buffer d (decimal v rest lt) room online =
      let (b, run, size, holds) = integer-Holds v buffer lt room in
      let (d', run', online', sent) = line-Sent b _ d holds online in
      (b, size, (d', rw (run, run') refl, online', sent))
  piece-Converts c args text args' buffer d (integer v rest lt) room online =
      let (b, run, size, holds) = integer-Holds v buffer lt room in
      let (d', run', online', sent) = line-Sent b _ d holds online in
      (b, size, (d', rw (run, run') refl, online', sent))
  piece-Converts c args text args' buffer d (natural v rest lt) room online =
      let (b, run, size, holds) = decimal-Holds v buffer lt room in
      let (d', run', online', sent) = line-Sent b _ d holds online in
      (b, size, (d', rw (run, run') refl, online', sent))
  piece-Converts c args text args' buffer d (hex v rest lt) room online =
      let (b, run, size, holds) = hex-Holds v buffer lt room in
      let (d', run', online', sent) = line-Sent b _ d holds online in
      (b, size, (d', rw (run, run') refl, online', sent))
  piece-Converts c args text args' buffer d (upper_hex v rest lt) room online =
      let (b, run, size, holds) = hex-Holds v buffer lt room in
      let (b₁, run₁, size₁, holds₁) = upper-Holds b (hex_text v) holds in
      let (d', run', online', sent) = line-Sent b₁ (uppers (hex_text v)) d holds₁ online in
      (b₁, size₁ ∙ size, (d', rw (run, run₁, run') refl, online', sent))
  piece-Converts c args text args' buffer d (character v rest) room online =
      let (d', run', online', sent) = char-Sent u (low_byte v) d online in
      (buffer, refl, (d', rw run' refl, online', sent))
  piece-Converts c args text args' buffer d (some_text s n rest is) room online =
      let (d', run', online', sent) = write_serial-Sent u s n d is online in
      (buffer, refl, (d', rw run' refl, online', sent))
  piece-Converts c args text args' buffer d (no_text rest) room online =
      let is = literal-IsString (codes "(null)") refl in
      let (d', run', online', sent) =
        write_serial-Sent u (literal (codes "(null)")) 6 d is online in
      (buffer, refl, (d', rw run' refl, online', sent))
  piece-Converts c args text args' buffer d (address p rest) room online =
      let is = literal-IsString (codes "0x") refl in
      let (d₁, run₁, online₁, sent₁) = write_serial-Sent u (literal (codes "0x")) 2 d is online in
      let (b, run, size, holds) = hex-Holds (p % 2 ^ 32) buffer (omega arith) room in
      let (d', run', online', sent) =
        Sent-then u tt (line (codes "0x")) (line (hex_text (p % 2 ^ 32))) d d₁
          (write_serial io patience b d₁) sent₁
          (line-Sent b (hex_text (p % 2 ^ 32)) d₁ holds online₁) in
      (b, size, (d', rw (run₁, run, run') refl, online', sent))
  piece-Converts c args text args' buffer d (percent rest) room online =
      let (d', run', online', sent) = char-Sent u b'%' d online in
      (buffer, refl, (d', rw run' refl, online', sent))
  piece-Converts c args text args' buffer d (other c' rest letter more) room online =
      let (e₁, e₂, e₃, e₄, e₅, e₆, e₇, e₈) = is_conversion-Letters c' letter in
      let (d₁, run₁, online₁, sent₁) = char-Sent u b'%' d online in
      let (d', run', online', sent) =
        Sent-then u tt (b'%' ∷ []) (c' ∷ []) d d₁ (write_serial_char io patience c' d₁) sent₁
          (char-Sent u c' d₁ online₁) in
      (buffer, refl, (d', rw (e₁, e₂, e₃, e₄, e₅, e₆, e₇, e₈, run₁, run') refl, online', sent))

  printf_loop-Sent :
      (k n i : ℕ) (format : Buffer) (args : List Arg) (text : List ℕ) (buffer : Buffer) (d : D)
      → Renders format i args text
      → StringFrom format i n
      → n < k
      → 11 < buffer.size
      → u.Online d
      → Sent u text d tt (printf_loop io patience k format i args buffer d)
  unfolding printf_loop
  printf_loop-Sent zero n i format args text buffer d r s lt room online = absurd (omega arith)
  printf_loop-Sent (suc k) n i format args text buffer d (finish i' args' nul) s lt room online =
      let end : (format.at i == 0) ≡ true = ground arith in
      rw (load-inside format i (omega (arith, s.inside)), end) (Sent-nothing u tt d online)
  printf_loop-Sent (suc k) zero i format args text buffer d (plain i' args' t more other_char r) s
        lt room online =
      absurd (ground (arith, s.ends))
  printf_loop-Sent (suc k) (suc n) i format args text buffer d (plain i' args' t more other_char r)
        s lt room online =
      let more₁ : (format.at i == 0) ≡ false = ground arith in
      let other₁ : (format.at i == b'%') ≡ false = ground arith in
      let (d₁, run, online₁, sent) = char-Sent u (format.at i) d online in
      rw (load-inside format i (omega (arith, s.inside)), more₁, other₁, run)
        (Sent-then u tt (format.at i ∷ []) t d d₁
          (printf_loop io patience k format (i + 1) args buffer d₁) sent
          (printf_loop-Sent k n (i + 1) format args t buffer d₁ r (tail format i n s) (omega arith)
            room online₁))
  printf_loop-Sent (suc k) zero i format args text buffer d
        (converts i' args₀ args' t t' sign piece r) s lt room online =
      absurd (ground (arith, s.ends))
  printf_loop-Sent (suc k) (suc zero) i format args text buffer d
        (converts i' args₀ args' t t' sign piece r) s lt room online =
      absurd (Piece-nonzero (format.at (i + 1)) args t args' piece s.ends)
  printf_loop-Sent (suc k) (suc (suc n)) i format args text buffer d
        (converts i' args₀ args' t t' sign piece r) s lt room online =
      let more : (format.at i == 0) ≡ false = ground arith in
      let sign₁ : (format.at i == b'%') ≡ true = ground arith in
      let s₁ : StringFrom format (i + 2) n =
        subst (λ j. StringFrom format j n) (omega arith)
          (tail format (i + 1) n (tail format i (suc n) s)) in
      let (b, size, (d₁, run, online₁, sent)) =
        piece-Converts (format.at (i + 1)) args t args' buffer d piece room online in
      rw
        (
          load-inside format i (omega (arith, s.inside)),
          more,
          sign₁,
          load-inside format (i + 1) (omega (arith, s.inside)),
          run,
        )
        (Sent-then u tt t t' d d₁ (printf_loop io patience k format (i + 2) args' b d₁) sent (
          printf_loop-Sent k n (i + 2) format args' t' b d₁ r s₁ (omega arith) (omega (arith, size))
            online₁))

  -- For a serial port that answers its polls and sends what is written: `serial_printf` of a
  -- terminated format ends and sends exactly the text that the description of the format gives
  -- for the arguments, in which a text or a number is followed by the two bytes that
  -- `write_serial` adds; the array for the digits has at least 12 bytes.
  pub serial_printf-Sent :
      (format : Buffer) (n : ℕ) (args : List Arg) (text : List ℕ) (buffer : Buffer) (d : D)
      → IsString format n
      → Renders format 0 args text
      → 11 < buffer.size
      → u.Online d
      → Sent u text d tt (serial_printf io patience format args buffer d)
  unfolding serial_printf
  serial_printf-Sent format n args text buffer d s r room online =
      printf_loop-Sent (format.size + 1) n 0 format args text buffer d r s (omega (arith, s.inside))
        room online
