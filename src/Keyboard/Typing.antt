-- ===== src/Keyboard/Typing.antt =====
-- Every printable character has its key, in kernel/src/ps2_keyboard/keyboard.c.
use bin_os_c.Base.{
  ℕ, zero, suc, ◌+◌, ◌-◌, ◌%◌, ◌<◌, ◌≤◌, ◌≡◌, refl, subst, Bool, true, false, ◌&&◌, ◌||◌, [], ◌∷◌,
  arith, ltb, leb, ◌==◌, inl, inr, if◌then◌else◌, eq_of_==, all_below, all_below-lt, ◌⊎◌,
}
use bin_os_c.Base.Int.{pos}
use bin_os_c.CString.{Buffer}
use bin_os_c.Terminal.{codes}
use bin_os_c.Shell.{Shell}
use bin_os_c.Shell.Command.{Args, type_key}
use bin_os_c.Io.{Ports, M, ◌>>◌}
use bin_os_c.Serial.{int}
use bin_os_c.Keyboard.{
  Keyboard, Machine, scancode_map, shift_map, get_character, handle_scancode, handle_key,
  handle_printable_key, on_shell, printf, is_modifier, key_backspace, key_enter, key_f1, key_delete,
}
use bin_os_c.Keyboard.Maps.{byte-splits, all_four}

-- The keyboard with nothing but a shift key held.
abbrev pub with_shift : Bool → Keyboard
with_shift shift = record {
  caps_lock_on = false;
  shift_pressed = shift;
  ctrl_pressed = false;
  alt_pressed = false;
  extended_scancode = false;
}

-- The code below `n` whose key gives the character, or 0.
abbrev code_of : ℕ → Bool → ℕ → ℕ
code_of zero shift c = 0
code_of (suc n) shift c =
    if get_character (with_shift shift) (scancode_map n) == c then n else code_of n shift c

abbrev gives : Bool → ℕ → ℕ → Bool
gives shift code c =
    ltb code 128
    && leb 32 (scancode_map code)
    && leb (scancode_map code) 126
    && get_character (with_shift shift) (scancode_map code) == c

abbrev is_given : ℕ → Bool
is_given c = gives false (code_of 89 false c) c || gives true (code_of 89 true c) c

all-given : all_below 95 (λ i. is_given (i + 32)) ≡ true
unfolding all_below scancode_map shift_map get_character
all-given = refl

either : (a b : Bool) → (a || b) ≡ true → (a ≡ true) ⊎ (b ≡ true)
either true b e = inl refl
either false b e = inr e

-- The key of the code gives the character, and it is the key of a character.
record Key (c code : ℕ) (shift : Bool) : Type 0 where
  small : code < 128
  low : 32 ≤ scancode_map code
  high : scancode_map code ≤ 126
  given : get_character (with_shift shift) (scancode_map code) ≡ c

gives-Key : (shift : Bool) (code c : ℕ) → gives shift code c ≡ true → Key c code shift
gives-Key shift code c e =
    let (small, low, high, given) =
      all_four (ltb code 128) (leb 32 (scancode_map code)) (leb (scancode_map code) 126)
        (get_character (with_shift shift) (scancode_map code) == c) e in
    record {
      small = ground arith;
      low = ground arith;
      high = ground arith;
      given = eq_of_== (get_character (with_shift shift) (scancode_map code)) c given;
    }

is_given-Key : (c : ℕ) → is_given c ≡ true → (code : ℕ) × (shift : Bool) × Key c code shift
is_given-Key c e =
    elim (either (gives false (code_of 89 false c) c) (gives true (code_of 89 true c) c) e) [
      | inl plain ↦ (code_of 89 false c, false, gives-Key false (code_of 89 false c) c plain)
      | inr shifted ↦ (code_of 89 true c, true, gives-Key true (code_of 89 true c) c shifted)
    ]

has-Key : (c : ℕ) → 32 ≤ c → c < 127 → (code : ℕ) × (shift : Bool) × Key c code shift
has-Key c low high =
    let h = all_below-lt 95 (λ i. is_given (i + 32)) (c - 32) all-given (omega arith) in
    is_given-Key c (subst (λ x. is_given x ≡ true) (omega arith) h)

module _ {D : Type 0} (io : Ports D) (patience : ℕ) (args : Args) (stack : Buffer) where
  -- `input(c)`, the command if a line is complete, and the character for the serial port.
  abbrev pub types : ℕ → M (Machine D) (Unit {0})
  types c =
      on_shell (type_key args c) >> printf io patience args stack (codes "%c") (int (pos c) ∷ [])

  Key-types :
      (c code : ℕ) (shift : Bool) (s : Shell) (d : D)
      → 32 ≤ c
      → Key c code shift
      → handle_scancode io patience args stack code
          (record { keyboard = with_shift shift; shell = s; ports = d })
        ≡ types c (record { keyboard = with_shift shift; shell = s; ports = d })
  unfolding handle_scancode handle_key handle_printable_key
  Key-types c code shift s d low k =
      let (code_bits, pressed) = byte-splits code (omega (arith, k.small)) in
      let prefix : (code == 0xe0) ≡ false = ground (arith, k.small) in
      let same_code : code % 128 ≡ code = omega (arith, k.small) in
      let below : leb 128 code ≡ false = ground (arith, k.small) in
      let down : ltb code 128 ≡ true = ground (arith, k.small) in
      let some_key : (scancode_map code == 0) ≡ false = ground (arith, k.low) in
      let no_modifier : is_modifier (scancode_map code) ≡ false = ground (arith, k.low) in
      let no_backspace : (scancode_map code == key_backspace) ≡ false = ground (arith, k.low) in
      let no_enter : (scancode_map code == key_enter) ≡ false = ground (arith, k.low) in
      let no_special : (leb key_f1 (scancode_map code) && leb (scancode_map code) key_delete)
          ≡ false =
        ground (arith, k.high) in
      let printable : (leb 32 (scancode_map code) && leb (scancode_map code) 126) ≡ true =
        ground (arith, k.low, k.high) in
      let some_char : (c == 0) ≡ false = ground arith in
      rw
        (
          prefix, code_bits, same_code, pressed, below, down, some_key, no_modifier, no_backspace,
          no_enter, no_special, printable, k.given, some_char,
        )
        refl

  -- For every printable character there are a scan code and a state of the shift key with which,
  -- while no other flag is set, handling that code is `input` of the character, the command if a
  -- line is complete, and the character's message.
  pub handle_scancode-types :
      (c : ℕ)
      → 32 ≤ c
      → c < 127
      → (code : ℕ) × (shift : Bool) × (code < 128)
        × ((s : Shell) (d : D)
            → handle_scancode io patience args stack code
                (record { keyboard = with_shift shift; shell = s; ports = d })
              ≡ types c (record { keyboard = with_shift shift; shell = s; ports = d }))
  handle_scancode-types c low high =
      let (code, shift, k) = has-Key c low high in
      (code, shift, k.small, λ s d. Key-types c code shift s d low k)
