-- ===== src/Keyboard/Maps.antt =====
-- The maps of kernel/src/ps2_keyboard/keyboard.c, at every scan code.
use bin_os_c.Base.{
  ℕ, ◌%◌, ◌<◌, ◌≡◌, refl, Bool, true, false, not, ◌&&◌, ◌||◌, bit_and, arith, ltb, ◌==◌,
  if◌then◌else◌, eq_of_==, all_below, all_below-lt, same, same-eq,
}
use bin_os_c.Keyboard.{
  scancode_map, extended_scancode_map, key_lshift, key_rshift, key_ctrl, key_alt, key_caps,
}

abbrev pub key_of : Bool → ℕ → ℕ
key_of extended code = if extended then extended_scancode_map code else scancode_map code

-- The codes of the shift keys, and so on, on the wire.
abbrev pub is_shift_code : Bool → ℕ → Bool
is_shift_code extended code = not extended && (code == 0x2a || code == 0x36)

abbrev pub is_ctrl_code : ℕ → Bool
is_ctrl_code code = code == 0x1d

abbrev pub is_alt_code : ℕ → Bool
is_alt_code code = code == 0x38

abbrev pub is_caps_code : Bool → ℕ → Bool
is_caps_code extended code = not extended && code == 0x3a

abbrev agrees : Bool → ℕ → Bool
agrees e c =
    same (key_of e c == key_lshift || key_of e c == key_rshift) (is_shift_code e c)
    && same (key_of e c == key_ctrl) (is_ctrl_code c)
    && same (key_of e c == key_alt) (is_alt_code c)
    && same (key_of e c == key_caps) (is_caps_code e c)

-- A code means a modifier exactly if it is the modifier's code.
pub record Names (e : Bool) (c : ℕ) : Type 0 where
  pub shift : (key_of e c == key_lshift || key_of e c == key_rshift) ≡ is_shift_code e c
  pub ctrl : (key_of e c == key_ctrl) ≡ is_ctrl_code c
  pub alt : (key_of e c == key_alt) ≡ is_alt_code c
  pub caps : (key_of e c == key_caps) ≡ is_caps_code e c

and_left : (a b : Bool) → (a && b) ≡ true → a ≡ true
and_left true b e = refl
and_left false b e = e

and_right : (a b : Bool) → (a && b) ≡ true → b ≡ true
and_right true b e = e
and_right false b e = ground arith

all-agrees : (e : Bool) → all_below 128 (agrees e) ≡ true
unfolding all_below scancode_map extended_scancode_map
all-agrees true = refl
all-agrees false = refl

pub all_four :
    (a b c d : Bool) → (a && b && c && d) ≡ true → (a ≡ true) × (b ≡ true) × (c ≡ true) × (d ≡ true)
all_four a b c d e = ground arith

pub code-Names : (e : Bool) (c : ℕ) → c < 128 → Names e c
code-Names e c lt =
    let h = all_below-lt 128 (agrees e) c (all-agrees e) lt in
    let (shift, ctrl, alt, caps) = all_four _ _ _ _ h in
    record {
      shift =
          same-eq (key_of e c == key_lshift || key_of e c == key_rshift) (is_shift_code e c) shift;
      ctrl = same-eq (key_of e c == key_ctrl) (is_ctrl_code c) ctrl;
      alt = same-eq (key_of e c == key_alt) (is_alt_code c) alt;
      caps = same-eq (key_of e c == key_caps) (is_caps_code e c) caps;
    }

-- A byte on the wire is a code and the release bit.
abbrev splits_byte : ℕ → Bool
splits_byte raw = (bit_and raw 0x7f == raw % 128) && same (bit_and raw 0x80 == 0) (ltb raw 128)

all-splits_byte : all_below 256 splits_byte ≡ true
unfolding all_below
all-splits_byte = refl

pub byte-splits :
    (raw : ℕ) → raw < 256 → (bit_and raw 0x7f ≡ raw % 128) × ((bit_and raw 0x80 == 0) ≡ ltb raw 128)
byte-splits raw lt =
    let h = all_below-lt 256 splits_byte raw all-splits_byte lt in
    (
      eq_of_== (bit_and raw 0x7f) (raw % 128) (and_left _ _ h),
      same-eq (bit_and raw 0x80 == 0) (ltb raw 128) (and_right (bit_and raw 0x7f == raw % 128) _ h),
    )
