-- ===== src/Draw/Font.antt =====
-- kernel/src/font.c: the rows of pixels of the characters 32 to 126, top to bottom.
use bin_os_c.Base.{ℕ, List, [], ◌∷◌, ◌++◌}

abbrev pub Glyph : Type 0
Glyph = List ℕ

punctuation_and_digits : List Glyph
punctuation_and_digits =
    (0x00 ∷ 0x00 ∷ 0x00 ∷ 0x00 ∷ 0x00 ∷ 0x00 ∷ 0x00 ∷ 0x00 ∷ 0x00 ∷ 0x00 ∷ 0x00 ∷ 0x00 ∷ 0x00 ∷ 0x00
      ∷ 0x00 ∷ 0x00 ∷ [])
    ∷ (0x00 ∷ 0x18 ∷ 0x3c ∷ 0x3c ∷ 0x3c ∷ 0x18 ∷ 0x18 ∷ 0x18 ∷ 0x18 ∷ 0x18 ∷ 0x00 ∷ 0x18 ∷ 0x18
        ∷ 0x00 ∷ 0x00 ∷ 0x00 ∷ [])
    ∷ (0x00 ∷ 0x36 ∷ 0x36 ∷ 0x36 ∷ 0x24 ∷ 0x00 ∷ 0x00 ∷ 0x00 ∷ 0x00 ∷ 0x00 ∷ 0x00 ∷ 0x00 ∷ 0x00
        ∷ 0x00 ∷ 0x00 ∷ 0x00 ∷ [])
    ∷ (0x00 ∷ 0x36 ∷ 0x36 ∷ 0x7f ∷ 0x36 ∷ 0x36 ∷ 0x36 ∷ 0x7f ∷ 0x36 ∷ 0x36 ∷ 0x00 ∷ 0x00 ∷ 0x00
        ∷ 0x00 ∷ 0x00 ∷ 0x00 ∷ [])
    ∷ (0x18 ∷ 0x3e ∷ 0x63 ∷ 0x60 ∷ 0x3c ∷ 0x06 ∷ 0x06 ∷ 0x63 ∷ 0x3e ∷ 0x18 ∷ 0x18 ∷ 0x00 ∷ 0x00
        ∷ 0x00 ∷ 0x00 ∷ 0x00 ∷ [])
    ∷ (0x00 ∷ 0x63 ∷ 0x33 ∷ 0x18 ∷ 0x0c ∷ 0x06 ∷ 0x03 ∷ 0x31 ∷ 0x18 ∷ 0x0c ∷ 0x66 ∷ 0x63 ∷ 0x00
        ∷ 0x00 ∷ 0x00 ∷ 0x00 ∷ [])
    ∷ (0x1c ∷ 0x36 ∷ 0x36 ∷ 0x1c ∷ 0x38 ∷ 0x6e ∷ 0x6b ∷ 0x33 ∷ 0x33 ∷ 0x6e ∷ 0x00 ∷ 0x00 ∷ 0x00
        ∷ 0x00 ∷ 0x00 ∷ 0x00 ∷ [])
    ∷ (0x0c ∷ 0x0c ∷ 0x0c ∷ 0x18 ∷ 0x10 ∷ 0x00 ∷ 0x00 ∷ 0x00 ∷ 0x00 ∷ 0x00 ∷ 0x00 ∷ 0x00 ∷ 0x00
        ∷ 0x00 ∷ 0x00 ∷ 0x00 ∷ [])
    ∷ (0x06 ∷ 0x0c ∷ 0x18 ∷ 0x18 ∷ 0x30 ∷ 0x30 ∷ 0x30 ∷ 0x30 ∷ 0x30 ∷ 0x18 ∷ 0x18 ∷ 0x0c ∷ 0x06
        ∷ 0x00 ∷ 0x00 ∷ 0x00 ∷ [])
    ∷ (0x30 ∷ 0x18 ∷ 0x0c ∷ 0x0c ∷ 0x06 ∷ 0x06 ∷ 0x06 ∷ 0x06 ∷ 0x06 ∷ 0x0c ∷ 0x0c ∷ 0x18 ∷ 0x30
        ∷ 0x00 ∷ 0x00 ∷ 0x00 ∷ [])
    ∷ (0x00 ∷ 0x18 ∷ 0x5a ∷ 0x3c ∷ 0x7e ∷ 0x3c ∷ 0x5a ∷ 0x18 ∷ 0x00 ∷ 0x00 ∷ 0x00 ∷ 0x00 ∷ 0x00
        ∷ 0x00 ∷ 0x00 ∷ 0x00 ∷ [])
    ∷ (0x00 ∷ 0x18 ∷ 0x18 ∷ 0x18 ∷ 0x7e ∷ 0x18 ∷ 0x18 ∷ 0x18 ∷ 0x00 ∷ 0x00 ∷ 0x00 ∷ 0x00 ∷ 0x00
        ∷ 0x00 ∷ 0x00 ∷ 0x00 ∷ [])
    ∷ (0x00 ∷ 0x00 ∷ 0x00 ∷ 0x00 ∷ 0x00 ∷ 0x00 ∷ 0x00 ∷ 0x00 ∷ 0x00 ∷ 0x00 ∷ 0x18 ∷ 0x18 ∷ 0x10
        ∷ 0x30 ∷ 0x20 ∷ 0x00 ∷ [])
    ∷ (0x00 ∷ 0x00 ∷ 0x00 ∷ 0x00 ∷ 0x7e ∷ 0x00 ∷ 0x00 ∷ 0x00 ∷ 0x00 ∷ 0x00 ∷ 0x00 ∷ 0x00 ∷ 0x00
        ∷ 0x00 ∷ 0x00 ∷ 0x00 ∷ [])
    ∷ (0x00 ∷ 0x00 ∷ 0x00 ∷ 0x00 ∷ 0x00 ∷ 0x00 ∷ 0x00 ∷ 0x00 ∷ 0x00 ∷ 0x00 ∷ 0x18 ∷ 0x18 ∷ 0x00
        ∷ 0x00 ∷ 0x00 ∷ 0x00 ∷ [])
    ∷ (0x00 ∷ 0x03 ∷ 0x06 ∷ 0x0c ∷ 0x18 ∷ 0x30 ∷ 0x60 ∷ 0xc0 ∷ 0x80 ∷ 0x00 ∷ 0x00 ∷ 0x00 ∷ 0x00
        ∷ 0x00 ∷ 0x00 ∷ 0x00 ∷ [])
    ∷ (0x3c ∷ 0x66 ∷ 0x6e ∷ 0x76 ∷ 0x7e ∷ 0x7e ∷ 0x66 ∷ 0x66 ∷ 0x66 ∷ 0x66 ∷ 0x66 ∷ 0x66 ∷ 0x3c
        ∷ 0x00 ∷ 0x00 ∷ 0x00 ∷ [])
    ∷ (0x18 ∷ 0x38 ∷ 0x78 ∷ 0x18 ∷ 0x18 ∷ 0x18 ∷ 0x18 ∷ 0x18 ∷ 0x18 ∷ 0x18 ∷ 0x18 ∷ 0x18 ∷ 0x7e
        ∷ 0x00 ∷ 0x00 ∷ 0x00 ∷ [])
    ∷ (0x3c ∷ 0x66 ∷ 0x06 ∷ 0x0c ∷ 0x18 ∷ 0x30 ∷ 0x60 ∷ 0x60 ∷ 0x60 ∷ 0x60 ∷ 0x66 ∷ 0x66 ∷ 0x7e
        ∷ 0x00 ∷ 0x00 ∷ 0x00 ∷ [])
    ∷ (0x3c ∷ 0x66 ∷ 0x06 ∷ 0x06 ∷ 0x1c ∷ 0x1c ∷ 0x06 ∷ 0x06 ∷ 0x06 ∷ 0x06 ∷ 0x66 ∷ 0x66 ∷ 0x3c
        ∷ 0x00 ∷ 0x00 ∷ 0x00 ∷ [])
    ∷ (0x0c ∷ 0x1c ∷ 0x3c ∷ 0x6c ∷ 0x6c ∷ 0xcc ∷ 0xfe ∷ 0x0c ∷ 0x0c ∷ 0x0c ∷ 0x0c ∷ 0x0c ∷ 0x1e
        ∷ 0x00 ∷ 0x00 ∷ 0x00 ∷ [])
    ∷ (0x7e ∷ 0x60 ∷ 0x60 ∷ 0x60 ∷ 0x7c ∷ 0x06 ∷ 0x06 ∷ 0x06 ∷ 0x06 ∷ 0x06 ∷ 0x66 ∷ 0x66 ∷ 0x3c
        ∷ 0x00 ∷ 0x00 ∷ 0x00 ∷ [])
    ∷ (0x1c ∷ 0x30 ∷ 0x60 ∷ 0x60 ∷ 0x7c ∷ 0x66 ∷ 0x66 ∷ 0x66 ∷ 0x66 ∷ 0x66 ∷ 0x66 ∷ 0x66 ∷ 0x3c
        ∷ 0x00 ∷ 0x00 ∷ 0x00 ∷ [])
    ∷ (0x7e ∷ 0x66 ∷ 0x06 ∷ 0x0c ∷ 0x18 ∷ 0x18 ∷ 0x18 ∷ 0x18 ∷ 0x18 ∷ 0x18 ∷ 0x18 ∷ 0x18 ∷ 0x18
        ∷ 0x00 ∷ 0x00 ∷ 0x00 ∷ [])
    ∷ (0x3c ∷ 0x66 ∷ 0x66 ∷ 0x66 ∷ 0x3c ∷ 0x3c ∷ 0x66 ∷ 0x66 ∷ 0x66 ∷ 0x66 ∷ 0x66 ∷ 0x66 ∷ 0x3c
        ∷ 0x00 ∷ 0x00 ∷ 0x00 ∷ [])
    ∷ (0x3c ∷ 0x66 ∷ 0x66 ∷ 0x66 ∷ 0x66 ∷ 0x66 ∷ 0x3e ∷ 0x06 ∷ 0x06 ∷ 0x06 ∷ 0x0c ∷ 0x18 ∷ 0x70
        ∷ 0x00 ∷ 0x00 ∷ 0x00 ∷ [])
    ∷ (0x00 ∷ 0x00 ∷ 0x18 ∷ 0x18 ∷ 0x00 ∷ 0x00 ∷ 0x00 ∷ 0x00 ∷ 0x00 ∷ 0x00 ∷ 0x00 ∷ 0x00 ∷ 0x18
        ∷ 0x18 ∷ 0x00 ∷ 0x00 ∷ [])
    ∷ (0x00 ∷ 0x00 ∷ 0x18 ∷ 0x18 ∷ 0x00 ∷ 0x00 ∷ 0x00 ∷ 0x00 ∷ 0x00 ∷ 0x00 ∷ 0x18 ∷ 0x18 ∷ 0x10
        ∷ 0x30 ∷ 0x20 ∷ 0x00 ∷ [])
    ∷ (0x00 ∷ 0x06 ∷ 0x0c ∷ 0x18 ∷ 0x30 ∷ 0x60 ∷ 0xc0 ∷ 0x60 ∷ 0x30 ∷ 0x18 ∷ 0x0c ∷ 0x06 ∷ 0x00
        ∷ 0x00 ∷ 0x00 ∷ 0x00 ∷ [])
    ∷ (0x00 ∷ 0x00 ∷ 0x00 ∷ 0x7e ∷ 0x00 ∷ 0x00 ∷ 0x00 ∷ 0x7e ∷ 0x00 ∷ 0x00 ∷ 0x00 ∷ 0x00 ∷ 0x00
        ∷ 0x00 ∷ 0x00 ∷ 0x00 ∷ [])
    ∷ (0x00 ∷ 0x60 ∷ 0x30 ∷ 0x18 ∷ 0x0c ∷ 0x06 ∷ 0x03 ∷ 0x06 ∷ 0x0c ∷ 0x18 ∷ 0x30 ∷ 0x60 ∷ 0x00
        ∷ 0x00 ∷ 0x00 ∷ 0x00 ∷ [])
    ∷ (0x3c ∷ 0x66 ∷ 0x66 ∷ 0x06 ∷ 0x0c ∷ 0x18 ∷ 0x18 ∷ 0x18 ∷ 0x00 ∷ 0x18 ∷ 0x18 ∷ 0x00 ∷ 0x00
        ∷ 0x00 ∷ 0x00 ∷ 0x00 ∷ [])
    ∷ []

upper_case : List Glyph
upper_case =
    (0x3c ∷ 0x66 ∷ 0x6e ∷ 0x76 ∷ 0x7a ∷ 0x7a ∷ 0x7a ∷ 0x7a ∷ 0x7a ∷ 0x7a ∷ 0x6e ∷ 0x60 ∷ 0x3c ∷ 0x00
      ∷ 0x00 ∷ 0x00 ∷ [])
    ∷ (0x18 ∷ 0x3c ∷ 0x66 ∷ 0x66 ∷ 0x66 ∷ 0x66 ∷ 0x7e ∷ 0x7e ∷ 0x66 ∷ 0x66 ∷ 0x66 ∷ 0x66 ∷ 0x66
        ∷ 0x00 ∷ 0x00 ∷ 0x00 ∷ [])
    ∷ (0x7c ∷ 0x66 ∷ 0x66 ∷ 0x66 ∷ 0x7c ∷ 0x7c ∷ 0x66 ∷ 0x66 ∷ 0x66 ∷ 0x66 ∷ 0x66 ∷ 0x66 ∷ 0x7c
        ∷ 0x00 ∷ 0x00 ∷ 0x00 ∷ [])
    ∷ (0x3c ∷ 0x66 ∷ 0x60 ∷ 0x60 ∷ 0x60 ∷ 0x60 ∷ 0x60 ∷ 0x60 ∷ 0x60 ∷ 0x60 ∷ 0x66 ∷ 0x66 ∷ 0x3c
        ∷ 0x00 ∷ 0x00 ∷ 0x00 ∷ [])
    ∷ (0x78 ∷ 0x6c ∷ 0x66 ∷ 0x66 ∷ 0x66 ∷ 0x66 ∷ 0x66 ∷ 0x66 ∷ 0x66 ∷ 0x66 ∷ 0x66 ∷ 0x6c ∷ 0x78
        ∷ 0x00 ∷ 0x00 ∷ 0x00 ∷ [])
    ∷ (0x7e ∷ 0x60 ∷ 0x60 ∷ 0x60 ∷ 0x7c ∷ 0x7c ∷ 0x60 ∷ 0x60 ∷ 0x60 ∷ 0x60 ∷ 0x60 ∷ 0x60 ∷ 0x7e
        ∷ 0x00 ∷ 0x00 ∷ 0x00 ∷ [])
    ∷ (0x7e ∷ 0x60 ∷ 0x60 ∷ 0x60 ∷ 0x7c ∷ 0x7c ∷ 0x60 ∷ 0x60 ∷ 0x60 ∷ 0x60 ∷ 0x60 ∷ 0x60 ∷ 0x60
        ∷ 0x00 ∷ 0x00 ∷ 0x00 ∷ [])
    ∷ (0x3c ∷ 0x66 ∷ 0x60 ∷ 0x60 ∷ 0x60 ∷ 0x6e ∷ 0x6e ∷ 0x66 ∷ 0x66 ∷ 0x66 ∷ 0x66 ∷ 0x66 ∷ 0x3c
        ∷ 0x00 ∷ 0x00 ∷ 0x00 ∷ [])
    ∷ (0x66 ∷ 0x66 ∷ 0x66 ∷ 0x66 ∷ 0x7e ∷ 0x7e ∷ 0x66 ∷ 0x66 ∷ 0x66 ∷ 0x66 ∷ 0x66 ∷ 0x66 ∷ 0x66
        ∷ 0x00 ∷ 0x00 ∷ 0x00 ∷ [])
    ∷ (0x7e ∷ 0x18 ∷ 0x18 ∷ 0x18 ∷ 0x18 ∷ 0x18 ∷ 0x18 ∷ 0x18 ∷ 0x18 ∷ 0x18 ∷ 0x18 ∷ 0x18 ∷ 0x7e
        ∷ 0x00 ∷ 0x00 ∷ 0x00 ∷ [])
    ∷ (0x0e ∷ 0x06 ∷ 0x06 ∷ 0x06 ∷ 0x06 ∷ 0x06 ∷ 0x06 ∷ 0x06 ∷ 0x06 ∷ 0x06 ∷ 0x66 ∷ 0x66 ∷ 0x3c
        ∷ 0x00 ∷ 0x00 ∷ 0x00 ∷ [])
    ∷ (0x66 ∷ 0x6c ∷ 0x78 ∷ 0x70 ∷ 0x70 ∷ 0x78 ∷ 0x7c ∷ 0x6c ∷ 0x66 ∷ 0x66 ∷ 0x66 ∷ 0x66 ∷ 0x66
        ∷ 0x00 ∷ 0x00 ∷ 0x00 ∷ [])
    ∷ (0x60 ∷ 0x60 ∷ 0x60 ∷ 0x60 ∷ 0x60 ∷ 0x60 ∷ 0x60 ∷ 0x60 ∷ 0x60 ∷ 0x60 ∷ 0x60 ∷ 0x60 ∷ 0x7e
        ∷ 0x00 ∷ 0x00 ∷ 0x00 ∷ [])
    ∷ (0x63 ∷ 0x77 ∷ 0x7f ∷ 0x7f ∷ 0x6b ∷ 0x6b ∷ 0x63 ∷ 0x63 ∷ 0x63 ∷ 0x63 ∷ 0x63 ∷ 0x63 ∷ 0x63
        ∷ 0x00 ∷ 0x00 ∷ 0x00 ∷ [])
    ∷ (0x66 ∷ 0x76 ∷ 0x7e ∷ 0x7e ∷ 0x6e ∷ 0x66 ∷ 0x66 ∷ 0x66 ∷ 0x66 ∷ 0x66 ∷ 0x66 ∷ 0x66 ∷ 0x66
        ∷ 0x00 ∷ 0x00 ∷ 0x00 ∷ [])
    ∷ (0x3c ∷ 0x66 ∷ 0x66 ∷ 0x66 ∷ 0x66 ∷ 0x66 ∷ 0x66 ∷ 0x66 ∷ 0x66 ∷ 0x66 ∷ 0x66 ∷ 0x66 ∷ 0x3c
        ∷ 0x00 ∷ 0x00 ∷ 0x00 ∷ [])
    ∷ (0x7c ∷ 0x66 ∷ 0x66 ∷ 0x66 ∷ 0x66 ∷ 0x7c ∷ 0x7c ∷ 0x60 ∷ 0x60 ∷ 0x60 ∷ 0x60 ∷ 0x60 ∷ 0x60
        ∷ 0x00 ∷ 0x00 ∷ 0x00 ∷ [])
    ∷ (0x3c ∷ 0x66 ∷ 0x66 ∷ 0x66 ∷ 0x66 ∷ 0x66 ∷ 0x66 ∷ 0x66 ∷ 0x66 ∷ 0x6e ∷ 0x6c ∷ 0x3c ∷ 0x06
        ∷ 0x00 ∷ 0x00 ∷ 0x00 ∷ [])
    ∷ (0x7c ∷ 0x66 ∷ 0x66 ∷ 0x66 ∷ 0x66 ∷ 0x7c ∷ 0x7c ∷ 0x6c ∷ 0x66 ∷ 0x66 ∷ 0x66 ∷ 0x66 ∷ 0x66
        ∷ 0x00 ∷ 0x00 ∷ 0x00 ∷ [])
    ∷ (0x3c ∷ 0x66 ∷ 0x60 ∷ 0x60 ∷ 0x3c ∷ 0x3c ∷ 0x06 ∷ 0x06 ∷ 0x06 ∷ 0x06 ∷ 0x66 ∷ 0x66 ∷ 0x3c
        ∷ 0x00 ∷ 0x00 ∷ 0x00 ∷ [])
    ∷ (0x7e ∷ 0x18 ∷ 0x18 ∷ 0x18 ∷ 0x18 ∷ 0x18 ∷ 0x18 ∷ 0x18 ∷ 0x18 ∷ 0x18 ∷ 0x18 ∷ 0x18 ∷ 0x18
        ∷ 0x00 ∷ 0x00 ∷ 0x00 ∷ [])
    ∷ (0x66 ∷ 0x66 ∷ 0x66 ∷ 0x66 ∷ 0x66 ∷ 0x66 ∷ 0x66 ∷ 0x66 ∷ 0x66 ∷ 0x66 ∷ 0x66 ∷ 0x66 ∷ 0x3c
        ∷ 0x00 ∷ 0x00 ∷ 0x00 ∷ [])
    ∷ (0x66 ∷ 0x66 ∷ 0x66 ∷ 0x66 ∷ 0x66 ∷ 0x66 ∷ 0x66 ∷ 0x66 ∷ 0x66 ∷ 0x3c ∷ 0x3c ∷ 0x18 ∷ 0x18
        ∷ 0x00 ∷ 0x00 ∷ 0x00 ∷ [])
    ∷ (0x63 ∷ 0x63 ∷ 0x63 ∷ 0x63 ∷ 0x63 ∷ 0x63 ∷ 0x6b ∷ 0x7f ∷ 0x7f ∷ 0x77 ∷ 0x63 ∷ 0x63 ∷ 0x63
        ∷ 0x00 ∷ 0x00 ∷ 0x00 ∷ [])
    ∷ (0x66 ∷ 0x66 ∷ 0x66 ∷ 0x3c ∷ 0x3c ∷ 0x18 ∷ 0x18 ∷ 0x3c ∷ 0x3c ∷ 0x66 ∷ 0x66 ∷ 0x66 ∷ 0x66
        ∷ 0x00 ∷ 0x00 ∷ 0x00 ∷ [])
    ∷ (0x66 ∷ 0x66 ∷ 0x66 ∷ 0x66 ∷ 0x3c ∷ 0x3c ∷ 0x18 ∷ 0x18 ∷ 0x18 ∷ 0x18 ∷ 0x18 ∷ 0x18 ∷ 0x18
        ∷ 0x00 ∷ 0x00 ∷ 0x00 ∷ [])
    ∷ (0x7e ∷ 0x06 ∷ 0x0c ∷ 0x18 ∷ 0x30 ∷ 0x30 ∷ 0x60 ∷ 0x60 ∷ 0x60 ∷ 0x60 ∷ 0x60 ∷ 0x60 ∷ 0x7e
        ∷ 0x00 ∷ 0x00 ∷ 0x00 ∷ [])
    ∷ (0x3c ∷ 0x30 ∷ 0x30 ∷ 0x30 ∷ 0x30 ∷ 0x30 ∷ 0x30 ∷ 0x30 ∷ 0x30 ∷ 0x30 ∷ 0x30 ∷ 0x30 ∷ 0x3c
        ∷ 0x00 ∷ 0x00 ∷ 0x00 ∷ [])
    ∷ (0x00 ∷ 0xc0 ∷ 0x60 ∷ 0x30 ∷ 0x18 ∷ 0x0c ∷ 0x06 ∷ 0x03 ∷ 0x01 ∷ 0x00 ∷ 0x00 ∷ 0x00 ∷ 0x00
        ∷ 0x00 ∷ 0x00 ∷ 0x00 ∷ [])
    ∷ (0x3c ∷ 0x0c ∷ 0x0c ∷ 0x0c ∷ 0x0c ∷ 0x0c ∷ 0x0c ∷ 0x0c ∷ 0x0c ∷ 0x0c ∷ 0x0c ∷ 0x0c ∷ 0x3c
        ∷ 0x00 ∷ 0x00 ∷ 0x00 ∷ [])
    ∷ (0x10 ∷ 0x38 ∷ 0x6c ∷ 0xc6 ∷ 0x00 ∷ 0x00 ∷ 0x00 ∷ 0x00 ∷ 0x00 ∷ 0x00 ∷ 0x00 ∷ 0x00 ∷ 0x00
        ∷ 0x00 ∷ 0x00 ∷ 0x00 ∷ [])
    ∷ (0x00 ∷ 0x00 ∷ 0x00 ∷ 0x00 ∷ 0x00 ∷ 0x00 ∷ 0x00 ∷ 0x00 ∷ 0x00 ∷ 0x00 ∷ 0x00 ∷ 0x00 ∷ 0x00
        ∷ 0x00 ∷ 0xff ∷ 0x00 ∷ [])
    ∷ []

lower_case : List Glyph
lower_case =
    (0x18 ∷ 0x18 ∷ 0x0c ∷ 0x00 ∷ 0x00 ∷ 0x00 ∷ 0x00 ∷ 0x00 ∷ 0x00 ∷ 0x00 ∷ 0x00 ∷ 0x00 ∷ 0x00 ∷ 0x00
      ∷ 0x00 ∷ 0x00 ∷ [])
    ∷ (0x00 ∷ 0x00 ∷ 0x00 ∷ 0x00 ∷ 0x3c ∷ 0x06 ∷ 0x3e ∷ 0x66 ∷ 0x66 ∷ 0x66 ∷ 0x3e ∷ 0x00 ∷ 0x00
        ∷ 0x00 ∷ 0x00 ∷ 0x00 ∷ [])
    ∷ (0x60 ∷ 0x60 ∷ 0x60 ∷ 0x60 ∷ 0x7c ∷ 0x66 ∷ 0x66 ∷ 0x66 ∷ 0x66 ∷ 0x66 ∷ 0x7c ∷ 0x00 ∷ 0x00
        ∷ 0x00 ∷ 0x00 ∷ 0x00 ∷ [])
    ∷ (0x00 ∷ 0x00 ∷ 0x00 ∷ 0x00 ∷ 0x3c ∷ 0x66 ∷ 0x60 ∷ 0x60 ∷ 0x60 ∷ 0x66 ∷ 0x3c ∷ 0x00 ∷ 0x00
        ∷ 0x00 ∷ 0x00 ∷ 0x00 ∷ [])
    ∷ (0x06 ∷ 0x06 ∷ 0x06 ∷ 0x06 ∷ 0x3e ∷ 0x66 ∷ 0x66 ∷ 0x66 ∷ 0x66 ∷ 0x66 ∷ 0x3e ∷ 0x00 ∷ 0x00
        ∷ 0x00 ∷ 0x00 ∷ 0x00 ∷ [])
    ∷ (0x00 ∷ 0x00 ∷ 0x00 ∷ 0x00 ∷ 0x3c ∷ 0x66 ∷ 0x66 ∷ 0x7e ∷ 0x60 ∷ 0x66 ∷ 0x3c ∷ 0x00 ∷ 0x00
        ∷ 0x00 ∷ 0x00 ∷ 0x00 ∷ [])
    ∷ (0x1c ∷ 0x36 ∷ 0x30 ∷ 0x30 ∷ 0x7c ∷ 0x30 ∷ 0x30 ∷ 0x30 ∷ 0x30 ∷ 0x30 ∷ 0x30 ∷ 0x00 ∷ 0x00
        ∷ 0x00 ∷ 0x00 ∷ 0x00 ∷ [])
    ∷ (0x00 ∷ 0x00 ∷ 0x00 ∷ 0x00 ∷ 0x3e ∷ 0x66 ∷ 0x66 ∷ 0x66 ∷ 0x66 ∷ 0x66 ∷ 0x3e ∷ 0x06 ∷ 0x66
        ∷ 0x3c ∷ 0x00 ∷ 0x00 ∷ [])
    ∷ (0x60 ∷ 0x60 ∷ 0x60 ∷ 0x60 ∷ 0x7c ∷ 0x66 ∷ 0x66 ∷ 0x66 ∷ 0x66 ∷ 0x66 ∷ 0x66 ∷ 0x00 ∷ 0x00
        ∷ 0x00 ∷ 0x00 ∷ 0x00 ∷ [])
    ∷ (0x18 ∷ 0x18 ∷ 0x00 ∷ 0x00 ∷ 0x38 ∷ 0x18 ∷ 0x18 ∷ 0x18 ∷ 0x18 ∷ 0x18 ∷ 0x3c ∷ 0x00 ∷ 0x00
        ∷ 0x00 ∷ 0x00 ∷ 0x00 ∷ [])
    ∷ (0x06 ∷ 0x06 ∷ 0x00 ∷ 0x00 ∷ 0x0e ∷ 0x06 ∷ 0x06 ∷ 0x06 ∷ 0x06 ∷ 0x06 ∷ 0x06 ∷ 0x66 ∷ 0x3c
        ∷ 0x00 ∷ 0x00 ∷ 0x00 ∷ [])
    ∷ (0x60 ∷ 0x60 ∷ 0x60 ∷ 0x60 ∷ 0x66 ∷ 0x6c ∷ 0x78 ∷ 0x78 ∷ 0x6c ∷ 0x66 ∷ 0x66 ∷ 0x00 ∷ 0x00
        ∷ 0x00 ∷ 0x00 ∷ 0x00 ∷ [])
    ∷ (0x38 ∷ 0x18 ∷ 0x18 ∷ 0x18 ∷ 0x18 ∷ 0x18 ∷ 0x18 ∷ 0x18 ∷ 0x18 ∷ 0x18 ∷ 0x3c ∷ 0x00 ∷ 0x00
        ∷ 0x00 ∷ 0x00 ∷ 0x00 ∷ [])
    ∷ (0x00 ∷ 0x00 ∷ 0x00 ∷ 0x00 ∷ 0x6c ∷ 0xfe ∷ 0xd6 ∷ 0xd6 ∷ 0xd6 ∷ 0xd6 ∷ 0xc6 ∷ 0x00 ∷ 0x00
        ∷ 0x00 ∷ 0x00 ∷ 0x00 ∷ [])
    ∷ (0x00 ∷ 0x00 ∷ 0x00 ∷ 0x00 ∷ 0x7c ∷ 0x66 ∷ 0x66 ∷ 0x66 ∷ 0x66 ∷ 0x66 ∷ 0x66 ∷ 0x00 ∷ 0x00
        ∷ 0x00 ∷ 0x00 ∷ 0x00 ∷ [])
    ∷ (0x00 ∷ 0x00 ∷ 0x00 ∷ 0x00 ∷ 0x3c ∷ 0x66 ∷ 0x66 ∷ 0x66 ∷ 0x66 ∷ 0x66 ∷ 0x3c ∷ 0x00 ∷ 0x00
        ∷ 0x00 ∷ 0x00 ∷ 0x00 ∷ [])
    ∷ (0x00 ∷ 0x00 ∷ 0x00 ∷ 0x00 ∷ 0x7c ∷ 0x66 ∷ 0x66 ∷ 0x66 ∷ 0x66 ∷ 0x66 ∷ 0x7c ∷ 0x60 ∷ 0x60
        ∷ 0x60 ∷ 0x00 ∷ 0x00 ∷ [])
    ∷ (0x00 ∷ 0x00 ∷ 0x00 ∷ 0x00 ∷ 0x3e ∷ 0x66 ∷ 0x66 ∷ 0x66 ∷ 0x66 ∷ 0x66 ∷ 0x3e ∷ 0x06 ∷ 0x06
        ∷ 0x06 ∷ 0x00 ∷ 0x00 ∷ [])
    ∷ (0x00 ∷ 0x00 ∷ 0x00 ∷ 0x00 ∷ 0x76 ∷ 0x7c ∷ 0x60 ∷ 0x60 ∷ 0x60 ∷ 0x60 ∷ 0x60 ∷ 0x00 ∷ 0x00
        ∷ 0x00 ∷ 0x00 ∷ 0x00 ∷ [])
    ∷ (0x00 ∷ 0x00 ∷ 0x00 ∷ 0x00 ∷ 0x3c ∷ 0x66 ∷ 0x38 ∷ 0x0c ∷ 0x06 ∷ 0x66 ∷ 0x3c ∷ 0x00 ∷ 0x00
        ∷ 0x00 ∷ 0x00 ∷ 0x00 ∷ [])
    ∷ (0x30 ∷ 0x30 ∷ 0x30 ∷ 0x7c ∷ 0x30 ∷ 0x30 ∷ 0x30 ∷ 0x30 ∷ 0x30 ∷ 0x36 ∷ 0x1c ∷ 0x00 ∷ 0x00
        ∷ 0x00 ∷ 0x00 ∷ 0x00 ∷ [])
    ∷ (0x00 ∷ 0x00 ∷ 0x00 ∷ 0x00 ∷ 0x66 ∷ 0x66 ∷ 0x66 ∷ 0x66 ∷ 0x66 ∷ 0x66 ∷ 0x3e ∷ 0x00 ∷ 0x00
        ∷ 0x00 ∷ 0x00 ∷ 0x00 ∷ [])
    ∷ (0x00 ∷ 0x00 ∷ 0x00 ∷ 0x00 ∷ 0x66 ∷ 0x66 ∷ 0x66 ∷ 0x66 ∷ 0x66 ∷ 0x3c ∷ 0x18 ∷ 0x00 ∷ 0x00
        ∷ 0x00 ∷ 0x00 ∷ 0x00 ∷ [])
    ∷ (0x00 ∷ 0x00 ∷ 0x00 ∷ 0x00 ∷ 0xc6 ∷ 0xc6 ∷ 0xc6 ∷ 0xd6 ∷ 0xfe ∷ 0x6c ∷ 0x44 ∷ 0x00 ∷ 0x00
        ∷ 0x00 ∷ 0x00 ∷ 0x00 ∷ [])
    ∷ (0x00 ∷ 0x00 ∷ 0x00 ∷ 0x00 ∷ 0x66 ∷ 0x66 ∷ 0x3c ∷ 0x18 ∷ 0x3c ∷ 0x66 ∷ 0x66 ∷ 0x00 ∷ 0x00
        ∷ 0x00 ∷ 0x00 ∷ 0x00 ∷ [])
    ∷ (0x00 ∷ 0x00 ∷ 0x00 ∷ 0x00 ∷ 0x66 ∷ 0x66 ∷ 0x66 ∷ 0x66 ∷ 0x66 ∷ 0x3e ∷ 0x06 ∷ 0x66 ∷ 0x3c
        ∷ 0x00 ∷ 0x00 ∷ 0x00 ∷ [])
    ∷ (0x00 ∷ 0x00 ∷ 0x00 ∷ 0x00 ∷ 0x7e ∷ 0x0c ∷ 0x18 ∷ 0x30 ∷ 0x60 ∷ 0x60 ∷ 0x7e ∷ 0x00 ∷ 0x00
        ∷ 0x00 ∷ 0x00 ∷ 0x00 ∷ [])
    ∷ (0x0e ∷ 0x18 ∷ 0x18 ∷ 0x18 ∷ 0x18 ∷ 0x70 ∷ 0x18 ∷ 0x18 ∷ 0x18 ∷ 0x18 ∷ 0x18 ∷ 0x0e ∷ 0x00
        ∷ 0x00 ∷ 0x00 ∷ 0x00 ∷ [])
    ∷ (0x18 ∷ 0x18 ∷ 0x18 ∷ 0x18 ∷ 0x18 ∷ 0x18 ∷ 0x18 ∷ 0x18 ∷ 0x18 ∷ 0x18 ∷ 0x18 ∷ 0x18 ∷ 0x18
        ∷ 0x00 ∷ 0x00 ∷ 0x00 ∷ [])
    ∷ (0x70 ∷ 0x18 ∷ 0x18 ∷ 0x18 ∷ 0x18 ∷ 0x0e ∷ 0x18 ∷ 0x18 ∷ 0x18 ∷ 0x18 ∷ 0x18 ∷ 0x70 ∷ 0x00
        ∷ 0x00 ∷ 0x00 ∷ 0x00 ∷ [])
    ∷ (0x76 ∷ 0xdc ∷ 0x00 ∷ 0x00 ∷ 0x00 ∷ 0x00 ∷ 0x00 ∷ 0x00 ∷ 0x00 ∷ 0x00 ∷ 0x00 ∷ 0x00 ∷ 0x00
        ∷ 0x00 ∷ 0x00 ∷ 0x00 ∷ [])
    ∷ []

-- `font8x16`
unfoldable pub font : List Glyph
unfolding punctuation_and_digits upper_case lower_case
font = punctuation_and_digits ++ (upper_case ++ lower_case)
