-- ===== src/Gdt/Laws.antt =====
-- What a processor reads back from the descriptors of kernel/src/cpu/gdt/gdt.c.
use bin_os_c.Base.{
  ℕ, ◌+◌, ◌*◌, ◌/◌, ◌%◌, ◌^◌, ◌<◌, ◌≡◌, ◌≢◌, refl, bit_and, bit_or, ◌==◌, arith, all_below,
  all_below-lt, eq_of_==, true, false,
}
use bin_os_c.Gdt.{Descriptor, Table, descriptor, gdt_set_entry, gdt_set_tss}

-- The base and the limit that the processor puts together from the fields.
abbrev pub base_of : Descriptor → ℕ
base_of d = d.base_low + d.base_middle * 2 ^ 16 + d.base_high * 2 ^ 24

abbrev pub limit_of : Descriptor → ℕ
limit_of d = d.limit_low + d.granularity % 2 ^ 4 * 2 ^ 16

-- The descriptor of a task state takes two entries.
abbrev pub tss_base_of : Descriptor → Descriptor → ℕ
tss_base_of low high = base_of low + high.limit_low * 2 ^ 32 + high.base_low * 2 ^ 48

nibbles : (n g : ℕ) → n < 16 → g < 256 → bit_or n (bit_and g 0xf0) ≡ n + g / 16 * 16
unfolding all_below
nibbles n g lt lt' =
    let inner =
      all_below-lt 16 (λ m. all_below 256 (λ h. bit_or m (bit_and h 0xf0) == m + h / 16 * 16)) n
        refl lt in
    eq_of_== (bit_or n (bit_and g 0xf0)) (n + g / 16 * 16)
      (all_below-lt 256 (λ h. bit_or n (bit_and h 0xf0) == n + h / 16 * 16) g inner lt')

-- For a base below 2^32, a limit below 2^20 and flags of a byte: the processor reads back from
-- the entry that `gdt_set_entry` writes the base, the limit, the access byte and the flags' upper
-- half, and no other entry changes.
pub gdt_set_entry_decodes :
    (index base limit access granularity : ℕ) (gdt : Table)
    → base < 2 ^ 32
    → limit < 2 ^ 20
    → granularity < 2 ^ 8
    → let gdt' = gdt_set_entry index base limit access granularity gdt in
      (base_of (gdt' index) ≡ base)
      × (limit_of (gdt' index) ≡ limit)
      × ((gdt' index).access ≡ access)
      × ((gdt' index).granularity / 2 ^ 4 ≡ granularity / 2 ^ 4)
      × ((i : ℕ) → i ≢ index → gdt' i ≡ gdt i)
unfolding gdt_set_entry descriptor
gdt_set_entry_decodes index base limit access granularity gdt b l g =
    let here : (index == index) ≡ true = ground arith in
    let e = nibbles (limit / 2 ^ 16 % 2 ^ 4) granularity (omega arith) g in
    (
      rw here (omega arith),
      rw (here, e) (omega arith),
      rw here,
      rw (here, e) (omega arith),
      λ i ne. let other : (i == index) ≡ false = ground arith in rw other,
    )

-- For a base below 2^64 and a limit below 2^20: the processor reads back from the two entries
-- that `gdt_set_tss` writes the base and the limit, and no other entry changes.
pub gdt_set_tss_decodes :
    (index base limit : ℕ) (gdt : Table)
    → base < 2 ^ 64
    → limit < 2 ^ 20
    → let gdt' = gdt_set_tss index base limit gdt in
      (tss_base_of (gdt' index) (gdt' (index + 1)) ≡ base)
      × (limit_of (gdt' index) ≡ limit)
      × ((i : ℕ) → i ≢ index → i ≢ index + 1 → gdt' i ≡ gdt i)
unfolding gdt_set_entry gdt_set_tss descriptor
gdt_set_tss_decodes index base limit gdt b l =
    let here : (index == index) ≡ true = ground arith in
    let not_next : (index == index + 1) ≡ false = ground arith in
    let next : (index + 1 == index + 1) ≡ true = ground arith in
    let e = nibbles (limit / 2 ^ 16 % 2 ^ 4) 0 (omega arith) (omega arith) in
    (
      rw (here, not_next, next) (omega arith),
      rw (here, not_next, e) (omega arith),
      λ i ne ne'.
          let other : (i == index) ≡ false = ground arith in
          let other' : (i == index + 1) ≡ false = ground arith in rw (other, other'),
    )
