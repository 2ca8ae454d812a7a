-- ===== src/Gdt.antt =====
-- kernel/src/cpu/gdt/gdt.c: the segment descriptors.
pub mod Laws
mod Tests
use bin_os_c.Base.{ℕ, ◌+◌, ◌-◌, ◌*◌, ◌/◌, ◌%◌, ◌^◌, bit_and, bit_or, ◌==◌, if◌then◌else◌}

-- `struct gdt_entry`
pub record Descriptor : Type 0 where
  pub limit_low : ℕ
  pub base_low : ℕ
  pub base_middle : ℕ
  pub access : ℕ
  pub granularity : ℕ
  pub base_high : ℕ

-- The array `gdt`.
abbrev pub Table : Type 0
Table = ℕ → Descriptor

abbrev set_at : ℕ → Descriptor → Table → Table
set_at index e gdt i = if i == index then e else gdt i

-- `sizeof(struct tss)`, which is packed.
abbrev pub tss_size : ℕ
tss_size = 104

-- The fields are unsigned, so a mask of low bits is a remainder. `access` is an argument of 8 bits.
unfoldable pub descriptor : ℕ → ℕ → ℕ → ℕ → Descriptor
descriptor base limit access granularity = record {
  limit_low = limit % 2 ^ 16;
  base_low = base % 2 ^ 16;
  base_middle = base / 2 ^ 16 % 2 ^ 8;
  access = access;
  granularity = bit_or (limit / 2 ^ 16 % 2 ^ 4) (bit_and granularity 0xf0);
  base_high = base / 2 ^ 24 % 2 ^ 8;
}

unfoldable pub gdt_set_entry : ℕ → ℕ → ℕ → ℕ → ℕ → Table → Table
gdt_set_entry index base limit access granularity gdt =
    set_at index (descriptor base limit access granularity) gdt

unfoldable pub gdt_set_tss : ℕ → ℕ → ℕ → Table → Table
unfolding gdt_set_entry
gdt_set_tss index base limit gdt =
    set_at (index + 1)
      (record {
        limit_low = base / 2 ^ 32 % 2 ^ 16;
        base_low = base / 2 ^ 48 % 2 ^ 16;
        base_middle = 0;
        access = 0;
        granularity = 0;
        base_high = 0;
      })
      (gdt_set_entry index (base % 2 ^ 32) limit 0x89 0 gdt)

-- The table after `gdt_init`; `tss` is the address of `kernel_tss`.
unfoldable pub gdt_init : ℕ → Table → Table
unfolding gdt_set_entry gdt_set_tss
gdt_init tss gdt =
    let gdt₀ = gdt_set_entry 0 0 0 0 0 gdt in
    let gdt₁ = gdt_set_entry 1 0 0xf_ffff 0x9a 0xaf gdt₀ in
    let gdt₂ = gdt_set_entry 2 0 0xf_ffff 0x92 0xcf gdt₁ in
    let gdt₃ = gdt_set_entry 3 0 0xf_ffff 0xfa 0xaf gdt₂ in
    let gdt₄ = gdt_set_entry 4 0 0xf_ffff 0xf2 0xcf gdt₃ in gdt_set_tss 5 tss (tss_size - 1) gdt₄
