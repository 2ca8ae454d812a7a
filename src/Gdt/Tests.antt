-- ===== src/Gdt/Tests.antt =====
-- The descriptors at concrete addresses.
use bin_os_c.Base.{ℕ, ◌/◌, ◌^◌, ◌≡◌, ◌≢◌, refl, arith}
use bin_os_c.Gdt.{Descriptor, Table, gdt_set_entry, gdt_set_tss, gdt_init}
use bin_os_c.Gdt.Laws.{base_of, limit_of, tss_base_of, gdt_set_entry_decodes, gdt_set_tss_decodes}

abbrev no_table : Table
no_table i = record {
  limit_low = 0;
  base_low = 0;
  base_middle = 0;
  access = 0;
  granularity = 0;
  base_high = 0;
}

-- The code segment of the kernel, as the processor's manual spells it.
code_segment : (gdt_init 0x1234_5678 no_table 1).granularity ≡ 0xaf
unfolding gdt_init gdt_set_entry gdt_set_tss bin_os_c.Gdt.descriptor
code_segment = refl

gdt_set_entry_decodes_example :
    let gdt = gdt_set_entry 3 0x1234_5678 0xf_fffe 0xfa 0xaf no_table in
    (base_of (gdt 3) ≡ 0x1234_5678)
    × (limit_of (gdt 3) ≡ 0xf_fffe)
    × ((gdt 3).access ≡ 0xfa)
    × ((gdt 3).granularity / 2 ^ 4 ≡ 0xaf / 2 ^ 4)
    × ((i : ℕ) → i ≢ 3 → gdt i ≡ no_table i)
gdt_set_entry_decodes_example =
    gdt_set_entry_decodes 3 0x1234_5678 0xf_fffe 0xfa 0xaf no_table (omega arith) (omega arith)
      (omega arith)

gdt_set_tss_decodes_example :
    let gdt = gdt_set_tss 5 0xffff_8000_1234_5678 103 no_table in
    (tss_base_of (gdt 5) (gdt 6) ≡ 0xffff_8000_1234_5678)
    × (limit_of (gdt 5) ≡ 103)
    × ((i : ℕ) → i ≢ 5 → i ≢ 6 → gdt i ≡ no_table i)
gdt_set_tss_decodes_example =
    gdt_set_tss_decodes 5 0xffff_8000_1234_5678 103 no_table (omega arith) (omega arith)
