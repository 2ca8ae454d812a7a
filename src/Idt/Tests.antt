-- ===== src/Idt/Tests.antt =====
-- The gates at concrete addresses.
use bin_os_c.Base.{ℕ, ◌+◌, ◌*◌, ◌%◌, ◌≤◌, ◌<◌, ◌≡◌, ◌⊎◌, arith}
use bin_os_c.Idt.{no_gate}
use bin_os_c.Idt.Laws.{LeadsTo, started, started-LeadsTo}

-- Sixteen bytes for each stub, from some address on; beyond the stubs nothing.
abbrev stub : ℕ → ℕ
stub i = 0xffff_8000_0000_0000 + i % 32 * 16

-- General protection.
abbrev vector : ℕ
vector = 13

started-LeadsTo_example :
    let g = started stub 0xffff_8000_0001_0000 0xffff_8000_0001_0010 (λ v. no_gate) vector in
    (vector < 32) × LeadsTo (stub vector) g
    ⊎ (vector ≡ 32) × LeadsTo 0xffff_8000_0001_0000 g
    ⊎ (vector ≡ 33) × LeadsTo 0xffff_8000_0001_0010 g
    ⊎ (34 ≤ vector) × (g ≡ no_gate)
started-LeadsTo_example =
    started-LeadsTo stub 0xffff_8000_0001_0000 0xffff_8000_0001_0010 (λ v. no_gate) vector
      (λ i. omega arith) (omega arith) (omega arith) (omega arith)
