-- ===== src/Idt/Laws.antt =====
-- Where the gates of kernel/src/cpu/interrupts/idt.c lead after the start of the kernel.
use bin_os_c.Base.{
  ℕ, zero, suc, ◌+◌, ◌*◌, ◌^◌, ◌≤◌, ◌<◌, ◌≡◌, refl, ap, sym, ◌∙◌, ◌⊎◌, inl, inr, true, false, ◌&&◌,
  arith, leb, ltb, ◌==◌, if◌then◌else◌, Bool-cases, eq_of_==, loop,
}
use bin_os_c.Idt.{
  Gate, Table, gate, no_gate, idt_add_entry, clear_entry, idt_init, install_exceptions,
  install_irq_common, init_timer_irq, init_keyboard_irq,
}

-- The address that the processor puts together.
abbrev pub handler_of : Gate → ℕ
handler_of g = g.isr_low + g.isr_mid * 2 ^ 16 + g.isr_high * 2 ^ 32

-- An interrupt gate of the kernel to `addr`.
abbrev pub LeadsTo : ℕ → Gate → Type 0
LeadsTo addr g = (handler_of g ≡ addr) × (g.kernel_cs ≡ 0x8) × (g.attributes ≡ 0x8e)

gate-LeadsTo : (addr : ℕ) → addr < 2 ^ 64 → LeadsTo addr (gate addr 0x8e)
gate-LeadsTo addr lt = (omega arith, refl, refl)

same_range :
    (v i left : ℕ)
    → (v == i) ≡ false
    → (leb (i + 1) v && ltb v (i + 1 + left)) ≡ (leb i v && ltb v (i + suc left))
same_range v i left ne = ground arith

add_entry-at :
    (isr : ℕ → ℕ) (left i : ℕ) (idt : Table) (v : ℕ)
    → loop left i (λ k. idt_add_entry k (isr k) 0x8e) idt v
      ≡ (if leb i v && ltb v (i + left) then gate (isr v) 0x8e else idt v)
unfolding loop idt_add_entry
add_entry-at isr zero i idt v = ground arith
add_entry-at isr (suc left) i idt v =
    add_entry-at isr left (i + 1) (idt_add_entry i (isr i) 0x8e idt) v
    ∙ elim (Bool-cases (v == i)) [
      | inl e ↦
          let behind : (leb (i + 1) v && ltb v (i + 1 + left)) ≡ false = ground arith in
          let inside : (leb i v && ltb v (i + suc left)) ≡ true = ground arith in
          rw (behind, inside, e) (ap (λ j. gate (isr j) 0x8e) (sym (eq_of_== v i e)))
      | inr ne ↦ rw (same_range v i left ne, ne)
    ]

clear_entry-at :
    (left i : ℕ) (idt : Table) (v : ℕ)
    → loop left i clear_entry idt v ≡ (if leb i v && ltb v (i + left) then no_gate else idt v)
unfolding loop clear_entry
clear_entry-at zero i idt v = ground arith
clear_entry-at (suc left) i idt v =
    clear_entry-at left (i + 1) (clear_entry i idt) v ∙ elim (Bool-cases (v == i)) [
      | inl e ↦
          let behind : (leb (i + 1) v && ltb v (i + 1 + left)) ≡ false = ground arith in
          let inside : (leb i v && ltb v (i + suc left)) ≡ true = ground arith in
          rw (behind, inside, e)
      | inr ne ↦ rw (same_range v i left ne, ne)
    ]

-- The table after the calls of the kernel's start.
abbrev pub started : (ℕ → ℕ) → ℕ → ℕ → Table → Table
started isr irq0 irq1 idt =
    init_keyboard_irq irq1 (init_timer_irq irq0 (install_exceptions isr (idt_init idt)))

-- For addresses of handlers below 2^64: after the four calls of the kernel's start each of the
-- first 32 vectors leads to its exception stub, 32 to the timer's and 33 to the keyboard's, by
-- interrupt gates of the kernel's code segment, and every other vector below 256 has no gate.
pub started-LeadsTo :
    (isr : ℕ → ℕ) (irq0 irq1 : ℕ) (idt : Table) (v : ℕ)
    → ((i : ℕ) → isr i < 2 ^ 64)
    → irq0 < 2 ^ 64
    → irq1 < 2 ^ 64
    → v < 256
    → let g = started isr irq0 irq1 idt v in
      (v < 32) × LeadsTo (isr v) g
      ⊎ (v ≡ 32) × LeadsTo irq0 g
      ⊎ (v ≡ 33) × LeadsTo irq1 g
      ⊎ (34 ≤ v) × (g ≡ no_gate)
unfolding init_keyboard_irq init_timer_irq install_irq_common install_exceptions idt_init
    idt_add_entry
started-LeadsTo isr irq0 irq1 idt v fit fit₀ fit₁ lt = elim (Bool-cases (v == 33)) [
  | inl e ↦ inr (inr (inl (ground arith, rw e (gate-LeadsTo irq1 fit₁))))
  | inr ne ↦ elim (Bool-cases (v == 32)) [
    | inl e ↦ inr (inl (ground arith, rw (ne, e) (gate-LeadsTo irq0 fit₀)))
    | inr ne' ↦
        let table = loop 32 0 (λ k. idt_add_entry k (isr k) 0x8e) (loop 256 0 clear_entry idt) in
        let all = add_entry-at isr 32 0 (loop 256 0 clear_entry idt) v in
        elim (Bool-cases (ltb v 32)) [
          | inl low ↦
              let inside : (leb 0 v && ltb v (0 + 32)) ≡ true = ground arith in
              let e : table v ≡ gate (isr v) 0x8e = all ∙ rw inside refl in
              inl (ground arith, rw (ne, ne', e) (gate-LeadsTo (isr v) (fit v)))
          | inr high ↦
              let outside : (leb 0 v && ltb v (0 + 32)) ≡ false = ground arith in
              let inside : (leb 0 v && ltb v (0 + 256)) ≡ true = ground arith in
              let e : table v ≡ no_gate =
                all ∙ rw outside (clear_entry-at 256 0 idt v ∙ rw inside refl) in
              inr (inr (inr (ground arith, rw (ne, ne', e))))
        ]
  ]
]
