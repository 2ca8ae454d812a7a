-- ===== src/Idt.antt =====
-- kernel/src/cpu/interrupts/idt.c: the gates of the interrupt table. The messages on the serial port
-- and the register `idtr` are left out.
pub mod Laws
mod Tests
use bin_os_c.Base.{ℕ, zero, suc, ◌+◌, ◌*◌, ◌/◌, ◌%◌, ◌^◌, ◌==◌, if◌then◌else◌, loop}

-- `idt_entry_t`
pub record Gate : Type 0 where
  pub isr_low : ℕ
  pub kernel_cs : ℕ
  pub ist : ℕ
  pub attributes : ℕ
  pub isr_mid : ℕ
  pub isr_high : ℕ
  pub reserved : ℕ

abbrev pub Table : Type 0
Table = ℕ → Gate

abbrev pub no_gate : Gate
no_gate = record {
  isr_low = 0;
  kernel_cs = 0;
  ist = 0;
  attributes = 0;
  isr_mid = 0;
  isr_high = 0;
  reserved = 0;
}

abbrev pub gate : ℕ → ℕ → Gate
gate addr flags = record {
  isr_low = addr % 2 ^ 16;
  kernel_cs = 0x8;
  ist = 0;
  attributes = flags;
  isr_mid = addr / 2 ^ 16 % 2 ^ 16;
  isr_high = addr / 2 ^ 32 % 2 ^ 32;
  reserved = 0;
}

-- `vector` is a `uint8_t`, so it is inside the table.
unfoldable pub idt_add_entry : ℕ → ℕ → ℕ → Table → Table
idt_add_entry vector addr flags idt v = if v == vector then gate addr flags else idt v

-- `idt[i] = (idt_entry_t){0};`
unfoldable pub clear_entry : ℕ → Table → Table
clear_entry i idt v = if v == i then no_gate else idt v

unfoldable pub idt_init : Table → Table
idt_init = loop 256 0 clear_entry

-- `isr i` is the address of the stub `isr0` to `isr31` in the assembly.
unfoldable pub install_exceptions : (ℕ → ℕ) → Table → Table
install_exceptions isr = loop 32 0 (λ i. idt_add_entry i (isr i) 0x8e)

unfoldable pub install_irq_common : ℕ → ℕ → Table → Table
install_irq_common irq_vector handler = idt_add_entry irq_vector handler 0x8e

unfoldable pub init_timer_irq : ℕ → Table → Table
init_timer_irq irq0 = install_irq_common 32 irq0

unfoldable pub init_keyboard_irq : ℕ → Table → Table
init_keyboard_irq irq1 = install_irq_common 33 irq1
