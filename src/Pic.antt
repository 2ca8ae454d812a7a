-- ===== src/Pic.antt =====
-- kernel/src/cpu/pic/pic.c: the interrupt controllers.
pub mod Masks
mod Tests
use bin_os_c.Base.{
  ℕ, ◌+◌, ◌-◌, ◌*◌, ◌%◌, ◌^◌, bit_and, bit_or, Bool, true, false, Option, none, some, leb, ltb,
  ◌==◌, if◌then◌else◌, List, [], ◌∷◌,
}
use bin_os_c.Base.Int.{ℤ, pos, negsuc}
use bin_os_c.Terminal.{literal, codes}
use bin_os_c.Io.{Ports, M, pure, ◌>>=◌, ◌>>◌, inb, outb, io_wait}
use bin_os_c.Serial.{write_serial, low_byte}

abbrev pub pic1_command : ℕ
pic1_command = 0x20

abbrev pub pic1_data : ℕ
pic1_data = 0x21

abbrev pub pic2_command : ℕ
pic2_command = 0xa0

abbrev pub pic2_data : ℕ
pic2_data = 0xa1

abbrev pub pic_eoi : ℕ
pic_eoi = 0x20

abbrev icw1 : ℕ
icw1 = 0x11

-- The port and the line of an interrupt; `IRQline -= 8` on the second controller.
abbrev pub data_port : ℕ → ℕ
data_port irq = if ltb irq 8 then pic1_data else pic2_data

abbrev pub line_of : ℕ → ℕ
line_of irq = if ltb irq 8 then irq else irq - 8

-- `(uint8_t) ~(1 << line)`
abbrev pub all_but : ℕ → ℕ
all_but line = 2 ^ 8 - 1 - 2 ^ line % 2 ^ 8

module _ {D : Type 0} (io : Ports D) where
  unfoldable pub pic_get_irq_reg : ℕ → M D ℕ
  pic_get_irq_reg ocw3 = do
    outb io pic1_command ocw3
    outb io pic2_command ocw3
    high ← inb io pic2_command
    low ← inb io pic1_command
    pure (bit_or (high * 2 ^ 8) low)

  unfoldable pub pic_get_irr : M D ℕ
  pic_get_irr = pic_get_irq_reg 0x0a

  unfoldable pub pic_get_isr : M D ℕ
  pic_get_isr = pic_get_irq_reg 0x0b

  unfoldable pub pic_send_eoi : ℕ → M D (Unit {0})
  pic_send_eoi irq = do
    if leb 8 irq then outb io pic2_command pic_eoi else pure tt
    outb io pic1_command pic_eoi

  unfoldable pub pic_remap : ℤ → ℤ → M D (Unit {0})
  pic_remap offset1 offset2 = do
    outb io pic1_command icw1
    io_wait io
    outb io pic2_command icw1
    io_wait io
    outb io pic1_data (low_byte offset1)
    io_wait io
    outb io pic2_data (low_byte offset2)
    io_wait io
    outb io pic1_data 4
    io_wait io
    outb io pic2_data 2
    io_wait io
    outb io pic1_data 0x01
    io_wait io
    outb io pic2_data 0x01
    io_wait io
    outb io pic1_data 0
    outb io pic2_data 0

  unfoldable pub pic_disable : M D (Unit {0})
  pic_disable = do outb io pic1_data 0xff; outb io pic2_data 0xff

  -- A line from 8 up is shifted out of the byte; from 31 up C leaves the shift undefined.
  unfoldable pub irq_set_mask : ℕ → M D (Unit {0})
  irq_set_mask irq = do
    mask ← inb io (data_port irq)
    outb io (data_port irq) (bit_or mask (2 ^ line_of irq) % 2 ^ 8)

  unfoldable pub irq_clear_mask : ℕ → M D (Unit {0})
  irq_clear_mask irq = do
    mask ← inb io (data_port irq)
    outb io (data_port irq) (bit_and mask (all_but (line_of irq)))

  unfoldable pub pic_enable_irq : ℕ → M D (Unit {0})
  pic_enable_irq irq = do
    mask ← inb io (if ltb irq 8 then 0x21 else 0xa1)
    outb io (if ltb irq 8 then 0x21 else 0xa1) (bit_and mask (all_but (line_of irq)))

  unfoldable pub init_pic : ℕ → M D (Unit {0})
  init_pic patience = do
    outb io 0x20 0x11
    outb io 0xa0 0x11
    outb io 0x21 0x20
    outb io 0xa1 0x28
    outb io 0x21 0x04
    outb io 0xa1 0x02
    outb io 0x21 0x01
    outb io 0xa1 0x01
    outb io 0x21 0xfc
    outb io 0xa1 0xff
    write_serial io patience (literal (codes "PIC: Initialized - Timer and Keyboard enabled\n"))

  unfoldable pub pic_enable_timer_irq : ℕ → M D (Unit {0})
  pic_enable_timer_irq patience = do
    mask ← inb io 0x21
    outb io 0x21 (bit_and mask (all_but 0))
    write_serial io patience (literal (codes "PIC: Timer IRQ0 enabled\n"))
