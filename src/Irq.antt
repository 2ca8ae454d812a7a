-- ===== src/Irq.antt =====
-- The dispatch of interrupts in kernel/src/cpu/interrupts/idt.c, and kernel/src/timing/timer.c.
pub mod Handles
mod Tests
pub mod Wait
use bin_os_c.Base.{
  ℕ, zero, suc, ◌+◌, ◌%◌, ◌/◌, ◌^◌, bit_and, Bool, true, false, Option, none, some, leb, ltb, ◌==◌,
  if◌then◌else◌, List, [], ◌∷◌,
}
use bin_os_c.CString.{Buffer}
use bin_os_c.Terminal.{literal, codes}
use bin_os_c.Shell.Command.{Args}
use bin_os_c.Io.{Ports, M, pure, fault, ◌>>=◌, ◌>>◌, outb}
use bin_os_c.Serial.{write_serial}
use bin_os_c.Pic.{pic_send_eoi, pic_enable_timer_irq}
use bin_os_c.Keyboard.{Machine, on_ports, keyboard_handler}

pub record System (D : Type 0) : Type 0 where
  pub machine : Machine D
  pub timer_ticks : ℕ

-- The interrupts in one round of `timer_wait`: between the test and `hlt`, the one that ends `hlt`,
-- and between that and the next test.
pub record Round : Type 0 where
  pub missed : List ℕ
  pub wake : ℕ
  pub late : List ℕ

abbrev pub with_machine : {D A : Type 0} → System D → Option (A × Machine D) → Option (A × System D)
with_machine s none = none
with_machine s (some (a, m)) = some (a, record s { machine = m })

abbrev pub on_machine : {D A : Type 0} → M (Machine D) A → M (System D) A
on_machine k s = with_machine s (k s.machine)

abbrev pub get_timer_ticks : {D : Type 0} → M (System D) ℕ
get_timer_ticks s = some (s.timer_ticks, s)

-- `uint64_t`
unfoldable pub count_tick : {D : Type 0} → M (System D) (Unit {0})
count_tick s = some (tt, record s { timer_ticks = (s.timer_ticks + 1) % 2 ^ 64 })

module _ {D : Type 0} (io : Ports D) (patience : ℕ) where
  unfoldable pub on_irq0 : M (System D) (Unit {0})
  on_irq0 = do count_tick; on_machine (on_ports (pic_send_eoi io 0))

  unfoldable pub init_timer : M (System D) (Unit {0})
  init_timer = do
    on_machine (on_ports (outb io 0x43 0x36))
    on_machine (on_ports (outb io 0x40 (bit_and 11932 0xff)))
    on_machine (on_ports (outb io 0x40 (bit_and (11932 / 2 ^ 8) 0xff)))
    on_machine
        (on_ports (write_serial io patience (literal (codes "PIT: Timer initialized at ~100Hz\n"))))

  unfoldable pub init_timer_interrupts : M (System D) (Unit {0})
  init_timer_interrupts = do
    on_machine (on_ports (pic_enable_timer_irq io patience))
    on_machine
        (on_ports (write_serial io patience (literal (codes "Timer: Interrupts initialized\n"))))

  -- The end of `irq_handler`.
  unfoldable pub acknowledge : ℕ → M D (Unit {0})
  acknowledge irq_number = do
    if leb 40 irq_number then outb io 0xa0 0x20 else pure tt
    outb io 0x20 0x20

-- `args` and `stack` are what the stack holds in the handler of the keyboard.
module _ {D : Type 0} (io : Ports D) (patience : ℕ) (args : Args) (stack : Buffer) where
  -- The `switch`.
  unfoldable pub dispatch : ℕ → M (System D) (Unit {0})
  dispatch irq_number =
      if irq_number == 32
      then on_irq0 io patience
      else if irq_number == 33
      then (do
        on_machine (on_ports (write_serial io patience (literal (codes "Keyboard IRQ received\n"))))
        on_machine (keyboard_handler io patience args stack))
      else on_machine (on_ports (write_serial io patience (literal (codes "Unhandled IRQ\n"))))

  unfoldable pub irq_handler : ℕ → M (System D) (Unit {0})
  irq_handler irq_number = do
    dispatch irq_number
    on_machine (on_ports (acknowledge io patience irq_number))

  unfoldable pub handle_all : List ℕ → M (System D) (Unit {0})
  handle_all [] = pure tt
  handle_all (irq ∷ irqs) = do irq_handler irq; handle_all irqs

  -- `while (timer_ticks < start_ticks + ticks) hlt;`, with the rounds to come. The result is those
  -- that are not needed; where they run out, the processor halts for good.
  unfoldable pub timer_wait_loop : List Round → ℕ → M (System D) (List Round)
  timer_wait_loop [] target = do now ← get_timer_ticks; if ltb now target then fault else pure []
  timer_wait_loop (round ∷ rounds) target = do
    now ← get_timer_ticks
    if ltb now target
        then (do
          handle_all round.missed
          irq_handler round.wake
          handle_all round.late
          timer_wait_loop rounds target)
        else pure (round ∷ rounds)

  -- `early` are the interrupts between the first read of the counter and the first test.
  unfoldable pub timer_wait : List ℕ → List Round → ℕ → M (System D) (List Round)
  timer_wait early rounds ticks = do
    start_ticks ← get_timer_ticks
    handle_all early
    timer_wait_loop rounds ((start_ticks + ticks) % 2 ^ 64)
