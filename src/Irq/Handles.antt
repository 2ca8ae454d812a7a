-- ===== src/Irq/Handles.antt =====
-- Each interrupt of kernel/src/cpu/interrupts/idt.c is handled to its end.
use bin_os_c.Base.{
  ℕ, ◌+◌, ◌%◌, ◌^◌, ◌<◌, ◌≡◌, ◌⊎◌, refl, true, Option, some, leb, ◌==◌, if◌then◌else◌, inl, inr,
  Bool-cases, List, eq_of_==, length,
}
use bin_os_c.CString.{Buffer}
use bin_os_c.Terminal.{literal, codes}
use bin_os_c.Terminal.Laws.{nonzero, literal-IsString}
use bin_os_c.Shell.Command.{Args}
use bin_os_c.Shell.Command.Args.{HasRoom}
use bin_os_c.Io.{Ports}
use bin_os_c.Serial.{write_serial}
use bin_os_c.Serial.Line.{Uart, write_serial-Sent}
use bin_os_c.Pic.{pic_send_eoi, pic1_command, pic2_command}
use bin_os_c.Keyboard.{on_ports}
use bin_os_c.Keyboard.Interrupts.{Wired, keyboard_handler-Follows}
use bin_os_c.Keyboard.Safe.{IsMachine}
use bin_os_c.Irq.{System, on_machine, count_tick, on_irq0, acknowledge, dispatch, irq_handler}

-- Writes to the command ports of the controllers leave the serial port alone.
pub record Quiet {D : Type 0} {io : Ports D} {patience : ℕ} (u : Uart io patience) : Type 0 where
  pub first_keeps : (c : ℕ) (d : D) → u.Online d → u.Online (io.outb pic1_command c d)
  pub second_keeps : (c : ℕ) (d : D) → u.Online d → u.Online (io.outb pic2_command c d)

module _ {D : Type 0} {io : Ports D} {patience : ℕ} (u : Uart io patience) (wired : Wired u)
    (quiet : Quiet u) (args : Args) (stack : Buffer) (room : HasRoom args)
    (long : 11 < stack.size) where
  abbrev pub IsSystem : System D → Type 0
  IsSystem s = IsMachine u args stack room long s.machine

  -- The step ends in such a system, with so many ticks.
  abbrev Ends : ℕ → Option (Unit {0} × System D) → Type 0
  Ends ticks o = (s : System D) × (o ≡ some (tt, s)) × IsSystem s × (s.timer_ticks ≡ ticks)

  message-Ends :
      (cs : List ℕ) (s : System D)
      → nonzero cs ≡ true
      → IsSystem s
      → (d : D) × (on_machine (on_ports (write_serial io patience (literal cs))) s
          ≡ some (tt, record s { machine = record s.machine { ports = d } }))
        × IsSystem (record s { machine = record s.machine { ports = d } })
  message-Ends cs s ne is =
      let (d, run, online, sent) =
        write_serial-Sent u (literal cs) (length cs) s.machine.ports (literal-IsString cs ne)
          is.online in
      (d, rw run refl, record { shell = is.shell; online = online })

  acknowledge-Ends :
      (irq : ℕ) (s : System D)
      → IsSystem s
      → (d : D) × (on_machine (on_ports (acknowledge io patience irq)) s
          ≡ some (tt, record s { machine = record s.machine { ports = d } }))
        × u.Online d
  unfolding acknowledge
  acknowledge-Ends irq s is = elim (Bool-cases (leb 40 irq)) [
    | inl both ↦ (
      _,
      rw both refl,
      quiet.first_keeps 0x20 (io.outb 0xa0 0x20 s.machine.ports)
          (quiet.second_keeps 0x20 s.machine.ports is.online),
    )
    | inr one ↦ (_, rw one refl, quiet.first_keeps 0x20 s.machine.ports is.online)
  ]

  -- The ticks after an interrupt, and the flags, which only a keyboard interrupt changes.
  pub record Handled (irq : ℕ) (s s' : System D) : Type 0 where
    pub system : IsSystem s'
    pub ticks : s'.timer_ticks ≡ (if irq == 32 then (s.timer_ticks + 1) % 2 ^ 64 else s.timer_ticks)
    pub flags : (irq ≡ 33) ⊎ (s'.machine.keyboard ≡ s.machine.keyboard)

  dispatch-Handled :
      (irq : ℕ) (s : System D)
      → IsSystem s
      → (s' : System D) × (dispatch io patience args stack irq s ≡ some (tt, s')) × Handled irq s s'
  unfolding dispatch on_irq0 count_tick pic_send_eoi
  dispatch-Handled irq s is = elim (Bool-cases (irq == 32)) [
    | inl timer ↦ (
      record {
        machine = record s.machine { ports = io.outb 0x20 0x20 s.machine.ports };
        timer_ticks = (s.timer_ticks + 1) % 2 ^ 64;
      },
      rw timer refl,
      record {
        system = record {
          shell = is.shell;
          online = quiet.first_keeps 0x20 s.machine.ports is.online;
        };
        ticks = rw timer refl;
        flags = inr refl;
      },
    )
    | inr other ↦ elim (Bool-cases (irq == 33)) [
      | inl key ↦
          let (d, run, is₁) = message-Ends (codes "Keyboard IRQ received\n") s refl is in
          let (m, run₁, is₂, e) =
            keyboard_handler-Follows u wired args stack room long (record s.machine { ports = d })
              is₁ in
          (
            record s { machine = m },
            rw (other, key, run, run₁) refl,
            record { system = is₂; ticks = rw other refl; flags = inl (eq_of_== irq 33 key) },
          )
      | inr unknown ↦
          let (d, run, is₁) = message-Ends (codes "Unhandled IRQ\n") s refl is in
          (
            record s { machine = record s.machine { ports = d } },
            rw (other, unknown) run,
            record { system = is₁; ticks = rw other refl; flags = inr refl },
          )
    ]
  ]

  -- For a serial port that answers its polls and sends what is written, keyboard ports whose
  -- reads leave it alone and give bytes, stack arrays of the sizes the code gives them, and a
  -- machine whose shell is well formed, and writes to the interrupt controllers that leave the
  -- serial port alone: `irq_handler` of any number ends in such a machine, counts a tick modulo
  -- 2^64 exactly for number 32, and changes the keyboard's flags for no number but 33.
  pub irq_handler-Handled :
      (irq : ℕ) (s : System D)
      → IsSystem s
      → (s' : System D) × (irq_handler io patience args stack irq s ≡ some (tt, s'))
        × Handled irq s s'
  unfolding irq_handler
  irq_handler-Handled irq s is =
      let (s₁, run₁, h) = dispatch-Handled irq s is in
      let (d, run₂, online) = acknowledge-Ends irq s₁ h.system in
      (
        record s₁ { machine = record s₁.machine { ports = d } },
        rw (run₁, run₂) refl,
        record {
          system = record { shell = h.system.shell; online = online };
          ticks = h.ticks;
          flags = h.flags;
        },
      )
