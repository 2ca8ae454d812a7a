-- ===== src/Keyboard/Interrupts.antt =====
-- Keyboard interrupts, `keyboard_handler` of kernel/src/ps2_keyboard/keyboard.c.
use bin_os_c.Base.{
  ℕ, zero, suc, ◌<◌, ◌≡◌, refl, some, ◌==◌, if◌then◌else◌, inl, inr, Bool-cases, bit_and,
}
use bin_os_c.CString.{Buffer}
use bin_os_c.Shell.Command.{Args}
use bin_os_c.Shell.Command.Args.{HasRoom}
use bin_os_c.Io.{Ports}
use bin_os_c.Serial.Line.{Uart}
use bin_os_c.Keyboard.{
  Keyboard, Machine, keyboard_handler, interrupts, kb_data_port, kb_status_port,
}
use bin_os_c.Keyboard.Keys.{next_keyboard, handle_scancode-Follows}
use bin_os_c.Keyboard.Safe.{IsMachine, Follows}

-- Reads of the keyboard's ports leave the serial port alone, and give a byte.
pub record Wired {D : Type 0} {io : Ports D} {patience : ℕ} (u : Uart io patience) : Type 0 where
  pub status_keeps : (d : D) → u.Online d → u.Online (io.inb kb_status_port d).1
  pub data_keeps : (d : D) → u.Online d → u.Online (io.inb kb_data_port d).1
  pub is_byte : (d : D) → (io.inb kb_data_port d).0 < 256

-- The flags after an interrupt: they change if the status says that there is a byte.
abbrev pub after_interrupt : {D : Type 0} → Ports D → Machine D → Keyboard
after_interrupt io m =
    let (status, d) = io.inb kb_status_port m.ports in
    if bit_and status 0x01 == 0
    then m.keyboard
    else next_keyboard (io.inb kb_data_port d).0 m.keyboard

module _ {D : Type 0} {io : Ports D} {patience : ℕ} (u : Uart io patience) (wired : Wired u)
    (args : Args) (stack : Buffer) (room : HasRoom args) (long : 11 < stack.size) where
  -- What the byte does that an interrupt brings.
  pub keyboard_handler-Follows :
      (m : Machine D)
      → IsMachine u args stack room long m
      → Follows u args stack room long
          (after_interrupt io m)
          (keyboard_handler io patience args stack m)
  unfolding keyboard_handler
  keyboard_handler-Follows m is =
      let d = (io.inb kb_status_port m.ports).1 in
      let m₁ = record m { ports = d } in
      let is₁ = wired.status_keeps m.ports is.online in
      elim (Bool-cases (bit_and (io.inb kb_status_port m.ports).0 0x01 == 0)) [
        | inl idle ↦ rw idle (m₁, refl, record { shell = is.shell; online = is₁ }, refl)
        | inr full ↦ rw full (
            handle_scancode-Follows u args stack room long (io.inb kb_data_port d).0
              (record m { ports = (io.inb kb_data_port d).1 }) (wired.is_byte d)
              (record { shell = is.shell; online = wired.data_keeps d is₁ }))
      ]

  -- For a serial port that answers its polls and sends what is written, keyboard ports whose
  -- reads leave it alone and give bytes, stack arrays of the sizes the code gives them, and a
  -- machine whose shell is well formed: any number of keyboard interrupts, with whatever bytes
  -- the keyboard sends, is handled to its end without a fault, commands that are typed included,
  -- and leaves such a machine.
  pub interrupts-IsMachine :
      (n : ℕ) (m : Machine D)
      → IsMachine u args stack room long m
      → (m' : Machine D) × (interrupts io patience args stack n m ≡ some (tt, m'))
        × IsMachine u args stack room long m'
  unfolding interrupts
  interrupts-IsMachine zero m is = (m, refl, is)
  interrupts-IsMachine (suc n) m is =
      let (m₁, run₁, is₁, flags) = keyboard_handler-Follows m is in
      let (m₂, run₂, is₂) = interrupts-IsMachine n m₁ is₁ in (m₂, rw run₁ run₂, is₂)
