-- ===== src/Keyboard/Tests.antt =====
-- A small machine whose keyboard always has the code of the letter a.
use bin_os_c.Base.{
  ℕ, ◌<◌, ◌≡◌, ◌+◌, refl, false, Bool, some, List, [], ◌∷◌, ◌++◌, arith, ◌==◌, if◌then◌else◌,
}
use bin_os_c.CString.{Buffer}
use bin_os_c.Shell.{Shell}
use bin_os_c.Shell.Tests.{prompt, prompt-IsShell}
use bin_os_c.Shell.Command.{Args}
use bin_os_c.Shell.Command.Args.{HasRoom}
use bin_os_c.Io.{Ports}
use bin_os_c.Serial.{port}
use bin_os_c.Serial.Line.{Uart}
use bin_os_c.Keyboard.{Machine, handle_scancode, interrupts, kb_data_port}
use bin_os_c.Keyboard.Interrupts.{Wired, interrupts-IsMachine}
use bin_os_c.Keyboard.Keys.{next_keyboard, handle_scancode-Follows}
use bin_os_c.Keyboard.Safe.{IsMachine, Follows}
use bin_os_c.Keyboard.Typing.{with_shift, types, handle_scancode-types}

-- The bytes that were written to the serial port are kept.
abbrev pub wires : Ports (List ℕ)
wires = record {
  inb = λ p d. (if p == kb_data_port then 0x1e else 0x21, d);
  outb = λ p c d. if p == port then d ++ c ∷ [] else d;
}

abbrev pub wires_uart : Uart wires 1
wires_uart = record {
  Online = λ d. Unit {0};
  sent = λ d. d;
  answers = λ d online. (0, omega arith, refl);
  read_keeps = λ d online. (tt, refl);
  stays_empty = λ d empty. refl;
  write_sends = λ c d online empty. (tt, refl);
}

pub wires-Wired : Wired wires_uart
wires-Wired = record {
  status_keeps = λ d online. tt;
  data_keeps = λ d online. tt;
  is_byte = λ d. omega arith;
}

abbrev pub blank_args : Args
blank_args k = record { size = 32; at = λ i. i + k }

pub blank_args-HasRoom : HasRoom blank_args
blank_args-HasRoom k lt = refl

abbrev pub digit_stack : Buffer
digit_stack = record { size = 32; at = λ i. 5 }

pub digit_stack-long : 11 < digit_stack.size
digit_stack-long = omega arith

abbrev pub booted : Machine (List ℕ)
booted = record { keyboard = with_shift false; shell = prompt; ports = [] }

pub booted-IsMachine :
    IsMachine wires_uart blank_args digit_stack blank_args-HasRoom digit_stack-long booted
booted-IsMachine = record { shell = prompt-IsShell; online = tt }

handle_scancode-Follows_example :
    Follows wires_uart blank_args digit_stack blank_args-HasRoom digit_stack-long
      (next_keyboard 0x2a (with_shift false))
      (handle_scancode wires 1 blank_args digit_stack 0x2a booted)
handle_scancode-Follows_example =
    handle_scancode-Follows wires_uart blank_args digit_stack blank_args-HasRoom digit_stack-long
      0x2a booted (omega arith) booted-IsMachine

interrupts-IsMachine_example :
    (m : Machine (List ℕ)) × (interrupts wires 1 blank_args digit_stack 9 booted ≡ some (tt, m))
    × IsMachine wires_uart blank_args digit_stack blank_args-HasRoom digit_stack-long m
interrupts-IsMachine_example =
    interrupts-IsMachine wires_uart wires-Wired blank_args digit_stack blank_args-HasRoom
      digit_stack-long 9 booted booted-IsMachine

handle_scancode-types_example :
    (code : ℕ) × (shift : Bool) × (code < 128)
    × ((s : Shell) (d : List ℕ)
        → handle_scancode wires 1 blank_args digit_stack code
            (record { keyboard = with_shift shift; shell = s; ports = d })
          ≡ types wires 1 blank_args digit_stack 126
              (record { keyboard = with_shift shift; shell = s; ports = d }))
handle_scancode-types_example =
    handle_scancode-types wires 1 blank_args digit_stack 126 (omega arith) (omega arith)
