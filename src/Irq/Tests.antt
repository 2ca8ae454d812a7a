-- ===== src/Irq/Tests.antt =====
-- Interrupts at the small machine of the keyboard.
use bin_os_c.Base.{ℕ, ◌≡◌, some, List, [], ◌∷◌, arith}
use bin_os_c.Keyboard.Tests.{
  wires, wires_uart, wires-Wired, blank_args, blank_args-HasRoom, digit_stack, digit_stack-long,
  booted, booted-IsMachine,
}
use bin_os_c.Irq.{System, Round, irq_handler, timer_wait}
use bin_os_c.Irq.Handles.{Quiet, Handled, irq_handler-Handled}
use bin_os_c.Irq.Wait.{EndsWell, timer_wait-EndsWell}

wires-Quiet : Quiet wires_uart
wires-Quiet = record { first_keeps = λ c d online. tt; second_keeps = λ c d online. tt }

abbrev running : System (List ℕ)
running = record { machine = booted; timer_ticks = 7 }

irq_handler-Handled_example :
    (s : System (List ℕ)) × (irq_handler wires 1 blank_args digit_stack 33 running ≡ some (tt, s))
    × Handled wires_uart wires-Wired wires-Quiet blank_args digit_stack blank_args-HasRoom
        digit_stack-long 33 running s
irq_handler-Handled_example =
    irq_handler-Handled wires_uart wires-Wired wires-Quiet blank_args digit_stack blank_args-HasRoom
      digit_stack-long 33 running booted-IsMachine

-- A tick between the test and `hlt`, and a key that ends it.
abbrev two_rounds : List Round
two_rounds =
    record { missed = 32 ∷ []; wake = 33; late = [] }
    ∷ record { missed = []; wake = 32; late = 32 ∷ [] }
    ∷ []

timer_wait-EndsWell_example :
    EndsWell wires_uart wires-Wired wires-Quiet blank_args digit_stack blank_args-HasRoom
      digit_stack-long 7 9 two_rounds
      (timer_wait wires 1 blank_args digit_stack (33 ∷ []) two_rounds 2 running)
timer_wait-EndsWell_example =
    timer_wait-EndsWell wires_uart wires-Wired wires-Quiet blank_args digit_stack blank_args-HasRoom
      digit_stack-long (33 ∷ []) two_rounds 2 running booted-IsMachine (omega arith) (omega arith)
