-- ===== src/Serial/Tests.antt =====
-- A serial port that is busy for one read of its status after each byte.
use bin_os_c.Base.{
  ℕ, ◌<◌, ◌≡◌, refl, true, false, List, [], ◌∷◌, ◌++◌, arith, ◌==◌, if◌then◌else◌, Bool, Bool-cases,
  inl, inr,
}
use bin_os_c.Base.Int.{negsuc}
use bin_os_c.CString.{Buffer}
use bin_os_c.Terminal.{literal, codes}
use bin_os_c.Terminal.Laws.{literal-IsString}
use bin_os_c.Io.{Ports}
use bin_os_c.Serial.{Arg, int, port, serial_printf}
use bin_os_c.Serial.Line.{Uart, Sent, line, is_empty, polled}
use bin_os_c.Serial.Printf.{Renders, finish, plain, converts, decimal}
use bin_os_c.Serial.Sends.{serial_printf-Sent}
use bin_os_c.Serial.Text.{integer_text}

record Port : Type 0 where
  busy : Bool
  output : List ℕ

-- A read of the status says whether the register is empty, and it is at the next one.
abbrev slow : Ports Port
slow = record {
  inb = λ p d. (if d.busy then 0 else 0x20, record d { busy = false });
  outb = λ p c d. if p == port then record { busy = true; output = d.output ++ c ∷ [] } else d;
}

slow-answers : (d : Port) → (k : ℕ) × (k < 2) × (is_empty slow (polled slow k d) ≡ true)
slow-answers d = elim (Bool-cases d.busy) [
  | inl b ↦ (1, omega arith, refl)
  | inr b ↦ (0, omega arith, rw b refl)
]

abbrev slow_uart : Uart slow 2
slow_uart = record {
  Online = λ d. Unit {0};
  sent = λ d. d.output;
  answers = λ d online. slow-answers d;
  read_keeps = λ d online. (tt, refl);
  stays_empty = λ d empty. refl;
  write_sends = λ c d online empty. (tt, refl);
}

abbrev idle : Port
idle = record { busy = false; output = [] }

abbrev report : Buffer
report = literal (codes "a%d!")

abbrev stack_array : Buffer
stack_array = record { size = 32; at = λ i. 9 }

abbrev report_args : List Arg
report_args = int (negsuc 41) ∷ []

report-Renders :
    Renders report 0 report_args (b'a' ∷ (line (integer_text (negsuc 41)) ++ b'!' ∷ []))
unfolding literal
report-Renders =
    plain 0 report_args (line (integer_text (negsuc 41)) ++ b'!' ∷ []) (ground arith) (ground arith)
      (converts 1 report_args [] (line (integer_text (negsuc 41))) (b'!' ∷ []) refl
        (decimal (negsuc 41) [] (omega arith))
        (plain 3 [] [] (ground arith) (ground arith) (finish 4 [] refl)))

serial_printf-Sent_example :
    Sent slow_uart
      (b'a' ∷ (line (integer_text (negsuc 41)) ++ b'!' ∷ []))
      idle
      tt
      (serial_printf slow 2 report report_args stack_array idle)
serial_printf-Sent_example =
    serial_printf-Sent slow_uart report 4 report_args
      (b'a' ∷ (line (integer_text (negsuc 41)) ++ b'!' ∷ [])) stack_array idle
      (literal-IsString (codes "a%d!") refl) report-Renders (omega arith) tt
