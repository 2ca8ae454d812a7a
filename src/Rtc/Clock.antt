-- ===== src/Rtc/Clock.antt =====
-- kernel/src/timing/rtc/rtc.c: the registers of the clock, and the loop that reads the time.
use bin_os_c.Base.{ℕ, zero, suc, bit_and, Bool, ◌&&◌, ◌==◌, if◌then◌else◌, List}
use bin_os_c.Terminal.{literal, codes}
use bin_os_c.Io.{Ports, M, pure, fault, ◌>>=◌, ◌>>◌, inb, outb}
use bin_os_c.Serial.{write_serial}
use bin_os_c.Rtc.{Reading, convert, get_rtc_time_12hour}

abbrev pub rtc_index : ℕ
rtc_index = 0x70

abbrev pub rtc_data : ℕ
rtc_data = 0x71

abbrev pub rtc_reg_a : ℕ
rtc_reg_a = 0x8a

abbrev pub rtc_reg_b : ℕ
rtc_reg_b = 0x8b

-- The comparison at the end of a round.
abbrev pub agrees : Reading → Reading → Bool
agrees last r =
    last.second == r.second
    && last.minute == r.minute
    && last.hour == r.hour
    && last.day == r.day
    && last.month == r.month
    && last.year == r.year
    && last.century == r.century

module _ {D : Type 0} (io : Ports D) where
  unfoldable pub read_rtc_register : ℕ → M D ℕ
  read_rtc_register reg = do outb io rtc_index reg; inb io rtc_data

  unfoldable pub write_rtc_register : ℕ → ℕ → M D (Unit {0})
  write_rtc_register reg value = do outb io rtc_index reg; outb io rtc_data value

  unfoldable pub rtc_is_updating : M D ℕ
  rtc_is_updating = do outb io rtc_index rtc_reg_a; a ← inb io rtc_data; pure (bit_and a 0x80)

  -- `while (rtc_is_updating());`
  unfoldable pub wait_for_rtc_update : ℕ → M D (Unit {0})
  wait_for_rtc_update zero = fault
  wait_for_rtc_update (suc k) = do
    updating ← rtc_is_updating
    if updating == 0 then pure tt else wait_for_rtc_update k

  -- The seven reads of a round, in their order.
  unfoldable pub read_registers : M D Reading
  read_registers = do
    second ← read_rtc_register 0x00
    minute ← read_rtc_register 0x02
    hour ← read_rtc_register 0x04
    day ← read_rtc_register 0x07
    month ← read_rtc_register 0x08
    year ← read_rtc_register 0x09
    century ← read_rtc_register 0x32
    pure (record {
      second = second;
      minute = minute;
      hour = hour;
      day = day;
      month = month;
      year = year;
      century = century;
    })

  -- The `do` loop, until two readings agree.
  unfoldable pub read_loop : ℕ → ℕ → M D Reading
  read_loop zero patience = fault
  read_loop (suc k) patience = do
    last ← read_registers
    wait_for_rtc_update patience
    r ← read_registers
    if agrees last r then pure r else read_loop k patience

  unfoldable pub read_rtc_time : ℕ → M D Reading
  read_rtc_time patience = do
    write_serial io patience (literal (codes "read_rtc_time"))
    wait_for_rtc_update patience
    r ← read_loop patience patience
    register_b ← read_rtc_register rtc_reg_b
    pure (convert register_b r)

  unfoldable pub get_time_string : ℕ → M D (List ℕ)
  get_time_string patience = do r ← read_rtc_time patience; pure (get_rtc_time_12hour r)
