-- ===== src/Rtc.antt =====
-- kernel/src/timing/rtc/rtc.c: what becomes of a reading of the clock's registers.
pub mod Clock
pub mod Laws
pub mod Stable
pub mod Time
mod Tests
use bin_os_c.Base.{
  ℕ, ◌+◌, ◌-◌, ◌*◌, ◌/◌, ◌%◌, ◌^◌, bit_and, bit_or, Bool, true, false, ◌&&◌, not, List, [], ◌∷◌,
  ltb, ◌==◌, if◌then◌else◌,
}

-- The values of the registers, and `century` beside them; each is a byte.
pub record Reading : Type 0 where
  pub second : ℕ
  pub minute : ℕ
  pub hour : ℕ
  pub day : ℕ
  pub month : ℕ
  pub year : ℕ
  pub century : ℕ

unfoldable pub bcd_to_binary : ℕ → ℕ
bcd_to_binary bcd = (bit_and bcd 0xf0 / 2 + bit_and bcd 0xf0 / 2 ^ 3 + bit_and bcd 0x0f) % 2 ^ 8

-- `registerB & 0x04` says that the registers are binary.
unfoldable pub from_bcd : ℕ → Reading → Reading
from_bcd register_b r =
    if bit_and register_b 0x4 == 0
    then record {
      second = bcd_to_binary r.second;
      minute = bcd_to_binary r.minute;
      hour = bit_or (bcd_to_binary (bit_and r.hour 0x7f)) (bit_and r.hour 0x80);
      day = bcd_to_binary r.day;
      month = bcd_to_binary r.month;
      year = bcd_to_binary r.year;
      century = bcd_to_binary r.century;
    }
    else r

-- `registerB & 0x02` says that hours go up to 24.
unfoldable pub to_24_hours : ℕ → Reading → Reading
to_24_hours register_b r =
    if (bit_and register_b 0x2 == 0) && not (bit_and r.hour 0x80 == 0)
    then record r { hour = (bit_and r.hour 0x7f + 12) % 24 }
    else r

unfoldable pub with_century : Reading → Reading
with_century r =
    let century = (if r.century == 0 then 20 else r.century) in
    record r { century = century; year = (r.year + century * 100) % 2 ^ 8 }

-- The end of `read_rtc_time`, when two readings agree.
unfoldable pub convert : ℕ → Reading → Reading
convert register_b r = with_century (to_24_hours register_b (from_bcd register_b r))

unfoldable pub hour_12 : ℕ → ℕ
hour_12 hour =
    if hour == 0 then 12 else if ltb hour 12 then hour else if hour == 12 then 12 else hour - 12

-- The first letter of AM and PM.
unfoldable pub am_pm : ℕ → ℕ
am_pm hour = if hour == 0 then b'A' else if ltb hour 12 then b'A' else b'P'

abbrev tens : ℕ → ℕ
tens n = n / 10 + b'0'

abbrev ones : ℕ → ℕ
ones n = n % 10 + b'0'

unfoldable pub get_rtc_time_12hour : Reading → List ℕ
get_rtc_time_12hour r =
    tens (hour_12 r.hour)
    ∷ ones (hour_12 r.hour)
    ∷ b':'
    ∷ tens r.minute
    ∷ ones r.minute
    ∷ b':'
    ∷ tens r.second
    ∷ ones r.second
    ∷ b' '
    ∷ am_pm r.hour
    ∷ b'M'
    ∷ 0
    ∷ []
