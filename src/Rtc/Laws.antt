-- ===== src/Rtc/Laws.antt =====
-- Decimal digits and the twelve-hour clock of kernel/src/timing/rtc/rtc.c.
use bin_os_c.Base.{
  ℕ, ◌+◌, ◌-◌, ◌*◌, ◌/◌, ◌%◌, ◌^◌, ◌<◌, ◌≡◌, refl, ◌∙◌, ap, bit_and, bit_or, false, List, get_or,
  ◌==◌, if◌then◌else◌, arith, all_below, all_below-lt, eq_of_==,
}
use bin_os_c.Rtc.{
  Reading, bcd_to_binary, from_bcd, to_24_hours, with_century, convert, hour_12, am_pm,
  get_rtc_time_12hour,
}

-- A number below 100 in a byte, a digit in each half.
abbrev pub bcd : ℕ → ℕ
bcd n = n / 10 * 16 + n % 10

bcd_round_trip : (n : ℕ) → n < 100 → bcd_to_binary (bcd n) ≡ n
unfolding bcd_to_binary all_below
bcd_round_trip n lt =
    eq_of_== (bcd_to_binary (bcd n)) n
      (all_below-lt 100 (λ m. bcd_to_binary (bcd m) == m) n refl lt)

hour_round_trip :
    (h : ℕ) → h < 24 → bit_or (bcd_to_binary (bit_and (bcd h) 0x7f)) (bit_and (bcd h) 0x80) ≡ h
unfolding bcd_to_binary all_below
hour_round_trip h lt =
    eq_of_== (bit_or (bcd_to_binary (bit_and (bcd h) 0x7f)) (bit_and (bcd h) 0x80)) h (
      all_below-lt 24
        (λ m. bit_or (bcd_to_binary (bit_and (bcd m) 0x7f)) (bit_and (bcd m) 0x80) == m) h refl lt)

-- The clock's registers in the mode with digits and 24 hours.
abbrev pub encoded : Reading → Reading
encoded r = record {
  second = bcd r.second;
  minute = bcd r.minute;
  hour = bcd r.hour;
  day = bcd r.day;
  month = bcd r.month;
  year = bcd r.year;
  century = bcd r.century;
}

-- A time and a date.
pub record IsTime (r : Reading) : Type 0 where
  pub second_fits : r.second < 60
  pub minute_fits : r.minute < 60
  pub hour_fits : r.hour < 24
  pub day_fits : r.day < 32
  pub month_fits : r.month < 13
  pub year_fits : r.year < 100
  pub century_fits : r.century < 100

-- For a time and date with a century above 0, in the clock's mode with decimal digits and 24
-- hours: the conversion at the end of `read_rtc_time` gives back every field, save that the year
-- with its century is cut to 8 bits.
pub convert-encoded :
    (r : Reading)
    → IsTime r
    → 0 < r.century
    → convert 0x2 (encoded r) ≡ record r { year = (r.year + r.century * 100) % 2 ^ 8 }
unfolding convert from_bcd to_24_hours with_century
convert-encoded r is pos =
    let some_century : (r.century == 0) ≡ false = ground arith in
    rw (
      bcd_round_trip r.second (omega (arith, is.second_fits)),
      bcd_round_trip r.minute (omega (arith, is.minute_fits)),
      hour_round_trip r.hour is.hour_fits,
      bcd_round_trip r.day (omega (arith, is.day_fits)),
      bcd_round_trip r.month (omega (arith, is.month_fits)),
      bcd_round_trip r.year is.year_fits,
      bcd_round_trip r.century is.century_fits,
      some_century,
    )

-- What a reader takes from the text.
abbrev pub two_digits : List ℕ → ℕ → ℕ
two_digits t i = (get_or t i 0 - b'0') * 10 + (get_or t (i + 1) 0 - b'0')

abbrev pub hour_of : List ℕ → ℕ
hour_of t = two_digits t 0 % 12 + (if get_or t 9 0 == b'P' then 12 else 0)

hour_12-hour :
    (h : ℕ)
    → h < 24
    → (hour_12 h / 10 * 10 + hour_12 h % 10) % 12 + (if am_pm h == b'P' then 12 else 0) ≡ h
unfolding hour_12 am_pm all_below
hour_12-hour h lt =
    eq_of_== ((hour_12 h / 10 * 10 + hour_12 h % 10) % 12 + (if am_pm h == b'P' then 12 else 0)) h (
      all_below-lt 24
        (λ m.
          (hour_12 m / 10 * 10 + hour_12 m % 10) % 12 + (if am_pm m == b'P' then 12 else 0) == m)
        h refl lt)

digits : (n : ℕ) → (n / 10 + b'0' - b'0') * 10 + (n % 10 + b'0' - b'0') ≡ n / 10 * 10 + n % 10
digits n = omega arith

-- For a time: the hour, the minute and the second can be read back from the text of
-- `get_rtc_time_12hour`.
pub time_12hour-reads_back :
    (r : Reading)
    → IsTime r
    → let t = get_rtc_time_12hour r in
      (hour_of t ≡ r.hour) × (two_digits t 3 ≡ r.minute) × (two_digits t 6 ≡ r.second)
unfolding get_rtc_time_12hour
time_12hour-reads_back r is = (
  ap (λ (n : ℕ). n % 12 + (if am_pm r.hour == b'P' then 12 else 0)) (digits (hour_12 r.hour))
      ∙ hour_12-hour r.hour is.hour_fits,
  omega arith,
  omega arith,
)
