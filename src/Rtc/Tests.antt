-- ===== src/Rtc/Tests.antt =====
-- A time in the evening.
use bin_os_c.Base.{
  ℕ, ◌+◌, ◌*◌, ◌%◌, ◌^◌, ◌<◌, ◌≡◌, refl, true, false, arith, some, List, [], ◌∷◌, ◌++◌, ◌==◌, leb,
  inl, inr, Bool-cases, if◌then◌else◌,
}
use bin_os_c.Io.{Ports}
use bin_os_c.Serial.{port}
use bin_os_c.Serial.Line.{Uart}
use bin_os_c.Rtc.Clock.{rtc_data, rtc_index, get_time_string}
use bin_os_c.Rtc.Stable.{Clock, polled, is_idle}
use bin_os_c.Rtc.Time.{OneMoment, get_time_string-OneMoment}
use bin_os_c.Rtc.{Reading, to_24_hours, convert, get_rtc_time_12hour}
use bin_os_c.Rtc.Laws.{
  IsTime, encoded, hour_of, two_digits, convert-encoded, time_12hour-reads_back,
}

abbrev evening : Reading
evening = record {
  second = 7;
  minute = 59;
  hour = 21;
  day = 31;
  month = 12;
  year = 25;
  century = 20;
}

evening-IsTime : IsTime evening
evening-IsTime = record {
  second_fits = omega arith;
  minute_fits = omega arith;
  hour_fits = omega arith;
  day_fits = omega arith;
  month_fits = omega arith;
  year_fits = omega arith;
  century_fits = omega arith;
}

-- Noon on a clock of twelve hours is taken for midnight.
noon : (to_24_hours 0 (record evening { hour = 0x8c })).hour ≡ 0
unfolding to_24_hours
noon = refl

convert-encoded_example :
    convert 0x2 (encoded evening) ≡ record evening { year = (25 + 20 * 100) % 2 ^ 8 }
convert-encoded_example = convert-encoded evening evening-IsTime (omega arith)

time_12hour-reads_back_example :
    let t = get_rtc_time_12hour evening in
    (hour_of t ≡ 21) × (two_digits t 3 ≡ 59) × (two_digits t 6 ≡ 7)
time_12hour-reads_back_example = time_12hour-reads_back evening evening-IsTime

-- A clock in the binary mode of 24 hours that goes from 21:59:59 to 22:00:00 at the third read, and
-- is busy at the first one; and a serial port that is never busy.
record Board : Type 0 where
  index : ℕ
  count : ℕ
  output : List ℕ

abbrev first_value : ℕ → ℕ
first_value reg =
    if reg == 0x04 then 21 else if reg == 0x8b then 0x6 else if reg == 0x8a then 0x26 else 59

abbrev second_value : ℕ → ℕ
second_value reg =
    if reg == 0x04 then 22 else if reg == 0x8b then 0x6 else if reg == 0x8a then 0x26 else 0

abbrev board_value : ℕ → ℕ → ℕ
board_value count reg =
    if reg == 0x8a
    then (if count == 0 then 0xa6 else 0x26)
    else if leb 2 count
    then second_value reg
    else first_value reg

abbrev board : Ports Board
board = record {
  inb = λ p d.
      if p == rtc_data
      then (board_value d.count d.index, record d { count = d.count + 1 })
      else (0x20, d);
  outb = λ p c d.
      if p == port
      then record d { output = d.output ++ c ∷ [] }
      else if p == rtc_index
      then record d { index = c }
      else d;
}

abbrev board_uart : Uart board 2
board_uart = record {
  Online = λ d. Unit {0};
  sent = λ d. d.output;
  answers = λ d online. (0, omega arith, refl);
  read_keeps = λ d online. (tt, refl);
  stays_empty = λ d empty. refl;
  write_sends = λ c d online empty. (tt, refl);
}

board-settles : (d : Board) → (k : ℕ) × (k < 2) × (is_idle board (polled board k d) ≡ true)
board-settles d = elim (Bool-cases (d.count == 0)) [
  | inl busy ↦
      (1, omega arith, let later : (d.count + 1 == 0) ≡ false = ground arith in rw later refl)
  | inr idle ↦ (0, omega arith, rw idle refl)
]

board-Clock : Clock board_uart
board-Clock = record {
  updated = λ d. leb 3 d.count;
  first = first_value;
  second = second_value;
  mode_stays = refl;
  keeps = λ reg d online. tt;
  stays_updated = λ reg d up. ground arith;
  reads = λ reg d online other.
      let no_a : (reg == 0x8a) ≡ false = ground arith in
      let e : leb 3 (d.count + 1) ≡ leb 2 d.count = ground arith in rw (no_a, e) refl;
  settles = λ d online. board-settles d;
}

abbrev quiet_board : Board
quiet_board = record { index = 0; count = 0; output = [] }

get_time_string-OneMoment_example :
    (r : Reading) × (d : Board) × OneMoment board_uart board-Clock r
    × Unit {0}
    × (get_time_string board 2 quiet_board ≡ some (get_rtc_time_12hour (convert 0x6 r), d))
unfolding board-Clock
get_time_string-OneMoment_example =
    get_time_string-OneMoment board_uart board-Clock quiet_board (omega arith) tt
