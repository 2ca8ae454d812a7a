-- ===== src/Rtc/Time.antt =====
-- The time that kernel/src/timing/rtc/rtc.c reads from a clock that may update meanwhile.
use bin_os_c.Base.{
  ℕ, zero, suc, ◌<◌, ◌≡◌, ◌⊎◌, refl, sym, ◌∙◌, true, false, Option, some, arith, Bool-cases, inl,
  inr,
}
use bin_os_c.Terminal.{literal, codes}
use bin_os_c.Terminal.Laws.{literal-IsString}
use bin_os_c.Io.{Ports}
use bin_os_c.Serial.Line.{Uart, write_serial-Sent}
use bin_os_c.Rtc.{Reading, convert, get_rtc_time_12hour}
use bin_os_c.Rtc.Clock.{rtc_reg_b, agrees, read_loop, read_rtc_time, get_time_string}
use bin_os_c.Rtc.Stable.{Clock, snapshot, round_second, round_any, poll-Ends, mode-Reads}

agrees_self : (r : Reading) → agrees r r ≡ true
agrees_self r = ground arith

agrees-eq : (a b : Reading) → agrees a b ≡ true → a ≡ b
agrees-eq a b h =
    let second : a.second ≡ b.second = ground arith in
    let minute : a.minute ≡ b.minute = ground arith in
    let hour : a.hour ≡ b.hour = ground arith in
    let day : a.day ≡ b.day = ground arith in
    let month : a.month ≡ b.month = ground arith in
    let year : a.year ≡ b.year = ground arith in
    let century : a.century ≡ b.century = ground arith in
    λ i. record {
      second = second i;
      minute = minute i;
      hour = hour i;
      day = day i;
      month = month i;
      year = year i;
      century = century i;
    }

module _ {D : Type 0} {io : Ports D} {patience : ℕ} (u : Uart io patience) (clock : Clock u) where
  -- The registers of before or of after the update.
  abbrev pub OneMoment : Reading → Type 0
  OneMoment r = (r ≡ snapshot clock.first) ⊎ (r ≡ snapshot clock.second)

  -- The step gives such a reading.
  abbrev Reads : Option (Reading × D) → Type 0
  Reads o = (r : Reading) × (d : D) × (o ≡ some (r, d)) × u.Online d × OneMoment r

  loop_second :
      (k : ℕ) (d : D)
      → u.Online d
      → clock.updated d ≡ true
      → Reads (read_loop io (suc k) patience d)
  unfolding read_loop
  loop_second k d online up =
      let (d₁, run₁, on₁, up₁) = round_second u clock d online up in
      let (d₂, run₂, on₂, keeps) = poll-Ends u clock d₁ on₁ in
      let (d₃, run₃, on₃, up₃) = round_second u clock d₂ on₂ (keeps up₁) in
      (
        snapshot clock.second,
        d₃,
        rw (run₁, run₂, run₃, agrees_self (snapshot clock.second)) refl,
        on₃,
        inr refl,
      )

  loop-Reads : (k : ℕ) (d : D) → u.Online d → Reads (read_loop io (suc (suc k)) patience d)
  unfolding read_loop
  loop-Reads k d online =
      let (last, d₁, run₁, on₁, old₁) = round_any u clock d online in
      let (d₂, run₂, on₂, keeps) = poll-Ends u clock d₁ on₁ in
      elim (Bool-cases (clock.updated d₂)) [
        | inl up ↦
            let (d₃, run₃, on₃, up₃) = round_second u clock d₂ on₂ up in
            elim (Bool-cases (agrees last (snapshot clock.second))) [
              | inl same ↦
                  (snapshot clock.second, d₃, rw (run₁, run₂, run₃, same) refl, on₃, inr refl)
              | inr torn ↦ rw (run₁, run₂, run₃, torn) (loop_second k d₃ on₃ up₃)
            ]
        | inr down ↦
            let e : last ≡ snapshot clock.first = old₁ (not_before d₁ d₂ keeps down) in
            let (r, d₃, run₃, on₃, old₃) = round_any u clock d₂ on₂ in
            elim (Bool-cases (agrees last r)) [
              | inl same ↦ (
                r,
                d₃,
                rw (run₁, run₂, run₃, same) refl,
                on₃,
                inl (sym (agrees-eq last r same) ∙ e),
              )
              | inr torn ↦
                  rw (run₁, run₂, run₃, torn) (loop_second k d₃ on₃ (changed last r d₃ e old₃ torn))
            ]
      ]
    where
      not_before :
          (d₁ d₂ : D)
          → (clock.updated d₁ ≡ true → clock.updated d₂ ≡ true)
          → clock.updated d₂ ≡ false
          → clock.updated d₁ ≡ false
      not_before d₁ d₂ keeps down = elim (Bool-cases (clock.updated d₁)) [
        | inl up ↦ absurd (let up' = keeps up in ground arith)
        | inr down' ↦ down'
      ]

      changed :
          (last r : Reading) (d : D)
          → last ≡ snapshot clock.first
          → (clock.updated d ≡ false → r ≡ snapshot clock.first)
          → agrees last r ≡ false
          → clock.updated d ≡ true
      changed last r d e old torn = elim (Bool-cases (clock.updated d)) [
        | inl up ↦ up
        | inr down ↦ absurd (
            let same : agrees last r ≡ true =
              rw (e, old down) (agrees_self (snapshot clock.first)) in
            ground arith)
      ]

  rounds-Reads : (k : ℕ) (d : D) → 1 < k → u.Online d → Reads (read_loop io k patience d)
  rounds-Reads zero d enough online = absurd (omega arith)
  rounds-Reads (suc zero) d enough online = absurd (omega arith)
  rounds-Reads (suc (suc k)) d enough online = loop-Reads k d online

  -- For a serial port that answers its polls and sends what is written, and a clock whose
  -- registers change at most once while they are read, at any of the reads, whose mode stays, and
  -- whose bit for an update in progress is off after fewer polls than the patience, which is at
  -- least 2: reading the time ends and gives the text of the converted registers of one moment,
  -- before or after the change, never a mixture.
  pub get_time_string-OneMoment :
      (d : D)
      → 1 < patience
      → u.Online d
      → (r : Reading) × (d' : D) × OneMoment r
        × u.Online d'
        × (get_time_string io patience d
            ≡ some (get_rtc_time_12hour (convert (clock.first rtc_reg_b) r), d'))
  unfolding get_time_string read_rtc_time
  get_time_string-OneMoment d enough online =
      let is = literal-IsString (codes "read_rtc_time") refl in
      let (d₁, run₁, on₁, sent) =
        write_serial-Sent u (literal (codes "read_rtc_time")) 13 d is online in
      let (d₂, run₂, on₂, keeps) = poll-Ends u clock d₁ on₁ in
      let (r, d₃, run₃, on₃, moment) = rounds-Reads patience d₂ enough on₂ in
      let (d₄, run₄, on₄) = mode-Reads u clock d₃ on₃ in
      (r, d₄, moment, on₄, rw (run₁, run₂, run₃, run₄) refl)
