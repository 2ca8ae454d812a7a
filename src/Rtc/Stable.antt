-- ===== src/Rtc/Stable.antt =====
-- Readings of kernel/src/timing/rtc/rtc.c while the clock updates.
use bin_os_c.Base.{
  ℕ, zero, suc, ◌<◌, ◌≢◌, ◌≡◌, refl, sym, ◌∙◌, bit_and, Bool, true, false, some, ◌==◌,
  if◌then◌else◌, arith, Bool-cases, inl, inr,
}
use bin_os_c.Io.{Ports}
use bin_os_c.Serial.Line.{Uart}
use bin_os_c.Rtc.{Reading}
use bin_os_c.Rtc.Clock.{
  rtc_index, rtc_data, rtc_reg_a, rtc_reg_b, read_rtc_register, wait_for_rtc_update,
  rtc_is_updating, read_registers,
}

-- A read of a register: the index, then the data.
abbrev pub register_read : {D : Type 0} → Ports D → ℕ → D → ℕ × D
register_read io reg d = io.inb rtc_data (io.outb rtc_index reg d)

-- The device after `k` reads of register A.
abbrev pub polled : {D : Type 0} → Ports D → ℕ → D → D
polled io zero d = d
polled io (suc k) d = polled io k (register_read io rtc_reg_a d).1

-- Register A says that no update is going on.
abbrev pub is_idle : {D : Type 0} → Ports D → D → Bool
is_idle io d = bit_and (register_read io rtc_reg_a d).0 0x80 == 0

-- A clock whose registers change from `first` to `second` at one moment at most, which may be any
-- read: a read gives the value of before or of after it. The mode in register B stays, and the bit
-- of register A that announces an update is off after less than `patience` reads.
pub record Clock {D : Type 0} {io : Ports D} {patience : ℕ} (u : Uart io patience) : Type 0 where
  pub updated : D → Bool
  pub first : ℕ → ℕ
  pub second : ℕ → ℕ
  pub mode_stays : first rtc_reg_b ≡ second rtc_reg_b
  pub keeps : (reg : ℕ) (d : D) → u.Online d → u.Online (register_read io reg d).1
  pub stays_updated :
      (reg : ℕ) (d : D) → updated d ≡ true → updated (register_read io reg d).1 ≡ true
  pub reads :
      (reg : ℕ) (d : D)
      → u.Online d
      → reg ≢ rtc_reg_a
      → (register_read io reg d).0
        ≡ (if updated (register_read io reg d).1 then second reg else first reg)
  pub settles :
      (d : D) → u.Online d → (k : ℕ) × (k < patience) × (is_idle io (polled io k d) ≡ true)

-- The seven registers at one moment.
abbrev pub snapshot : (ℕ → ℕ) → Reading
snapshot value = record {
  second = value 0x00;
  minute = value 0x02;
  hour = value 0x04;
  day = value 0x07;
  month = value 0x08;
  year = value 0x09;
  century = value 0x32;
}

module _ {D : Type 0} {io : Ports D} {patience : ℕ} (u : Uart io patience) (clock : Clock u) where
  -- A read after the update, and any read.
  register_second :
      (reg : ℕ) (d : D)
      → reg ≢ rtc_reg_a
      → u.Online d
      → clock.updated d ≡ true
      → (d' : D) × (read_rtc_register io reg d ≡ some (clock.second reg, d'))
        × u.Online d'
        × (clock.updated d' ≡ true)
  unfolding read_rtc_register
  register_second reg d other online up =
      let d' = (register_read io reg d).1 in
      let up' = clock.stays_updated reg d up in
      let e : (register_read io reg d).0 ≡ clock.second reg =
        clock.reads reg d online other ∙ rw up' refl in
      (d', rw e refl, clock.keeps reg d online, up')

  -- Without the update behind a step there is none in front of it.
  not_updated :
      (reg : ℕ) (d : D) → clock.updated (register_read io reg d).1 ≡ false → clock.updated d ≡ false
  not_updated reg d down = elim (Bool-cases (clock.updated d)) [
    | inl up ↦ absurd (let up' = clock.stays_updated reg d up in ground arith)
    | inr down' ↦ down'
  ]

  register_any :
      (reg : ℕ) (d : D)
      → reg ≢ rtc_reg_a
      → u.Online d
      → (v : ℕ) × (d' : D) × (read_rtc_register io reg d ≡ some (v, d'))
        × u.Online d'
        × (clock.updated d' ≡ false → (clock.updated d ≡ false) × (v ≡ clock.first reg))
  unfolding read_rtc_register
  register_any reg d other online = (
    (register_read io reg d).0,
    (register_read io reg d).1,
    refl,
    clock.keeps reg d online,
    λ down. (not_updated reg d down, clock.reads reg d online other ∙ rw down refl),
  )

  -- A round of seven reads after the update, and any round.
  pub round_second :
      (d : D)
      → u.Online d
      → clock.updated d ≡ true
      → (d' : D) × (read_registers io d ≡ some (snapshot clock.second, d'))
        × u.Online d'
        × (clock.updated d' ≡ true)
  unfolding read_registers
  round_second d online up =
      let (d₁, run₁, on₁, up₁) = register_second 0x00 d (ground arith) online up in
      let (d₂, run₂, on₂, up₂) = register_second 0x02 d₁ (ground arith) on₁ up₁ in
      let (d₃, run₃, on₃, up₃) = register_second 0x04 d₂ (ground arith) on₂ up₂ in
      let (d₄, run₄, on₄, up₄) = register_second 0x07 d₃ (ground arith) on₃ up₃ in
      let (d₅, run₅, on₅, up₅) = register_second 0x08 d₄ (ground arith) on₄ up₄ in
      let (d₆, run₆, on₆, up₆) = register_second 0x09 d₅ (ground arith) on₅ up₅ in
      let (d₇, run₇, on₇, up₇) = register_second 0x32 d₆ (ground arith) on₆ up₆ in
      (d₇, rw (run₁, run₂, run₃, run₄, run₅, run₆, run₇) refl, on₇, up₇)

  pub round_any :
      (d : D)
      → u.Online d
      → (r : Reading) × (d' : D) × (read_registers io d ≡ some (r, d'))
        × u.Online d'
        × (clock.updated d' ≡ false → r ≡ snapshot clock.first)
  unfolding read_registers
  round_any d online =
      let (v₁, d₁, run₁, on₁, f₁) = register_any 0x00 d (ground arith) online in
      let (v₂, d₂, run₂, on₂, f₂) = register_any 0x02 d₁ (ground arith) on₁ in
      let (v₃, d₃, run₃, on₃, f₃) = register_any 0x04 d₂ (ground arith) on₂ in
      let (v₄, d₄, run₄, on₄, f₄) = register_any 0x07 d₃ (ground arith) on₃ in
      let (v₅, d₅, run₅, on₅, f₅) = register_any 0x08 d₄ (ground arith) on₄ in
      let (v₆, d₆, run₆, on₆, f₆) = register_any 0x09 d₅ (ground arith) on₅ in
      let (v₇, d₇, run₇, on₇, f₇) = register_any 0x32 d₆ (ground arith) on₆ in
      (
        record {
          second = v₁;
          minute = v₂;
          hour = v₃;
          day = v₄;
          month = v₅;
          year = v₆;
          century = v₇;
        },
        d₇,
        rw (run₁, run₂, run₃, run₄, run₅, run₆, run₇) refl,
        on₇,
        λ down₇.
            let (down₆, e₇) = f₇ down₇ in
            let (down₅, e₆) = f₆ down₆ in
            let (down₄, e₅) = f₅ down₅ in
            let (down₃, e₄) = f₄ down₄ in
            let (down₂, e₃) = f₃ down₃ in
            let (down₁, e₂) = f₂ down₂ in
            let (down₀, e₁) = f₁ down₁ in rw (e₁, e₂, e₃, e₄, e₅, e₆, e₇) refl,
      )

  -- The wait for the end of an update.
  wait-Ends :
      (k fuel : ℕ) (d : D)
      → k < fuel
      → u.Online d
      → is_idle io (polled io k d) ≡ true
      → (d' : D) × (wait_for_rtc_update io fuel d ≡ some (tt, d'))
        × u.Online d'
        × (clock.updated d ≡ true → clock.updated d' ≡ true)
  unfolding wait_for_rtc_update rtc_is_updating
  wait-Ends k zero d lt online idle = absurd (omega arith)
  wait-Ends zero (suc fuel) d lt online idle = (
    (register_read io rtc_reg_a d).1,
    rw idle refl,
    clock.keeps rtc_reg_a d online,
    clock.stays_updated rtc_reg_a d,
  )
  wait-Ends (suc k) (suc fuel) d lt online idle = elim (Bool-cases (is_idle io d)) [
    | inl now ↦ (
      (register_read io rtc_reg_a d).1,
      rw now refl,
      clock.keeps rtc_reg_a d online,
      clock.stays_updated rtc_reg_a d,
    )
    | inr busy ↦
        let d₁ = (register_read io rtc_reg_a d).1 in
        let (d', run, on', keeps) =
          wait-Ends k fuel d₁ (omega arith) (clock.keeps rtc_reg_a d online) idle in
        (d', rw busy run, on', λ up. keeps (clock.stays_updated rtc_reg_a d up))
  ]

  pub poll-Ends :
      (d : D)
      → u.Online d
      → (d' : D) × (wait_for_rtc_update io patience d ≡ some (tt, d'))
        × u.Online d'
        × (clock.updated d ≡ true → clock.updated d' ≡ true)
  poll-Ends d online =
      let (k, lt, idle) = clock.settles d online in wait-Ends k patience d lt online idle

  -- Register B, before the update or after it.
  pub mode-Reads :
      (d : D)
      → u.Online d
      → (d' : D) × (read_rtc_register io rtc_reg_b d ≡ some (clock.first rtc_reg_b, d'))
        × u.Online d'
  unfolding read_rtc_register
  mode-Reads d online =
      let d' = (register_read io rtc_reg_b d).1 in
      let e = clock.reads rtc_reg_b d online (ground arith) in
      elim (Bool-cases (clock.updated d')) [
        | inl up ↦ (d', rw (e, up, sym clock.mode_stays) refl, clock.keeps rtc_reg_b d online)
        | inr down ↦ (d', rw (e, down) refl, clock.keeps rtc_reg_b d online)
      ]
