-- ===== src/Irq/Wait.antt =====
-- `timer_wait` of kernel/src/timing/timer.c, and the interrupts that come meanwhile.
use bin_os_c.Base.{
  ℕ, ◌+◌, ◌%◌, ◌^◌, ◌<◌, ◌≤◌, ◌≡◌, refl, false, Option, some, ltb, ◌==◌, if◌then◌else◌, arith, inl,
  inr, Bool-cases, List, [], ◌∷◌, subst, sym, ◌⊎◌,
}
use bin_os_c.CString.{Buffer}
use bin_os_c.Shell.Command.{Args}
use bin_os_c.Shell.Command.Args.{HasRoom}
use bin_os_c.Io.{Ports}
use bin_os_c.Serial.Line.{Uart}
use bin_os_c.Keyboard.Interrupts.{Wired}
use bin_os_c.Irq.{System, Round, irq_handler, handle_all, timer_wait_loop, timer_wait}
use bin_os_c.Irq.Handles.{Quiet, IsSystem, irq_handler-Handled}

-- How many of the interrupts are the timer's.
abbrev pub timer_count : List ℕ → ℕ
timer_count [] = 0
timer_count (irq ∷ irqs) = let n = timer_count irqs in if irq == 32 then n + 1 else n

-- The timer's interrupts in a round, and in all of them.
abbrev pub round_count : Round → ℕ
round_count r = timer_count r.missed + (if r.wake == 32 then 1 else 0) + timer_count r.late

abbrev pub total_count : List Round → ℕ
total_count [] = 0
total_count (r ∷ rs) = round_count r + total_count rs

-- A wait for `target` that finds the counter at `now`: rounds pass as long as it is below, and
-- `rest` and `ticks` are what is left and where the counter is then.
abbrev pub Waits : ℕ → ℕ → List Round → List Round → ℕ → Type 0
Waits now target [] rest ticks = (target ≤ now) × (rest ≡ []) × (ticks ≡ now)
Waits now target (r ∷ rs) rest ticks =
    (target ≤ now) × (rest ≡ r ∷ rs) × (ticks ≡ now)
    ⊎ (now < target) × Waits (now + round_count r) target rs rest ticks

Waits-le :
    (rs rest : List Round) (now target ticks : ℕ) → Waits now target rs rest ticks → target ≤ ticks
Waits-le [] rest now target ticks (le, e, e') = omega arith
Waits-le (r ∷ rs) rest now target ticks (inl (le, e, e')) = omega arith
Waits-le (r ∷ rs) rest now target ticks (inr (lt, w)) =
    Waits-le rs rest (now + round_count r) target ticks w

module _ {D : Type 0} {io : Ports D} {patience : ℕ} (u : Uart io patience) (wired : Wired u)
    (quiet : Quiet u) (args : Args) (stack : Buffer) (room : HasRoom args)
    (long : 11 < stack.size) where
  -- The step ends, with so many ticks.
  abbrev Ticks : ℕ → Option (Unit {0} × System D) → Type 0
  Ticks ticks o =
      (s : System D) × (o ≡ some (tt, s))
      × IsSystem u wired quiet args stack room long s
      × (s.timer_ticks ≡ ticks)

  irq-Ticks :
      (irq : ℕ) (s : System D)
      → IsSystem u wired quiet args stack room long s
      → s.timer_ticks + (if irq == 32 then 1 else 0) < 2 ^ 64
      → Ticks
          (s.timer_ticks + (if irq == 32 then 1 else 0))
          (irq_handler io patience args stack irq s)
  irq-Ticks irq s is small =
      let (s', run, h) = irq_handler-Handled u wired quiet args stack room long irq s is in
      (s', run, h.system, ground (arith, h.ticks))

  all-Ticks :
      (irqs : List ℕ) (s : System D)
      → IsSystem u wired quiet args stack room long s
      → s.timer_ticks + timer_count irqs < 2 ^ 64
      → Ticks (s.timer_ticks + timer_count irqs) (handle_all io patience args stack irqs s)
  unfolding handle_all
  all-Ticks [] s is small = (s, refl, is, omega arith)
  all-Ticks (irq ∷ irqs) s is small =
      let (s₁, run₁, is₁, e₁) = irq-Ticks irq s is (ground arith) in
      let (s₂, run₂, is₂, e₂) = all-Ticks irqs s₁ is₁ (ground arith) in
      (s₂, rw run₁ run₂, is₂, ground arith)

  -- The wait ends as the description says.
  abbrev pub EndsWell : ℕ → ℕ → List Round → Option (List Round × System D) → Type 0
  EndsWell now target rounds o =
      (rest : List Round) × (s : System D) × (o ≡ some (rest, s))
      × IsSystem u wired quiet args stack room long s
      × Waits now target rounds rest s.timer_ticks
      × (target ≤ s.timer_ticks)

  loop-EndsWell :
      (rounds : List Round) (s : System D) (target : ℕ)
      → IsSystem u wired quiet args stack room long s
      → target ≤ s.timer_ticks + total_count rounds
      → s.timer_ticks + total_count rounds < 2 ^ 64
      → EndsWell s.timer_ticks target rounds
          (timer_wait_loop io patience args stack rounds target s)
  unfolding timer_wait_loop
  loop-EndsWell [] s target is come small =
      let over : ltb s.timer_ticks target ≡ false = ground arith in
      ([], s, rw over refl, is, (omega arith, refl, refl), omega arith)
  loop-EndsWell (r ∷ rs) s target is come small = elim (Bool-cases (ltb s.timer_ticks target)) [
    | inr over ↦ (r ∷ rs, s, rw over refl, is, inl (ground arith, refl, refl), ground arith)
    | inl waits ↦
        let (s₁, run₁, is₁, e₁) = all-Ticks r.missed s is (omega arith) in
        let (s₂, run₂, is₂, e₂) = irq-Ticks r.wake s₁ is₁ (omega arith) in
        let (s₃, run₃, is₃, e₃) = all-Ticks r.late s₂ is₂ (omega arith) in
        let e : s₃.timer_ticks ≡ s.timer_ticks + round_count r = omega arith in
        let (rest, s₄, run₄, is₄, w, le) =
          loop-EndsWell rs s₃ target is₃ (omega arith) (omega arith) in
        (
          rest,
          s₄,
          rw (waits, run₁, run₂, run₃) run₄,
          is₄,
          inr (ground arith, subst (λ n. Waits n target rs rest s₄.timer_ticks) e w),
          le,
        )
  ]

  -- The wait for a target that is given, behind interrupts that come before its first test.
  behind-EndsWell :
      (early : List ℕ) (rounds : List Round) (ticks target : ℕ) (s : System D)
      → IsSystem u wired quiet args stack room long s
      → (s.timer_ticks + ticks) % 2 ^ 64 ≡ target
      → target ≤ s.timer_ticks + timer_count early + total_count rounds
      → s.timer_ticks + timer_count early + total_count rounds < 2 ^ 64
      → EndsWell
          (s.timer_ticks + timer_count early)
          target
          rounds
          (timer_wait io patience args stack early rounds ticks s)
  unfolding timer_wait
  behind-EndsWell early rounds ticks target s is same come small =
      let (s₁, run₁, is₁, e₁) = all-Ticks early s is (omega arith) in
      let (rest, s₂, run₂, is₂, w, le) =
        loop-EndsWell rounds s₁ target is₁ (omega arith) (omega arith) in
      (
        rest,
        s₂,
        rw run₁ (
            subst (λ end. timer_wait_loop io patience args stack rounds end s₁ ≡ some (rest, s₂))
              (sym same) run₂),
        is₂,
        subst (λ n. Waits n target rounds rest s₂.timer_ticks) e₁ w,
        le,
      )

  -- For a serial port that answers its polls and sends what is written, keyboard ports whose
  -- reads leave it alone and give bytes, stack arrays of the sizes the code gives them, and a
  -- machine whose shell is well formed, writes to the interrupt controllers that leave the serial
  -- port alone, and interrupts that may come between the read of the counter and the first test,
  -- and in each round between the test and `hlt`, to end `hlt`, and before the next test: if the
  -- timer's among all of them are at least the ticks asked for and the counter stays below 2^64,
  -- `timer_wait` ends, with the counter at its start plus those ticks or above, after exactly the
  -- rounds whose tests find it below.
  pub timer_wait-EndsWell :
      (early : List ℕ) (rounds : List Round) (ticks : ℕ) (s : System D)
      → IsSystem u wired quiet args stack room long s
      → ticks ≤ timer_count early + total_count rounds
      → s.timer_ticks + timer_count early + total_count rounds < 2 ^ 64
      → EndsWell
          (s.timer_ticks + timer_count early)
          (s.timer_ticks + ticks)
          rounds
          (timer_wait io patience args stack early rounds ticks s)
  timer_wait-EndsWell early rounds ticks s is come small =
      behind-EndsWell early rounds ticks (s.timer_ticks + ticks) s is (omega arith) (omega arith)
        small
