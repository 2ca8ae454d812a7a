-- ===== src/Pic/Masks.antt =====
-- The masks of kernel/src/cpu/pic/pic.c: each call changes one line.
use bin_os_c.Base.{
  ℕ, ◌%◌, ◌^◌, ◌<◌, ◌≡◌, ◌⊎◌, refl, bit_and, bit_or, Bool, true, false, not, some, ltb, ◌==◌,
  if◌then◌else◌, arith, inl, inr, Bool-cases, all_below, all_below-lt, same, same-eq,
}
use bin_os_c.Io.{Ports}
use bin_os_c.Pic.{
  pic1_data, pic2_data, data_port, line_of, all_but, irq_set_mask, irq_clear_mask, pic_enable_irq,
}

-- The data ports hold the mask that was written last; a read changes nothing.
pub record Latches {D : Type 0} (io : Ports D) : Type 0 where
  pub reads : (p : ℕ) (d : D) → (p ≡ pic1_data) ⊎ (p ≡ pic2_data) → (io.inb p d).1 ≡ d
  pub holds :
      (p c : ℕ) (d : D)
      → (p ≡ pic1_data) ⊎ (p ≡ pic2_data)
      → c < 256
      → (io.inb p (io.outb p c d)).0 ≡ c
  pub other_first :
      (c : ℕ) (d : D) → (io.inb pic1_data (io.outb pic2_data c d)).0 ≡ (io.inb pic1_data d).0
  pub other_second :
      (c : ℕ) (d : D) → (io.inb pic2_data (io.outb pic1_data c d)).0 ≡ (io.inb pic2_data d).0
  pub is_byte : (p : ℕ) (d : D) → (io.inb p d).0 < 256

-- The line is masked.
abbrev pub is_masked : {D : Type 0} → Ports D → ℕ → D → Bool
is_masked io irq d = not (bit_and (io.inb (data_port irq) d).0 (2 ^ line_of irq) == 0)

-- The line is masked or not as `b` says, and every other one as it was.
abbrev pub OnlyMask : {D : Type 0} → Ports D → ℕ → Bool → D → D → Type 0
OnlyMask io irq b d d' =
    (irq' : ℕ) → irq' < 16 → is_masked io irq' d' ≡ (if irq' == irq then b else is_masked io irq' d)

abbrev bit : ℕ → ℕ → Bool
bit mask i = not (bit_and mask (2 ^ i) == 0)

abbrev sets : ℕ → ℕ → ℕ → Bool
sets i j mask = same (bit (bit_or mask (2 ^ i) % 2 ^ 8) j) (if j == i then true else bit mask j)

abbrev clears : ℕ → ℕ → ℕ → Bool
clears i j mask = same (bit (bit_and mask (all_but i)) j) (if j == i then false else bit mask j)

abbrev everywhere : (ℕ → ℕ → ℕ → Bool) → Bool
everywhere p = all_below 8 (λ i. all_below 8 (λ j. all_below 256 (p i j)))

all-sets : everywhere sets ≡ true
unfolding all_below
all-sets = refl

all-clears : everywhere clears ≡ true
unfolding all_below
all-clears = refl

everywhere-at :
    (p : ℕ → ℕ → ℕ → Bool) (i j mask : ℕ)
    → everywhere p ≡ true
    → i < 8
    → j < 8
    → mask < 256
    → p i j mask ≡ true
everywhere-at p i j mask all lti ltj ltm =
    all_below-lt 256 (p i j) mask
      (all_below-lt 8 (λ j. all_below 256 (p i j)) j
        (all_below-lt 8 (λ i. all_below 8 (λ j. all_below 256 (p i j))) i all lti) ltj)
      ltm

abbrev stays_byte : ℕ → ℕ → Bool
stays_byte i mask = ltb (bit_and mask (all_but i)) 256

all-stays_byte : all_below 8 (λ i. all_below 256 (stays_byte i)) ≡ true
unfolding all_below
all-stays_byte = refl

clear-byte : (i mask : ℕ) → i < 8 → mask < 256 → bit_and mask (all_but i) < 256
clear-byte i mask lt ltm =
    let h = all_below-lt 8 (λ i. all_below 256 (stays_byte i)) i all-stays_byte lt in
    let small : stays_byte i mask ≡ true = all_below-lt 256 (stays_byte i) mask h ltm in
    ground arith

is_port : (irq : ℕ) → (data_port irq ≡ pic1_data) ⊎ (data_port irq ≡ pic2_data)
is_port irq = elim (Bool-cases (ltb irq 8)) [
  | inl first ↦ inl (rw first refl)
  | inr second ↦ inr (rw second refl)
]

line_of-lt : (irq : ℕ) → irq < 16 → line_of irq < 8
line_of-lt irq lt = ground arith

-- Two lines are of one controller, where the line tells them apart, or of both.
abbrev Together : ℕ → ℕ → Type 0
Together irq irq' =
    (data_port irq' ≡ data_port irq) × ((irq' == irq) ≡ (line_of irq' == line_of irq))

abbrev Apart : ℕ → ℕ → Type 0
Apart irq irq' =
    ((irq' == irq) ≡ false)
    × (((data_port irq ≡ pic1_data) × (data_port irq' ≡ pic2_data))
        ⊎ ((data_port irq ≡ pic2_data) × (data_port irq' ≡ pic1_data)))

controllers : (irq irq' : ℕ) → Together irq irq' ⊎ Apart irq irq'
controllers irq irq' = elim (Bool-cases (ltb irq 8)) [
  | inl first ↦ elim (Bool-cases (ltb irq' 8)) [
    | inl first' ↦ inl (rw (first, first') (refl, refl))
    | inr second' ↦ inr (ground arith, inl (rw (first, second') (refl, refl)))
  ]
  | inr second ↦ elim (Bool-cases (ltb irq' 8)) [
    | inl first' ↦ inr (ground arith, inr (rw (second, first') (refl, refl)))
    | inr second' ↦ inl (rw (second, second') (refl, ground arith))
  ]
]

module _ {D : Type 0} (io : Ports D) (latches : Latches io) where
  -- A write that changes the bit of one line.
  write-OnlyMask :
      (irq c : ℕ) (b : Bool) (d : D)
      → c < 256
      → ((j : ℕ)
          → j < 8
          → bit c j ≡ (if j == line_of irq then b else bit (io.inb (data_port irq) d).0 j))
      → OnlyMask io irq b d (io.outb (data_port irq) c d)
  write-OnlyMask irq c b d byte bits irq' lt' = elim (controllers irq irq') [
    | inl (port, line) ↦
        rw (port, latches.holds (data_port irq) c d (is_port irq) byte, line)
          (bits (line_of irq') (line_of-lt irq' lt'))
    | inr (other, inl (port, port')) ↦ rw (other, port, port', latches.other_second c d) refl
    | inr (other, inr (port, port')) ↦ rw (other, port, port', latches.other_first c d) refl
  ]

  -- For interrupt controllers whose data ports hold the mask that was written and an interrupt
  -- below 16: `IRQ_set_mask` masks its line and `IRQ_clear_mask` unmasks it, neither changes
  -- another of the 16 lines, and `pic_enable_irq` does what `IRQ_clear_mask` does.
  pub masks-OnlyMask :
      (irq : ℕ) (d : D)
      → irq < 16
      → ((d' : D) × (irq_set_mask io irq d ≡ some (tt, d')) × OnlyMask io irq true d d')
        × ((d' : D) × (irq_clear_mask io irq d ≡ some (tt, d')) × OnlyMask io irq false d d')
        × (pic_enable_irq io irq d ≡ irq_clear_mask io irq d)
  unfolding irq_set_mask irq_clear_mask pic_enable_irq
  masks-OnlyMask irq d lt =
      let p = data_port irq in
      let mask = (io.inb p d).0 in
      let i = line_of irq in
      let byte : mask < 256 = latches.is_byte p d in
      let set = bit_or mask (2 ^ i) % 2 ^ 8 in
      let clear = bit_and mask (all_but i) in
      let keeps = latches.reads p d (is_port irq) in
      (
        (
          io.outb p set d,
          rw keeps refl,
          write-OnlyMask irq set true d (omega arith) (λ j ltj.
              same-eq (bit set j) (if j == i then true else bit mask j)
                (everywhere-at sets i j mask all-sets (line_of-lt irq lt) ltj byte)),
        ),
        (
          io.outb p clear d,
          rw keeps refl,
          write-OnlyMask irq clear false d (clear-byte i mask (line_of-lt irq lt) byte) (λ j ltj.
              same-eq (bit clear j) (if j == i then false else bit mask j)
                (everywhere-at clears i j mask all-clears (line_of-lt irq lt) ltj byte)),
        ),
        refl,
      )
