-- ===== src/Pic/Tests.antt =====
-- Two controllers that hold their masks.
use bin_os_c.Base.{
  ℕ, ◌<◌, ◌≡◌, ◌%◌, ◌⊎◌, refl, true, false, some, arith, ◌==◌, inl, inr, if◌then◌else◌,
}
use bin_os_c.Io.{Ports}
use bin_os_c.Pic.{pic1_data, pic2_data, irq_set_mask, irq_clear_mask, pic_enable_irq}
use bin_os_c.Pic.Masks.{Latches, OnlyMask, masks-OnlyMask}

record Pair : Type 0 where
  first : ℕ
  second : ℕ

abbrev pair : Ports Pair
pair = record {
  inb = λ p d. ((if p == pic1_data then d.first else d.second) % 256, d);
  outb = λ p c d.
      if p == pic1_data
      then record d { first = c }
      else if p == pic2_data
      then record d { second = c }
      else d;
}

pair-holds :
    (p c : ℕ) (d : Pair)
    → (p ≡ pic1_data) ⊎ (p ≡ pic2_data)
    → c < 256
    → (pair.inb p (pair.outb p c d)).0 ≡ c
pair-holds p c d (inl e) lt = rw e (omega arith)
pair-holds p c d (inr e) lt = rw e (omega arith)

pair-Latches : Latches pair
pair-Latches = record {
  reads = λ p d port. refl;
  holds = pair-holds;
  other_first = λ c d. refl;
  other_second = λ c d. refl;
  is_byte = λ p d. omega arith;
}

abbrev masked_pair : Pair
masked_pair = record { first = 0xfc; second = 0xff }

masks-OnlyMask_example :
    ((d : Pair) × (irq_set_mask pair 8 masked_pair ≡ some (tt, d))
      × OnlyMask pair 8 true masked_pair d)
    × ((d : Pair) × (irq_clear_mask pair 8 masked_pair ≡ some (tt, d))
        × OnlyMask pair 8 false masked_pair d)
    × (pic_enable_irq pair 8 masked_pair ≡ irq_clear_mask pair 8 masked_pair)
masks-OnlyMask_example = masks-OnlyMask pair pair-Latches 8 masked_pair (omega arith)
