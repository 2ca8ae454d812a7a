-- ===== src/Io.antt =====
-- kernel/src/io.h: the ports of the machine. What a device does with a read or a write is not in
-- the source, so it is a parameter.
use bin_os_c.Base.{ℕ, Option, none, some}

-- `inb` gives the byte and what the devices are afterwards.
pub record Ports (D : Type 0) : Type 0 where
  pub inb : ℕ → D → ℕ × D
  pub outb : ℕ → ℕ → D → D

-- `none` is a fault, or a poll that the device never answers.
abbrev pub M : Type 0 → Type 0 → Type 0
M D A = D → Option (A × D)

abbrev pub continue : {D A B : Type 0} → Option (A × D) → (A → M D B) → Option (B × D)
continue none f = none
continue (some (a, d)) f = f a d

abbrev pub pure : {D A : Type 0} → A → M D A
pure a d = some (a, d)

infixl 5 ◌>>=◌ ◌>>◌
abbrev pub ◌>>=◌ : {D A B : Type 0} → M D A → (A → M D B) → M D B
m >>= f = λ d. continue (m d) f

abbrev pub ◌>>◌ : {D A B : Type 0} → M D A → M D B → M D B
m >> k = m >>= λ _. k

abbrev pub lift : {D A : Type 0} → Option A → M D A
lift none d = none
lift (some a) d = some (a, d)

abbrev pub fault : {D A : Type 0} → M D A
fault d = none

module _ {D : Type 0} (io : Ports D) where
  abbrev pub inb : ℕ → M D ℕ
  inb port d = some (io.inb port d)

  abbrev pub outb : ℕ → ℕ → M D (Unit {0})
  outb port byte d = some (tt, io.outb port byte d)

  unfoldable pub io_wait : M D (Unit {0})
  io_wait = outb 0x80 0
