-- ===== src/Memory/Layout.antt =====
-- Facts about lists of cells: neighbours never overlap, taking a cell keeps the others, and giving
-- it back restores the list.
use bin_os_c.Base.{
  ℕ, ◌+◌, ◌-◌, ◌≤◌, ◌<◌, ◌≡◌, ◌≢◌, refl, sym, ◌∙◌, ◌⊎◌, inl, inr, Bool, true, false, [], ◌∷◌, arith,
  ltb, leb, Bool-cases,
}
use bin_os_c.Memory.{null, header_size}
use bin_os_c.Memory.Cells.{Cells, extent, allocated, first_fit, carve, allocate, Holds}

pub Holds-le : (at : ℕ) (xs : Cells) (p n : ℕ) (f : Bool) → Holds at xs p n f → at ≤ p
Holds-le at [] p n f h = elim h [ ]
Holds-le at ((m, g) ∷ xs) p n f (inl e) = omega arith
Holds-le at ((m, g) ∷ xs) p n f (inr h) = omega (arith, Holds-le (at + header_size + m) xs p n f h)

pub Holds-end :
    (at : ℕ) (xs : Cells) (p n : ℕ) (f : Bool)
    → Holds at xs p n f
    → p + header_size + n ≤ at + extent xs
unfolding extent
Holds-end at [] p n f h = elim h [ ]
Holds-end at ((m, g) ∷ xs) p n f (inl e) = omega arith
Holds-end at ((m, g) ∷ xs) p n f (inr h) =
    omega (arith, Holds-end (at + header_size + m) xs p n f h)

-- Two cells are one and the same, or lie one behind the other.
pub Holds-apart :
    (at : ℕ) (xs : Cells) (p n : ℕ) (f : Bool) (q m : ℕ) (g : Bool)
    → Holds at xs p n f
    → Holds at xs q m g
    → ((p ≡ q) × (n ≡ m) × (f ≡ g)) ⊎ ((p + header_size + n ≤ q) ⊎ (q + header_size + m ≤ p))
Holds-apart at [] p n f q m g h k = elim h [ ]
Holds-apart at ((l, i) ∷ xs) p n f q m g (inl h) (inl k) =
    inl (sym h.0 ∙ k.0, sym h.1 ∙ k.1, sym h.2 ∙ k.2)
Holds-apart at ((l, i) ∷ xs) p n f q m g (inl h) (inr k) =
    inr (inl (omega (arith, Holds-le (at + header_size + l) xs q m g k)))
Holds-apart at ((l, i) ∷ xs) p n f q m g (inr h) (inl k) =
    inr (inr (omega (arith, Holds-le (at + header_size + l) xs p n f h)))
Holds-apart at ((l, i) ∷ xs) p n f q m g (inr h) (inr k) =
    Holds-apart (at + header_size + l) xs p n f q m g h k

-- A byte of an allocated cell.
pub Holds-allocated :
    (at : ℕ) (xs : Cells) (p n : ℕ) (a : ℕ)
    → Holds at xs p n false
    → p + header_size ≤ a
    → a < p + header_size + n
    → allocated at xs a ≡ true
unfolding allocated
Holds-allocated at [] p n a h le lt = elim h [ ]
Holds-allocated at ((m, g) ∷ xs) p n a (inl (e, e', e'')) le lt = ground arith
Holds-allocated at ((m, g) ∷ xs) p n a (inr h) le lt =
    ground (arith, Holds-allocated (at + header_size + m) xs p n a h)

carve-Holds :
    (at n size : ℕ) (xs : Cells) (q m : ℕ)
    → Holds (at + header_size + n) xs q m false
    → Holds at (carve size n xs) q m false
unfolding carve
carve-Holds at n size xs q m h = elim (Bool-cases (ltb (size + header_size) n)) [
  | inl more ↦
      let e : at + header_size + n
          ≡ at + header_size + size + header_size + (n - size - header_size) =
        ground arith in
      rw more (inr (inr (rw (← e) h)))
  | inr less ↦ rw less (inr h)
]

-- Taking a cell keeps every cell that was allocated.
pub allocate-Holds :
    (at size : ℕ) (xs : Cells) (q m : ℕ)
    → Holds at xs q m false
    → Holds at (allocate size xs) q m false
unfolding allocate
allocate-Holds at size [] q m h = h
allocate-Holds at size ((n, false) ∷ xs) q m (inl e) = inl e
allocate-Holds at size ((n, false) ∷ xs) q m (inr h) =
    inr (allocate-Holds (at + header_size + n) size xs q m h)
allocate-Holds at size ((n, true) ∷ xs) q m (inl e) = cc
allocate-Holds at size ((n, true) ∷ xs) q m (inr h) = elim (Bool-cases (leb size n)) [
  | inl fits ↦ rw fits (carve-Holds at n size xs q m h)
  | inr small ↦ rw small (inr (allocate-Holds (at + header_size + n) size xs q m h))
]

-- The cell that was found is free, and large enough.
pub first_fit-Holds :
    (at size : ℕ) (xs : Cells)
    → first_fit at size xs ≢ null
    → (n : ℕ) × (size ≤ n) × Holds at xs (first_fit at size xs) n true
unfolding first_fit
first_fit-Holds at size [] ne = absurd (ne refl)
first_fit-Holds at size ((n, false) ∷ xs) ne =
    let (m, le, h) = first_fit-Holds (at + header_size + n) size xs ne in (m, le, inr h)
first_fit-Holds at size ((n, true) ∷ xs) ne = elim (Bool-cases (leb size n)) [
  | inl fits ↦ (n, ground arith, inl (rw fits, refl, refl))
  | inr small ↦
      let (m, le, h) = first_fit-Holds (at + header_size + n) size xs (rw small at ne) in
      (m, le, inr (rw small h))
]

-- Afterwards it is allocated.
pub allocate-Holds_found :
    (at size : ℕ) (xs : Cells)
    → first_fit at size xs ≢ null
    → (n : ℕ) × (size ≤ n) × Holds at (allocate size xs) (first_fit at size xs) n false
unfolding first_fit allocate carve
allocate-Holds_found at size [] ne = absurd (ne refl)
allocate-Holds_found at size ((n, false) ∷ xs) ne =
    let (m, le, h) = allocate-Holds_found (at + header_size + n) size xs ne in (m, le, inr h)
allocate-Holds_found at size ((n, true) ∷ xs) ne = elim (Bool-cases (leb size n)) [
  | inl fits ↦ elim (Bool-cases (ltb (size + header_size) n)) [
    | inl more ↦ (size, omega arith, rw (fits, more) (inl (refl, refl, refl)))
    | inr less ↦ (n, ground arith, rw (fits, less) (inl (refl, refl, refl)))
  ]
  | inr small ↦
      let (m, le, h) = allocate-Holds_found (at + header_size + n) size xs (rw small at ne) in
      (m, le, rw small (inr h))
]
