-- ===== src/Memory/Restore.antt =====
-- Facts about lists of cells: what giving a cell back and merging undo, and what they add up to.
use bin_os_c.Base.{
  ℕ, ◌+◌, ◌-◌, ◌*◌, ◌≤◌, ◌≡◌, ◌≢◌, refl, ◌∙◌, inl, inr, Bool, true, false, [], ◌∷◌, arith, ltb, leb,
  ◌==◌, length, Bool-cases, eq_of_==,
}
use bin_os_c.Memory.{null, header_size}
use bin_os_c.Memory.Cells.{
  Cells, extent, allocated, total, first_fit, carve, allocate, release, join, merge, apart,
  IsMerged, Holds, first_fit-ge, merge-absorb,
}
use bin_os_c.Memory.Layout.{Holds-le}

join_head : (n : ℕ) (f : Bool) (xs : Cells) → apart f xs ≡ true → join n f xs ≡ (n, f) ∷ xs
unfolding join
join_head n f [] h = refl
join_head n f ((m, g) ∷ xs) h = ground arith

-- A list with no two free neighbours is as merged as it can be.
pub merge_id : (xs : Cells) → IsMerged xs → merge xs ≡ xs
unfolding merge
merge_id [] h = refl
merge_id ((n, f) ∷ xs) h = rw (merge_id xs h.1) (join_head n f xs h.0)

release_skip :
    (p at n : ℕ) (f : Bool) (xs ys : Cells)
    → at + header_size + n ≤ p
    → merge (release p (at + header_size + n) ys) ≡ xs
    → apart f xs ≡ true
    → merge (release p at ((n, f) ∷ ys)) ≡ (n, f) ∷ xs
unfolding release merge
release_skip p at n f xs ys le e h =
    let behind : (at == p) ≡ false = ground arith in rw (behind, e) (join_head n f xs h)

==_self : (a : ℕ) → (a == a) ≡ true
==_self a = ground arith

release-carve :
    (at n size : ℕ) (xs : Cells)
    → IsMerged ((n, true) ∷ xs)
    → merge (release at at (carve size n xs)) ≡ (n, true) ∷ xs
unfolding release carve merge
release-carve at n size xs h = elim (Bool-cases (ltb (size + header_size) n)) [
  | inl more ↦
      let e : size + (n - size - header_size + header_size) ≡ n = ground arith in
      rw (more, ==_self at, merge-absorb size (n - size - header_size) xs, e, merge_id xs h.1)
        (join_head n true xs h.0)
  | inr less ↦ rw (less, ==_self at, merge_id xs h.1) (join_head n true xs h.0)
]

-- Taking a cell and giving it back is no change, where no two free cells were neighbours.
pub release-allocate :
    (at size : ℕ) (xs : Cells)
    → IsMerged xs
    → first_fit at size xs ≢ null
    → merge (release (first_fit at size xs) at (allocate size xs)) ≡ xs
unfolding first_fit allocate
release-allocate at size [] h ne = absurd (ne refl)
release-allocate at size ((n, false) ∷ xs) h ne =
    release_skip (first_fit (at + header_size + n) size xs) at n false xs (allocate size xs)
      (ground (arith, first_fit-ge (at + header_size + n) size xs))
      (release-allocate (at + header_size + n) size xs h.1 ne) h.0
release-allocate at size ((n, true) ∷ xs) h ne = elim (Bool-cases (leb size n)) [
  | inl fits ↦ rw fits (release-carve at n size xs h)
  | inr small ↦
      let ne' : first_fit (at + header_size + n) size xs ≢ null = rw small at ne in
      rw small (
        release_skip (first_fit (at + header_size + n) size xs) at n true xs (allocate size xs)
          (ground (arith, first_fit-ge (at + header_size + n) size xs))
          (release-allocate (at + header_size + n) size xs h.1 ne') h.0)
]

apart-false : (xs : Cells) → apart false xs ≡ true
apart-false [] = refl
apart-false (x ∷ xs) = refl

apart-allocate :
    (size : ℕ) (xs : Cells) → apart true xs ≡ true → apart true (allocate size xs) ≡ true
unfolding allocate
apart-allocate size [] h = refl
apart-allocate size ((n, false) ∷ xs) h = refl
apart-allocate size ((n, true) ∷ xs) h = cc

-- A list with no two free neighbours has none after a cell is taken.
pub allocate-IsMerged : (size : ℕ) (xs : Cells) → IsMerged xs → IsMerged (allocate size xs)
unfolding allocate carve
allocate-IsMerged size [] h = h
allocate-IsMerged size ((n, false) ∷ xs) h =
    (apart-false (allocate size xs), allocate-IsMerged size xs h.1)
allocate-IsMerged size ((n, true) ∷ xs) h = elim (Bool-cases (leb size n)) [
  | inl fits ↦ elim (Bool-cases (ltb (size + header_size) n)) [
    | inl more ↦ rw (fits, more) (refl, h)
    | inr less ↦ rw (fits, less) (apart-false xs, h.1)
  ]
  | inr small ↦ rw small (apart-allocate size xs h.0, allocate-IsMerged size xs h.1)
]

-- Giving a cell back takes no other cell's bytes.
pub allocated-release :
    (p at : ℕ) (xs : Cells) (a : ℕ)
    → allocated at (release p at xs) a ≡ true
    → allocated at xs a ≡ true
unfolding allocated release
allocated-release p at [] a h = h
allocated-release p at ((n, f) ∷ xs) a h =
    ground (arith, allocated-release p (at + header_size + n) xs a)

pub release-Holds :
    (p at : ℕ) (xs : Cells) (q m : ℕ)
    → p ≢ q
    → Holds at xs q m false
    → Holds at (release p at xs) q m false
unfolding release
release-Holds p at [] q m ne h = h
release-Holds p at ((n, f) ∷ xs) q m ne (inl e) =
    let other : (at == p) ≡ false = ground arith in rw other (inl e)
release-Holds p at ((n, f) ∷ xs) q m ne (inr h) = elim (Bool-cases (at == p)) [
  | inl here ↦ rw here (inr h)
  | inr behind ↦ rw behind (inr (release-Holds p (at + header_size + n) xs q m ne h))
]

total-join : (n : ℕ) (f : Bool) (xs : Cells) → total false (join n f xs) ≡ total false ((n, f) ∷ xs)
unfolding total join
total-join n f [] = refl
total-join n true ((m, true) ∷ xs) = omega arith
total-join n true ((m, false) ∷ xs) = refl
total-join n false ((m, g) ∷ xs) = refl

-- A merge gives no allocated byte back.
pub total-merge : (xs : Cells) → total false (merge xs) ≡ total false xs
unfolding total merge
total-merge [] = refl
total-merge ((n, f) ∷ xs) =
    total-join n f (merge xs) ∙ unfold total in ground (arith, total-merge xs)

-- Headers, allocated and free bytes make up the whole.
pub total-extent :
    (xs : Cells) → header_size * length xs + total false xs + total true xs ≡ extent xs
unfolding total extent
total-extent [] = omega arith
total-extent ((n, true) ∷ xs) = omega (arith, total-extent xs)
total-extent ((n, false) ∷ xs) = omega (arith, total-extent xs)

-- What is allocated after a cell is given back was allocated before, and is another cell.
abbrev Remains : ℕ → Cells → ℕ → ℕ → ℕ → Type 0
Remains at xs p q m = Holds at xs q m false × (q ≢ p)

Remains-here :
    (p at n : ℕ) (f : Bool) (xs : Cells) (q m : ℕ)
    → Holds at ((n, true) ∷ xs) q m false
    → at ≡ p
    → Remains at ((n, f) ∷ xs) p q m
Remains-here p at n f xs q m (inl e) e' = cc (e.2)
Remains-here p at n f xs q m (inr k) e' =
    (inr k, omega (arith, Holds-le (at + header_size + n) xs q m false k))

Remains-behind :
    (p at n : ℕ) (f : Bool) (xs : Cells) (q m : ℕ)
    → Holds at ((n, f) ∷ release p (at + header_size + n) xs) q m false
    → (Holds (at + header_size + n) (release p (at + header_size + n) xs) q m false
        → Remains (at + header_size + n) xs p q m)
    → (at == p) ≡ false
    → Remains at ((n, f) ∷ xs) p q m
Remains-behind p at n f xs q m (inl e) ih ne = (inl e, ground arith)
Remains-behind p at n f xs q m (inr k) ih ne = let (k', ne') = ih k in (inr k', ne')

pub Holds-of_release :
    (p at : ℕ) (xs : Cells) (q m : ℕ)
    → Holds at (release p at xs) q m false
    → Holds at xs q m false × (q ≢ p)
unfolding release
Holds-of_release p at [] q m h = absurd h
Holds-of_release p at ((n, f) ∷ xs) q m h = elim (Bool-cases (at == p)) [
  | inl here ↦ Remains-here p at n f xs q m (rw here at h) (eq_of_== at p here)
  | inr behind ↦
      Remains-behind p at n f xs q m (rw behind at h)
        (Holds-of_release p (at + header_size + n) xs q m) behind
]
