-- ===== src/Memory/Cells.antt =====
-- The heap as a list of cells (size, is_free), in address order: what the allocator does to it.
use bin_os_c.Base.{
  ℕ, ◌+◌, ◌-◌, ◌*◌, ◌≤◌, ◌≡◌, refl, ap, ◌⊎◌, inl, inr, Bool, true, false, not, ◌&&◌, ◌||◌, List, [],
  ◌∷◌, arith, ltb, leb, ◌==◌, if◌then◌else◌, length, ◌<◌, ◌≢◌,
}
use bin_os_c.Memory.{Ptr, null, within, header_size}

abbrev pub Cells : Type 0
Cells = List (ℕ × Bool)

-- The bytes that the cells take, headers included.
unfoldable pub extent : Cells → ℕ
extent [] = 0
extent ((n, f) ∷ xs) = header_size + n + extent xs

-- Is `a` a byte of an allocated cell, when the first header is at `at`?
unfoldable pub allocated : Ptr → Cells → Ptr → Bool
allocated at [] a = false
allocated at ((n, f) ∷ xs) a =
    (not f && within (at + header_size) n a) || allocated (at + header_size + n) xs a

-- The sum of the sizes of the cells that are free, or that are not.
unfoldable pub total : Bool → Cells → ℕ
total want [] = 0
total want ((n, f) ∷ xs) = (if (if f then want else not want) then n else 0) + total want xs

-- The first cell that is free and large enough: its address, or null.
unfoldable pub first_fit : Ptr → ℕ → Cells → Ptr
first_fit at size [] = null
first_fit at size ((n, f) ∷ xs) =
    if f && leb size n then at else first_fit (at + header_size + n) size xs

-- A cell of `n` bytes that is taken for `size` bytes: the rest is a free cell, if a header fits.
unfoldable pub carve : ℕ → ℕ → Cells → Cells
carve size n xs =
    if ltb (size + header_size) n
    then (size, false) ∷ (n - size - header_size, true) ∷ xs
    else (n, false) ∷ xs

unfoldable pub allocate : ℕ → Cells → Cells
allocate size [] = []
allocate size ((n, f) ∷ xs) = if f && leb size n then carve size n xs else (n, f) ∷ allocate size xs

-- The cell whose header is at `p` becomes free.
unfoldable pub release : Ptr → Ptr → Cells → Cells
release p at [] = []
release p at ((n, f) ∷ xs) =
    if at == p then (n, true) ∷ xs else (n, f) ∷ release p (at + header_size + n) xs

-- A cell in front of others, as one with the first where both are free.
unfoldable pub join : ℕ → Bool → Cells → Cells
join n f [] = (n, f) ∷ []
join n f ((m, g) ∷ xs) = if f && g then (n + (m + header_size), true) ∷ xs else (n, f) ∷ (m, g) ∷ xs

unfoldable pub merge : Cells → Cells
merge [] = []
merge ((n, f) ∷ xs) = join n f (merge xs)

-- No two neighbours are free.
abbrev pub apart : Bool → Cells → Bool
apart f [] = true
apart f ((m, g) ∷ xs) = not (f && g)

abbrev pub IsMerged : Cells → Type 0
IsMerged [] = Unit
IsMerged ((n, f) ∷ xs) = (apart f xs ≡ true) × IsMerged xs

-- A cell with its header at `p`.
abbrev pub Holds : Ptr → Cells → Ptr → ℕ → Bool → Type 0
Holds at [] p n f = ⊥
Holds at ((m, g) ∷ xs) p n f =
    ((at ≡ p) × (m ≡ n) × (g ≡ f)) ⊎ Holds (at + header_size + m) xs p n f

pub length-le-extent : (xs : Cells) → header_size * length xs ≤ extent xs
unfolding extent
length-le-extent [] = omega arith
length-le-extent ((n, f) ∷ xs) = omega (arith, length-le-extent xs)

pub join-join :
    (n m : ℕ) (xs : Cells) → join n true (join m true xs) ≡ join (n + (m + header_size)) true xs
unfolding join
join-join n m [] = refl
join-join n m ((k, true) ∷ xs) = ap (λ s. (s, true) ∷ xs) (omega arith)
join-join n m ((k, false) ∷ xs) = refl

extent-join : (n : ℕ) (f : Bool) (xs : Cells) → extent (join n f xs) ≡ header_size + n + extent xs
unfolding extent join
extent-join n f [] = refl
extent-join n f ((m, g) ∷ xs) = ground arith

pub extent-merge : (xs : Cells) → extent (merge xs) ≡ extent xs
unfolding extent merge
extent-merge [] = refl
extent-merge ((n, f) ∷ xs) = omega (arith, extent-join n f (merge xs), extent-merge xs)

join-IsMerged : (n : ℕ) (f : Bool) (xs : Cells) → IsMerged xs → IsMerged (join n f xs)
unfolding join
join-IsMerged n f [] h = (refl, tt)
join-IsMerged n true ((m, true) ∷ xs) h = h
join-IsMerged n true ((m, false) ∷ xs) h = (refl, h)
join-IsMerged n false ((m, g) ∷ xs) h = (refl, h)

pub merge-IsMerged : (xs : Cells) → IsMerged (merge xs)
unfolding merge
merge-IsMerged [] = tt
merge-IsMerged ((n, f) ∷ xs) = join-IsMerged n f (merge xs) (merge-IsMerged xs)

allocated-join :
    (at n : ℕ) (f : Bool) (xs : Cells) (a : Ptr)
    → allocated at (join n f xs) a
      ≡ ((not f && within (at + header_size) n a) || allocated (at + header_size + n) xs a)
unfolding allocated join
allocated-join at n f [] a = refl
allocated-join at n true ((m, true) ∷ xs) a = ap (λ s. allocated s xs a) (omega arith)
allocated-join at n true ((m, false) ∷ xs) a = refl
allocated-join at n false ((m, g) ∷ xs) a = refl

-- Merging neither takes a byte from an allocated cell nor gives it one.
pub allocated-merge :
    (at : Ptr) (xs : Cells) (a : Ptr) → allocated at (merge xs) a ≡ allocated at xs a
unfolding allocated merge
allocated-merge at [] a = refl
allocated-merge at ((n, f) ∷ xs) a =
    rw (allocated-join at n f (merge xs) a, allocated-merge (at + header_size + n) xs a)

join-Holds :
    (at n : ℕ) (f : Bool) (xs : Cells) (p m : ℕ)
    → Holds at ((n, f) ∷ xs) p m false
    → Holds at (join n f xs) p m false
unfolding join
join-Holds at n f [] p m h = h
join-Holds at n true ((k, true) ∷ xs) p m h = ground arith
join-Holds at n true ((k, false) ∷ xs) p m h = h
join-Holds at n false ((k, g) ∷ xs) p m h = h

-- An allocated cell outlasts a merge.
pub merge-Holds :
    (at : Ptr) (xs : Cells) (p n : ℕ) → Holds at xs p n false → Holds at (merge xs) p n false
unfolding merge
merge-Holds at [] p n h = h
merge-Holds at ((m, f) ∷ xs) p n (inl e) = join-Holds at m f (merge xs) p n (inl e)
merge-Holds at ((m, f) ∷ xs) p n (inr h) =
    join-Holds at m f (merge xs) p n (inr (merge-Holds (at + header_size + m) xs p n h))

pub merge-cons :
    (n : ℕ) (f : Bool) (m : ℕ) (g : Bool) (xs : Cells)
    → (f && g) ≡ false
    → merge ((n, f) ∷ (m, g) ∷ xs) ≡ (n, f) ∷ merge ((m, g) ∷ xs)
unfolding merge join
merge-cons n f m g xs e = join-cons (merge xs)
  where
    join-cons : (ys : Cells) → join n f (join m g ys) ≡ (n, f) ∷ join m g ys
    join-cons [] = rw e
    join-cons ((k, i) ∷ ys) = ground arith

pub merge-absorb :
    (n m : ℕ) (xs : Cells)
    → merge ((n, true) ∷ (m, true) ∷ xs) ≡ merge ((n + (m + header_size), true) ∷ xs)
unfolding merge
merge-absorb n m xs = join-join n m (merge xs)

-- Allocated bytes lie behind the first header.
pub allocated-le :
    (at : Ptr) (xs : Cells) (a : Ptr) → allocated at xs a ≡ true → at + header_size ≤ a
unfolding allocated
allocated-le at [] a h = cc
allocated-le at ((n, f) ∷ xs) a h = ground (arith, allocated-le (at + header_size + n) xs a)

pub allocated-absorb :
    (at n m : ℕ) (xs : Cells) (a : Ptr)
    → allocated at ((n, true) ∷ (m, true) ∷ xs) a
      ≡ allocated at ((n + (m + header_size), true) ∷ xs) a
unfolding allocated
allocated-absorb at n m xs a = ap (λ s. allocated s xs a) (omega arith)

pub allocated-split :
    (at n size : ℕ) (xs : Cells) (a : Ptr)
    → size + header_size < n
    → allocated at ((size, true) ∷ (n - size - header_size, true) ∷ xs) a
      ≡ allocated at ((n, true) ∷ xs) a
unfolding allocated
allocated-split at n size xs a h = ap (λ s. allocated s xs a) (omega arith)

allocated-carve :
    (at n size : ℕ) (xs : Cells) (a : Ptr)
    → allocated (at + header_size + n) xs a ≡ true
    → allocated at (carve size n xs) a ≡ true
unfolding allocated carve
allocated-carve at n size xs a h = ground (arith, allocated-split at n size xs a)

-- Taking a cell leaves every allocated byte allocated.
pub allocated-allocate :
    (at size : ℕ) (xs : Cells) (a : Ptr)
    → allocated at xs a ≡ true
    → allocated at (allocate size xs) a ≡ true
unfolding allocated allocate
allocated-allocate at size [] a h = h
allocated-allocate at size ((n, false) ∷ xs) a h =
    ground (arith, allocated-allocate (at + header_size + n) size xs a)
allocated-allocate at size ((n, true) ∷ xs) a h =
    ground
      (arith, allocated-carve at n size xs a, allocated-allocate (at + header_size + n) size xs a)

-- A cell is found exactly where one is large enough; otherwise nothing changes.
pub allocate-null :
    (at size : ℕ) (xs : Cells) → 0 < at → first_fit at size xs ≡ null → allocate size xs ≡ xs
unfolding first_fit allocate
allocate-null at size [] pos e = refl
allocate-null at size ((n, f) ∷ xs) pos e =
    ground (arith, allocate-null (at + header_size + n) size xs)

pub first_fit-ge :
    (at size : ℕ) (xs : Cells) → (first_fit at size xs ≡ null) ⊎ (at ≤ first_fit at size xs)
unfolding first_fit
first_fit-ge at size [] = inl refl
first_fit-ge at size ((n, f) ∷ xs) = ground (arith, first_fit-ge (at + header_size + n) size xs)

pub first_fit-le :
    (at size : ℕ) (xs : Cells)
    → first_fit at size xs ≢ null
    → first_fit at size xs + header_size ≤ at + extent xs
unfolding first_fit extent
first_fit-le at size [] ne = absurd (ne refl)
first_fit-le at size ((n, f) ∷ xs) ne = ground (arith, first_fit-le (at + header_size + n) size xs)
