-- ===== src/Memory/Claim.antt =====
-- `find_free_block`, `split_block` and the marking of a block against the list of cells.
use bin_os_c.Base.{
  ℕ, zero, suc, ◌+◌, ◌-◌, ◌≤◌, ◌<◌, ◌^◌, ◌≡◌, refl, sym, inl, inr, Bool, true, false, ◌&&◌, some,
  [], ◌∷◌, arith, length, leb, ltb, Bool-cases, ◌≢◌,
}
use bin_os_c.Memory.{
  Ptr, null, block, header_size, Heap, store_header, store, find_loop, write_split, split_block,
  set_free, claim, size_add, size_sub,
}
use bin_os_c.Memory.Cells.{Cells, allocated, first_fit, carve, allocate, allocated-split}
use bin_os_c.Memory.Chain.{
  Chain, Chain-extent, Updates, Updates-trans, Updates-cons, Updates-under, load-some,
  store-Updates, link, not_null,
}

pub find_loop-first_fit :
    (limit : Ptr) (h : Heap) (size k at : ℕ) (xs : Cells)
    → 0 < at
    → Chain h.header limit at xs
    → length xs < k
    → find_loop k size (link at xs) h ≡ some (first_fit at size xs, h)
unfolding find_loop first_fit
find_loop-first_fit limit h size zero at xs pos c fuel = absurd (omega arith)
find_loop-first_fit limit h size (suc k) at [] pos c fuel = refl
find_loop-first_fit limit h size (suc k) at ((n, f) ∷ xs) pos c fuel =
    rw (not_null at pos, load-some h at c.0)
      (elim (Bool-cases (f && leb size n)) [
        | inl fits ↦ rw fits
        | inr not ↦ rw not (
            find_loop-first_fit limit h size k (at + header_size + n) xs (omega arith) c.1
              (omega arith))
      ])

link-allocate : (p size : ℕ) (xs : Cells) → link p (allocate size xs) ≡ link p xs
unfolding allocate carve
link-allocate p size [] = refl
link-allocate p size ((n, f) ∷ xs) = ground arith

module _ (limit : Ptr) (small : limit < 2 ^ 64) where
  pub set_free-Updates :
      (h : Heap) (at n : ℕ) (f g : Bool) (xs : Cells)
      → Chain h.header limit at ((n, f) ∷ xs)
      → (h' : Heap) × (set_free at g h ≡ some (tt, h'))
        × Updates limit h h' at ((n, f) ∷ xs) ((n, g) ∷ xs)
  unfolding set_free store
  set_free-Updates h at n f g xs c = (
    store_header at (block n g (link (at + header_size + n) xs)) h,
    rw (load-some h at c.0),
    store-Updates limit h at n g ((n, f) ∷ xs) xs c.1,
  )

  write_split-Updates :
      (h : Heap) (at n size : ℕ) (xs : Cells)
      → Chain h.header limit at ((n, true) ∷ xs)
      → size + header_size < n
      → (h' : Heap) × (write_split at size (block n true (link (at + header_size + n) xs)) h
          ≡ some (tt, h'))
        × Updates limit h h' at
            ((n, true) ∷ xs)
            ((size, true) ∷ (n - size - header_size, true) ∷ xs)
  unfolding write_split store allocated
  write_split-Updates h at n size xs c more =
      let fits = Chain-extent h.header limit _ xs c.1 in
      let e : size_add at (size_add header_size size) ≡ at + header_size + size = omega arith in
      let e' : size_sub n (size_add size header_size) ≡ n - size - header_size = omega arith in
      let q : at + header_size + n
          ≡ at + header_size + size + header_size + (n - size - header_size) =
        omega arith in
      let b₁ =
        block (n - size - header_size) true
          (link (at + header_size + size + header_size + (n - size - header_size)) xs) in
      let h₁ = store_header (at + header_size + size) b₁ h in
      let h₂ = store_header at (block size true (at + header_size + size)) h₁ in
      let rest = (n - size - header_size, true) ∷ xs in
      let u₁ =
        store-Updates limit h (at + header_size + size) (n - size - header_size) true rest xs
          (rw q at c.1) in
      (
        h₂,
        rw (e, e', q),
        Updates-under limit h h₁ h₂ at (at + header_size + size) ((n, true) ∷ xs)
            ((size, true) ∷ rest) rest rest ((n, true) ∷ xs) (omega arith) (λ a i. rw (← q) i)
            (λ a i. i) u₁ (store-Updates limit h₁ at size true ((n, true) ∷ xs) rest u₁.chain),
      )

  -- On a free cell that is large enough, `claim` makes what `carve` says.
  claim-carve :
      (h : Heap) (at n size : ℕ) (xs : Cells)
      → Chain h.header limit at ((n, true) ∷ xs)
      → size ≤ n
      → (h' : Heap) × (claim at size h ≡ some (tt, h'))
        × Updates limit h h' at ((n, true) ∷ xs) (carve size n xs)
  unfolding claim split_block carve
  claim-carve h at n size xs c le =
      let fits = Chain-extent h.header limit _ xs c.1 in
      let e : size_add size header_size ≡ size + header_size = omega arith in
      rw (load-some h at c.0, e)
        (elim (Bool-cases (ltb (size + header_size) n)) [
          | inl more ↦
              let (h₁, run, u) = write_split-Updates h at n size xs c (ground arith) in
              let (h₂, run', v) =
                set_free-Updates h₁ at size true false ((n - size - header_size, true) ∷ xs)
                  u.chain in
              (
                h₂,
                rw (more, run) run',
                rw more (
                    Updates-trans u (λ a i. rw (allocated-split at n size xs a (ground arith)) i)
                      v),
              )
          | inr less ↦
              let (h₂, run', v) = set_free-Updates h at n true false xs c in
              (h₂, rw less run', rw less v)
        ])

  pub claim-allocate :
      (h : Heap) (at size : ℕ) (xs : Cells)
      → 0 < at
      → Chain h.header limit at xs
      → first_fit at size xs ≢ null
      → (h' : Heap) × (claim (first_fit at size xs) size h ≡ some (tt, h'))
        × Updates limit h h' at xs (allocate size xs)
  unfolding first_fit allocate
  claim-allocate h at size [] pos c found = absurd (found refl)
  claim-allocate h at size ((n, false) ∷ xs) pos c found =
      let (h₁, run, u) = claim-allocate h (at + header_size + n) size xs (omega arith) c.1 found in
      (h₁, run, Updates-cons c (sym (link-allocate _ size xs)) u)
  claim-allocate h at size ((n, true) ∷ xs) pos c found = elim (Bool-cases (leb size n)) [
    | inl fits ↦ rw fits (claim-carve h at n size xs c (ground arith))
    | inr not ↦
        let found' : first_fit (at + header_size + n) size xs ≢ null = rw not at found in
        let (h₁, run, u) =
          claim-allocate h (at + header_size + n) size xs (omega arith) c.1 found' in
        (h₁, rw not run, rw not (Updates-cons c (sym (link-allocate _ size xs)) u))
  ]
