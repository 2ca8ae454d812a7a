-- ===== src/Memory/Coalesce.antt =====
-- `coalesce`: one pass over the chain joins every run of free blocks.
use bin_os_c.Base.{
  ℕ, zero, suc, ◌+◌, ◌<◌, ◌^◌, ◌≡◌, refl, ◌∙◌, Bool, true, false, ◌&&◌, Option, some, [], ◌∷◌,
  arith, length, sym, ap,
}
use bin_os_c.Memory.{
  Ptr, Block, block, header_size, heap_size, Heap, store_header, store, absorb, both_free,
  coalesce_loop, coalesce, rounds, start, size_add,
}
use bin_os_c.Memory.Cells.{
  Cells, merge, merge-cons, merge-absorb, length-le-extent, join, allocated-absorb,
}
use bin_os_c.Memory.Chain.{
  Chain, Chain-extent, Updates, Updates-refl, Updates-trans, Updates-cons, load-some, store-Updates,
  link, link-merge, not_null,
}

module _ (limit : Ptr) (small : limit < 2 ^ 64) where
  absorb-Updates :
      (h : Heap) (at n m : ℕ) (xs : Cells)
      → 0 < at
      → Chain h.header limit at ((n, true) ∷ (m, true) ∷ xs)
      → (h' : Heap) × (absorb at h ≡ some (tt, h'))
        × Updates limit h h' at ((n, true) ∷ (m, true) ∷ xs) ((n + (m + header_size), true) ∷ xs)
  unfolding absorb store
  absorb-Updates h at n m xs pos c =
      let e : at + header_size + n + header_size + m ≡ at + header_size + (n + (m + header_size)) =
        omega arith in
      let fits = Chain-extent h.header limit _ xs c.1.1 in
      let e' : size_add n (size_add m header_size) ≡ n + (m + header_size) = omega arith in
      (
        store_header at
            (block (n + (m + header_size)) true
              (link (at + header_size + (n + (m + header_size))) xs))
            h,
        rw (load-some h at c.0, load-some h (at + header_size + n) c.1.0, e', e),
        store-Updates limit h at (n + (m + header_size)) true _ xs (rw e at c.1.1),
      )

  -- The loop has gone past a cell that stays as it is.
  move :
      (h h' : Heap) (at n : ℕ) (f : Bool) (m : ℕ) (g : Bool) (xs : Cells)
      → (f && g) ≡ false
      → Chain h.header limit at ((n, f) ∷ (m, g) ∷ xs)
      → Updates limit h h' (at + header_size + n) ((m, g) ∷ xs) (merge ((m, g) ∷ xs))
      → Updates limit h h' at ((n, f) ∷ (m, g) ∷ xs) (merge ((n, f) ∷ (m, g) ∷ xs))
  move h h' at n f m g xs e c u =
      rw (merge-cons n f m g xs e)
        (Updates-cons c (sym (link-merge (at + header_size + n) m g xs)) u)

  coalesce_loop-merge :
      (k : ℕ) (h : Heap) (at n : ℕ) (f : Bool) (xs : Cells)
      → 0 < at
      → Chain h.header limit at ((n, f) ∷ xs)
      → length xs < k
      → (h' : Heap) × (coalesce_loop k at h ≡ some (tt, h'))
        × Updates limit h h' at ((n, f) ∷ xs) (merge ((n, f) ∷ xs))
  unfolding coalesce_loop both_free
  coalesce_loop-merge zero h at n f xs pos c fuel = absurd (omega arith)
  coalesce_loop-merge (suc k) h at n f [] pos c fuel =
      (h, rw (not_null at pos, load-some h at c.0), unfold merge join in Updates-refl c)
  coalesce_loop-merge (suc k) h at n true ((m, true) ∷ xs) pos c fuel =
      let (h₁, run, u) = absorb-Updates h at n m xs pos c in
      let (h₂, rest, v) =
        coalesce_loop-merge k h₁ at (n + (m + header_size)) true xs pos u.chain (omega arith) in
      (
        h₂,
        rw
            (
              not_null at pos,
              load-some h at c.0,
              not_null (at + header_size + n) (omega arith),
              load-some h (at + header_size + n) c.1.0,
              run,
            )
            rest,
        rw (merge-absorb n m xs) (Updates-trans u (λ a i. rw (← allocated-absorb at n m xs a) i) v),
      )
  coalesce_loop-merge (suc k) h at n true ((m, false) ∷ xs) pos c fuel =
      let (h₁, rest, u) =
        coalesce_loop-merge k h (at + header_size + n) m false xs (omega arith) c.1 (omega arith) in
      (
        h₁,
        rw
            (
              not_null at pos,
              load-some h at c.0,
              not_null (at + header_size + n) (omega arith),
              load-some h (at + header_size + n) c.1.0,
            )
            rest,
        move h h₁ at n true m false xs refl c u,
      )
  coalesce_loop-merge (suc k) h at n false ((m, g) ∷ xs) pos c fuel =
      let (h₁, rest, u) =
        coalesce_loop-merge k h (at + header_size + n) m g xs (omega arith) c.1 (omega arith) in
      (
        h₁,
        rw (not_null at pos, load-some h at c.0, not_null (at + header_size + n) (omega arith))
            rest,
        move h h₁ at n false m g xs refl c u,
      )

-- The array has no room for as many headers as there are rounds.
pub rounds_enough :
    (hd : Ptr → Option Block) (at : Ptr) (xs : Cells)
    → Chain hd (at + heap_size) at xs
    → length xs < rounds
unfolding rounds
rounds_enough hd at xs c =
    omega (arith, Chain-extent hd (at + heap_size) at xs c, length-le-extent xs)

module _ (heap_memory : Ptr) (placed : 0 < heap_memory)
    (fits : heap_memory + heap_size < 2 ^ 64) where
  -- `coalesce` ends, joins every run of free blocks, and keeps every allocated byte.
  pub coalesce-merge :
      (h : Heap) (n : ℕ) (f : Bool) (xs : Cells)
      → h.heap_start ≡ heap_memory
      → Chain h.header (heap_memory + heap_size) heap_memory ((n, f) ∷ xs)
      → (h' : Heap) × (coalesce h ≡ some (tt, h'))
        × Updates (heap_memory + heap_size) h h' heap_memory ((n, f) ∷ xs) (merge ((n, f) ∷ xs))
  unfolding coalesce start
  coalesce-merge h n f xs e c =
      let (h₁, run, u) =
        coalesce_loop-merge (heap_memory + heap_size) fits rounds h heap_memory n f xs placed c
          (omega (arith, rounds_enough h.header heap_memory ((n, f) ∷ xs) c)) in
      (h₁, ap (λ p. coalesce_loop rounds p h) e ∙ run, u)
