-- ===== src/Memory/Malloc.antt =====
-- `init_heap`, `find_free_block` and `malloc` against the list of cells.
use bin_os_c.Base.{
  ℕ, ◌+◌, ◌-◌, ◌<◌, ◌^◌, ◌≡◌, refl, ◌∙◌, ap, ◌≢◌, true, false, some, [], ◌∷◌, arith, ◌==◌,
  if◌then◌else◌, Bool-cases, eq_of_==, inl, inr,
}
use bin_os_c.Memory.{
  Ptr, null, block, header_size, heap_size, Heap, pure, ◌>>◌, store_header, store, set_start,
  find_loop, claim, malloc, ensure_heap, init_heap, find_free_block, rounds, start, size_add,
}
use bin_os_c.Memory.Cells.{Cells, first_fit, allocate, allocate-null, first_fit-le}
use bin_os_c.Memory.Chain.{Chain-extent, not_null, IsHeap, Kept}
use bin_os_c.Memory.Coalesce.{rounds_enough}
use bin_os_c.Memory.Claim.{find_loop-first_fit, claim-allocate}

-- The pointer that `malloc` returns for a header, and for none.
abbrev pub payload : Ptr → Ptr
payload p = if p == null then null else p + header_size

-- One free cell that fills the array.
abbrev pub one_cell : Cells
one_cell = (heap_size - header_size, true) ∷ []

module _ (heap_memory : Ptr) (placed : 0 < heap_memory)
    (fits : heap_memory + heap_size < 2 ^ 64) where
  find_free_block-first_fit :
      (h : Heap) (size : ℕ) (xs : Cells)
      → IsHeap heap_memory h xs
      → find_free_block size h ≡ some (first_fit heap_memory size xs, h)
  unfolding find_free_block start
  find_free_block-first_fit h size [] is = absurd (omega (arith, is.chain))
  find_free_block-first_fit h size (x ∷ xs) is =
      ap (λ p. find_loop rounds size p h) is.start
      ∙ find_loop-first_fit (heap_memory + heap_size) h size rounds heap_memory (x ∷ xs) placed
          is.chain (rounds_enough h.header heap_memory (x ∷ xs) is.chain)

  pub init_heap-IsHeap :
      (h : Heap)
      → (h' : Heap) × (init_heap heap_memory h ≡ some (tt, h')) × IsHeap heap_memory h' one_cell
  unfolding init_heap set_start store store_header
  init_heap-IsHeap h = (
    store_header heap_memory (block (heap_size - header_size) true null)
        (record h { heap_start = heap_memory }),
    refl,
    record { start = refl; chain = (ground arith, omega arith) },
  )

  malloc-find :
      (h h₁ : Heap) (size : ℕ) (xs : Cells)
      → 0 < size
      → ensure_heap heap_memory h ≡ some (tt, h₁)
      → IsHeap heap_memory h₁ xs
      → malloc heap_memory size h ≡ (
          let b = first_fit heap_memory size xs in
          (if b == null then pure null else (do claim b size; pure (size_add b header_size))) h₁)
  unfolding malloc
  malloc-find h h₁ size xs pos ready is =
      rw (not_null size pos, ready, find_free_block-first_fit h₁ size xs is)

  malloc_from :
      (h h₁ : Heap) (size : ℕ) (xs : Cells)
      → 0 < size
      → ensure_heap heap_memory h ≡ some (tt, h₁)
      → IsHeap heap_memory h₁ xs
      → (h' : Heap) × (malloc heap_memory size h
          ≡ some (payload (first_fit heap_memory size xs), h'))
        × IsHeap heap_memory h' (allocate size xs)
        × Kept heap_memory xs h₁ h'
  malloc_from h h₁ size xs pos ready is =
      rw (malloc-find h h₁ size xs pos ready is)
        (elim (Bool-cases (first_fit heap_memory size xs == null)) [
          | inl none_fits ↦ (
            h₁,
            rw none_fits,
            rw (allocate-null heap_memory size xs placed (eq_of_== _ _ none_fits)) is,
            λ a i. refl,
          )
          | inr found ↦
              let found' : first_fit heap_memory size xs ≢ null = ground arith in
              let (h₂, run, u) =
                claim-allocate (heap_memory + heap_size) fits h₁ heap_memory size xs placed is.chain
                  found' in
              let e : size_add (first_fit heap_memory size xs) header_size
                  ≡ first_fit heap_memory size xs + header_size =
                omega (
                  arith,
                  first_fit-le heap_memory size xs found',
                  Chain-extent h₁.header _ heap_memory xs is.chain,
                ) in
              (
                h₂,
                rw (found, run, e),
                record { start = u.start ∙ is.start; chain = u.chain },
                u.bytes,
              )
        ])

  -- For a heap array that starts above address 0 and ends below 2^64, a heap of a chain of blocks
  -- and a positive size: `malloc` returns the payload of the first free block that is large
  -- enough, or NULL where there is none, the chain afterwards is the one of the abstract
  -- first-fit allocation, and every byte that was allocated stays.
  pub malloc-allocate :
      (h : Heap) (size : ℕ) (xs : Cells)
      → 0 < size
      → IsHeap heap_memory h xs
      → (h' : Heap) × (malloc heap_memory size h
          ≡ some (payload (first_fit heap_memory size xs), h'))
        × IsHeap heap_memory h' (allocate size xs)
        × Kept heap_memory xs h h'
  unfolding ensure_heap start
  malloc-allocate h size xs pos is =
      let started : (h.heap_start == null) ≡ false = ground (arith, is.start) in
      malloc_from h h size xs pos (rw started) is

  -- For a heap array that starts above address 0 and ends below 2^64: the first `malloc` of all,
  -- of a positive size, sets the heap up as one free block and then allocates from it.
  pub malloc-first :
      (h : Heap) (size : ℕ)
      → 0 < size
      → h.heap_start ≡ null
      → (h' : Heap) × (malloc heap_memory size h
          ≡ some (payload (first_fit heap_memory size one_cell), h'))
        × IsHeap heap_memory h' (allocate size one_cell)
  unfolding ensure_heap start
  malloc-first h size pos none_yet =
      let (h₁, run, is) = init_heap-IsHeap h in
      let fresh : (h.heap_start == null) ≡ true = ground (arith, none_yet) in
      let (h₂, run', is', kept) = malloc_from h h₁ size one_cell pos (rw fresh run) is in
      (h₂, run', is')
