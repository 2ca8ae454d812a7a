-- ===== src/Memory/Client.antt =====
-- What a caller of the allocator relies on: `malloc` with `free`, any sequence of calls, and
-- `get_heap_stats`.
use bin_os_c.Base.{
  ℕ, zero, suc, ◌+◌, ◌*◌, ◌≤◌, ◌<◌, ◌^◌, ◌≡◌, ◌≢◌, refl, ◌∙◌, ap, sym, ◌⊎◌, inl, inr, true, false,
  some, [], ◌∷◌, arith, length, ◌==◌, Bool-cases, eq_of_==,
}
use bin_os_c.Memory.{
  Ptr, null, header_size, heap_size, Heap, malloc, free, init_heap, start, rounds, size_add, Stats,
  stats_loop, get_heap_stats,
}
use bin_os_c.Memory.Cells.{
  Cells, extent, total, first_fit, allocate, release, merge, IsMerged, Holds, merge-IsMerged,
  allocated-merge,
}
use bin_os_c.Memory.Chain.{Chain, Chain-extent, load-some, link, not_null, IsHeap, Kept}
use bin_os_c.Memory.Coalesce.{rounds_enough}
use bin_os_c.Memory.Layout.{Holds-apart, allocate-Holds_found, first_fit-Holds}
use bin_os_c.Memory.Restore.{release-allocate, allocate-IsMerged, total-extent}
use bin_os_c.Memory.Malloc.{payload, one_cell, malloc-allocate, init_heap-IsHeap}
use bin_os_c.Memory.Free.{free-merge}

malloc-zero : (heap_memory : Ptr) (h : Heap) → malloc heap_memory 0 h ≡ some (null, h)
unfolding malloc
malloc-zero heap_memory h = refl

stats_loop-total :
    (limit : Ptr) (h : Heap) (k at used free_size : ℕ) (xs : Cells)
    → limit < 2 ^ 64
    → 0 < at
    → used + free_size + extent xs < 2 ^ 64
    → Chain h.header limit at xs
    → length xs < k
    → stats_loop k used free_size (link at xs) h
      ≡ some ((used + total false xs, free_size + total true xs), h)
unfolding stats_loop total extent
stats_loop-total limit h zero at used free_size xs small pos room c fuel = absurd (omega arith)
stats_loop-total limit h (suc k) at used free_size [] small pos room c fuel = ground arith
stats_loop-total limit h (suc k) at used free_size ((n, true) ∷ xs) small pos room c fuel =
    let e : size_add free_size n ≡ free_size + n = omega arith in
    rw (not_null at pos, load-some h at c.0, e)
      (stats_loop-total limit h k (at + header_size + n) used (free_size + n) xs small (omega arith)
          (omega arith) c.1 (omega arith)
        ∙ ground arith)
stats_loop-total limit h (suc k) at used free_size ((n, false) ∷ xs) small pos room c fuel =
    let e : size_add used n ≡ used + n = omega arith in
    rw (not_null at pos, load-some h at c.0, e)
      (stats_loop-total limit h k (at + header_size + n) (used + n) free_size xs small (omega arith)
          (omega arith) c.1 (omega arith)
        ∙ ground arith)

module _ (heap_memory : Ptr) (placed : 0 < heap_memory)
    (fits : heap_memory + heap_size < 2 ^ 64) where
  -- For a heap array that starts above address 0 and ends below 2^64, a heap of a chain of blocks
  -- and a positive size: a block that `malloc` returns shares no byte, headers included, with a
  -- block that was allocated before.
  pub malloc_apart :
      (h h' : Heap) (size r : ℕ) (xs : Cells) (p n : ℕ)
      → 0 < size
      → IsHeap heap_memory h xs
      → Holds heap_memory xs p n false
      → malloc heap_memory size h ≡ some (r, h')
      → r ≢ null
      → (p + header_size + n + header_size ≤ r) ⊎ (r + size ≤ p)
  malloc_apart h h' size r xs p n pos is holds run found =
      let q = first_fit heap_memory size xs in
      let (h₁, run', is', kept) = malloc-allocate heap_memory placed fits h size xs pos is in
      let e : payload q ≡ r = ground arith in
      let found' : q ≢ null = ground arith in
      let (m, le, free_cell) = first_fit-Holds heap_memory size xs found' in
      ground (arith, Holds-apart heap_memory xs p n false q m true holds free_cell)

  -- For a heap array that starts above address 0 and ends below 2^64, a heap of a chain of blocks
  -- in which no two free blocks are neighbours, and a positive size for which there is room:
  -- `free` of what `malloc` returned gives back the chain as it was and every allocated byte as
  -- it was.
  pub free-malloc :
      (h : Heap) (size : ℕ) (xs : Cells)
      → 0 < size
      → IsHeap heap_memory h xs
      → IsMerged xs
      → first_fit heap_memory size xs ≢ null
      → (r : Ptr) × (h₁ : Heap) × (h₂ : Heap) × (malloc heap_memory size h ≡ some (r, h₁))
        × (free r h₁ ≡ some (tt, h₂))
        × IsHeap heap_memory h₂ xs
        × Kept heap_memory xs h h₂
  free-malloc h size xs pos is merged found =
      let q = first_fit heap_memory size xs in
      let ys = allocate size xs in
      let (h₁, run, is₁, kept₁) = malloc-allocate heap_memory placed fits h size xs pos is in
      let (m, le, taken) = allocate-Holds_found heap_memory size xs found in
      let (h₂, run₂, is₂, kept₂) = free-merge heap_memory placed fits h₁ ys q m false is₁ taken in
      let restored = release-allocate heap_memory size xs merged found in
      (
        q + header_size,
        h₁,
        h₂,
        rw (not_null q (ground arith)) at run,
        run₂,
        rw restored at is₂,
        λ a i.
            kept₂ a (sym (allocated-merge heap_memory (release q heap_memory ys) a) ∙ rw restored i)
            ∙ kept₁ a i,
      )

  -- Heaps that calls of `malloc` and of `free` on allocated blocks lead to.
  pub data Reach : Heap → Type 0 where
    initialised : (h h' : Heap) → init_heap heap_memory h ≡ some (tt, h') → Reach h'
    allocates :
        (h h' : Heap) (size r : ℕ) → Reach h → malloc heap_memory size h ≡ some (r, h') → Reach h'
    frees :
        (h h' : Heap) (xs : Cells) (p n : ℕ)
        → Reach h
        → IsHeap heap_memory h xs
        → Holds heap_memory xs p n false
        → free (p + header_size) h ≡ some (tt, h')
        → Reach h'

  -- For a heap array that starts above address 0 and ends below 2^64: after `init_heap` and any
  -- sequence of successful calls of `malloc` and of `free` on allocated blocks, the blocks tile
  -- the array and no two free blocks are neighbours.
  pub Reach-IsHeap : {h : Heap} → Reach h → (xs : Cells) × IsHeap heap_memory h xs × IsMerged xs
  Reach-IsHeap (initialised h h' run) =
      let (h₁, run', is) = init_heap-IsHeap heap_memory placed fits h in
      let e : h₁ ≡ h' = ground arith in (one_cell, rw (← e) is, (refl, tt))
  Reach-IsHeap (allocates h h' size r before run) =
      let (xs, is, merged) = Reach-IsHeap before in
      elim (Bool-cases (size == 0)) [
        | inl nothing ↦
            let e : h ≡ h' = ground (arith, malloc-zero heap_memory h, eq_of_== size 0 nothing) in
            (xs, rw (← e) is, merged)
        | inr something ↦
            let (h₁, run', is', kept) =
              malloc-allocate heap_memory placed fits h size xs (ground arith) is in
            let e : h₁ ≡ h' = ground arith in
            (allocate size xs, rw (← e) is', allocate-IsMerged size xs merged)
      ]
  Reach-IsHeap (frees h h' xs p n before is holds run) =
      let (h₁, run', is', kept) = free-merge heap_memory placed fits h xs p n false is holds in
      let e : h₁ ≡ h' = ground arith in
      (merge (release p heap_memory xs), rw (← e) is', merge-IsMerged (release p heap_memory xs))

  -- For a heap array that starts above address 0 and ends below 2^64 and a heap of a chain of
  -- blocks: `get_heap_stats` returns the bytes in allocated and in free blocks, which with the
  -- headers add up to the whole array.
  pub get_heap_stats-total :
      (h : Heap) (xs : Cells)
      → IsHeap heap_memory h xs
      → (s : Stats) × (get_heap_stats h ≡ some (s, h))
        × (s.total_size ≡ heap_size)
        × (s.used_size ≡ total false xs)
        × (s.free_size ≡ total true xs)
        × (header_size * length xs + s.used_size + s.free_size ≡ s.total_size)
  unfolding get_heap_stats start
  get_heap_stats-total h [] is = absurd (omega (arith, is.chain))
  get_heap_stats-total h (x ∷ xs) is =
      let started : (h.heap_start == null) ≡ false = ground (arith, is.start) in
      let whole = Chain-extent h.header _ heap_memory (x ∷ xs) is.chain in
      let run =
        ap (λ p. stats_loop rounds 0 0 p h) is.start
        ∙ stats_loop-total (heap_memory + heap_size) h rounds heap_memory 0 0 (x ∷ xs) fits placed
            (omega arith) is.chain (rounds_enough h.header heap_memory (x ∷ xs) is.chain) in
      (
        record {
          total_size = heap_size;
          used_size = 0 + total false (x ∷ xs);
          free_size = 0 + total true (x ∷ xs);
        },
        rw (started, run),
        refl,
        omega arith,
        omega arith,
        omega (arith, total-extent (x ∷ xs)),
      )
