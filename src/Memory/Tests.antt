-- ===== src/Memory/Tests.antt =====
-- Runs of the allocator on small heaps, and its theorems at them.
use bin_os_c.Base.{
  ℕ, ◌+◌, ◌≤◌, ◌<◌, ◌≡◌, refl, ◌⊎◌, true, false, none, some, [], ◌∷◌, arith, ◌==◌, if◌then◌else◌,
  Option, ◌≢◌, ◌^◌, inl,
}
use bin_os_c.Memory.{
  Ptr, null, block, header_size, heap_size, Heap, size_mul, malloc, free, calloc, realloc, memmove,
  store_header, rounds, get_heap_stats, Stats, find_loop, coalesce_loop, stats_loop, ◌>>=◌, pure, M,
  init_heap, ◌>>◌, store, load, start, set_start, both_free, absorb, find_free_block, split_block,
  write_split, set_free, claim, coalesce, ensure_heap,
}
use bin_os_c.Memory.Cells.{Cells, first_fit, allocate, release, merge, IsMerged}
use bin_os_c.Memory.Chain.{IsHeap, Kept}
use bin_os_c.Memory.Bytes.{WritesBytes, Copied, memmove-Copied}
use bin_os_c.Memory.Malloc.{payload, malloc-allocate, init_heap-IsHeap}
use bin_os_c.Memory.Free.{free-merge}
use bin_os_c.Memory.Calloc.{calloc-zero, realloc-move}
use bin_os_c.Memory.Client.{free-malloc, malloc_apart, initialised, Reach-IsHeap}

abbrev base : Ptr
base = 4096

-- Memory before anything runs.
abbrev blank : Heap
blank = record { heap_start = null; header = λ a. none; byte = λ a. none }

-- One block of 100 bytes is allocated; the rest is free.
abbrev two_blocks : Heap
two_blocks = record {
  heap_start = base;
  header = λ a.
      if a == 4096
      then some (block 100 false 4220)
      else if a == 4220
      then some (block 4194156 true null)
      else none;
  byte = λ a. if a == 4120 then some 7 else none;
}

abbrev two_cells : Cells
two_cells = (100, false) ∷ (4194156, true) ∷ []

two_blocks-IsHeap : IsHeap base two_blocks two_cells
two_blocks-IsHeap = record { start = refl; chain = (refl, (refl, refl)) }

two_cells-IsMerged : IsMerged two_cells
two_cells-IsMerged = (refl, (refl, tt))

-- `malloc` twice, `free` of the first block, and a `malloc` that takes its place.
abbrev reuse : M (Ptr × Ptr × Ptr × Stats)
reuse = do
  a ← malloc base 100
  b ← malloc base 200
  free a
  c ← malloc base 50
  s ← get_heap_stats
  pure (a, b, c, s)

-- Only the addresses and the counts of a run.
abbrev outcome : Option ((Ptr × Ptr × Ptr × Stats) × Heap) → Option (Ptr × Ptr × Ptr × Stats)
outcome none = none
outcome (some (r, h)) = some r

reuse_runs :
    outcome (reuse blank)
    ≡ some (4120, 4244, 4120, record { total_size = 4194304; used_size = 250; free_size = 4193958 })
unfolding malloc free get_heap_stats store store_header load start set_start rounds find_loop
    coalesce_loop stats_loop both_free absorb find_free_block split_block write_split set_free claim
    coalesce init_heap ensure_heap
reuse_runs = refl

placed : 0 < base
placed = omega arith

fits : base + heap_size < 2 ^ 64
fits = omega arith

found : first_fit base 200 two_cells ≢ null
unfolding first_fit
found = ground arith

malloc-allocate_example :
    (h' : Heap) × (malloc base 200 two_blocks ≡ some (payload (first_fit base 200 two_cells), h'))
    × IsHeap base h' (allocate 200 two_cells)
    × Kept base two_cells two_blocks h'
malloc-allocate_example =
    malloc-allocate base placed fits two_blocks 200 two_cells (omega arith) two_blocks-IsHeap

free-merge_example :
    (h' : Heap) × (free (4096 + header_size) two_blocks ≡ some (tt, h'))
    × IsHeap base h' (merge (release 4096 base two_cells))
    × Kept base (release 4096 base two_cells) two_blocks h'
free-merge_example =
    free-merge base placed fits two_blocks two_cells 4096 100 false two_blocks-IsHeap
      (inl (refl, refl, refl))

free-malloc_example :
    (r : Ptr) × (h₁ : Heap) × (h₂ : Heap) × (malloc base 200 two_blocks ≡ some (r, h₁))
    × (free r h₁ ≡ some (tt, h₂))
    × IsHeap base h₂ two_cells
    × Kept base two_cells two_blocks h₂
free-malloc_example =
    free-malloc base placed fits two_blocks 200 two_cells (omega arith) two_blocks-IsHeap
      two_cells-IsMerged found

-- The second cell is the first that is free and has 200 bytes.
abbrev after : Heap
after =
    (malloc-allocate base placed fits two_blocks 200 two_cells (omega arith) two_blocks-IsHeap).0

malloc_apart_example : (4096 + header_size + 100 + header_size ≤ 4244) ⊎ (4244 + 200 ≤ 4096)
unfolding first_fit
malloc_apart_example =
    malloc_apart base placed fits two_blocks after 200 4244 two_cells 4096 100 (omega arith)
      two_blocks-IsHeap (inl (refl, refl, refl))
      (malloc-allocate base placed fits two_blocks 200 two_cells (omega arith) two_blocks-IsHeap).1
      (ground arith)

Reach-IsHeap_example :
    (xs : Cells) × IsHeap base (init_heap-IsHeap base placed fits blank).0 xs × IsMerged xs
Reach-IsHeap_example = Reach-IsHeap base placed fits (
    initialised blank (init_heap-IsHeap base placed fits blank).0
      (init_heap-IsHeap base placed fits blank).1)

calloc-zero_example :
    let p = first_fit base (size_mul 10 4) two_cells in
    (h' : Heap) × (calloc base 10 4 two_blocks ≡ some (p + header_size, h'))
    × IsHeap base h' (allocate (size_mul 10 4) two_cells)
    × Kept base two_cells two_blocks h'
    × ((i : ℕ) → i < size_mul 10 4 → h'.byte (p + header_size + i) ≡ some 0)
unfolding first_fit
calloc-zero_example =
    calloc-zero base placed fits two_blocks 10 4 two_cells (omega arith) two_blocks-IsHeap
      (ground arith)

realloc-move_example :
    let q = first_fit base 400 two_cells in
    (h' : Heap) × (realloc base (4096 + header_size) 400 two_blocks ≡ some (q + header_size, h'))
    × IsHeap base h' (merge (release 4096 base (allocate 400 two_cells)))
    × Kept base (release 4096 base two_cells) two_blocks h'
    × ((i : ℕ) → i < 100 → h'.byte (q + header_size + i) ≡ two_blocks.byte (4096 + header_size + i))
unfolding first_fit
realloc-move_example =
    realloc-move base placed fits two_blocks 400 two_cells 4096 100 two_blocks-IsHeap
      (inl (refl, refl, refl)) (omega arith) (ground arith)

memmove-Copied_example :
    (h' : Heap) × (memmove 4125 4120 10 two_blocks ≡ some (4125, h'))
    × WritesBytes 4125 10 two_blocks h'
    × Copied 10 4125 4120 two_blocks h'
memmove-Copied_example = memmove-Copied 4125 4120 10 two_blocks
