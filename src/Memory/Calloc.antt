-- ===== src/Memory/Calloc.antt =====
-- `calloc` and `realloc`: writing into a cell's own bytes leaves the chain alone.
use bin_os_c.Base.{
  ℕ, ◌+◌, ◌≤◌, ◌<◌, ◌^◌, ◌≡◌, ◌≢◌, refl, ◌∙◌, ap, sym, ◌⊎◌, inl, inr, Bool, true, false, Option,
  some, [], ◌∷◌, arith, leb, ltb, ◌==◌, Bool-cases,
}
use bin_os_c.Memory.{
  Ptr, null, Block, block, header_size, heap_size, Heap, within, overlaps, size_mul, load, calloc,
  malloc, realloc, move_block, memcpy, free, size_sub,
}
use bin_os_c.Memory.Cells.{Cells, allocated, first_fit, allocate, release, merge, Holds}
use bin_os_c.Memory.Chain.{Chain, Chain-extent, load-some, link, not_null, IsHeap, Kept}
use bin_os_c.Memory.Layout.{
  Holds-end, Holds-apart, Holds-allocated, allocate-Holds, first_fit-Holds, allocate-Holds_found,
}
use bin_os_c.Memory.Malloc.{malloc-allocate}
use bin_os_c.Memory.Free.{free-merge}
use bin_os_c.Memory.Bytes.{WritesBytes, memset_lem, memcpy-Copied}
use bin_os_c.Memory.Restore.{Holds-of_release, allocated-release, release-Holds}

-- Only the headers of the cells themselves matter to a chain.
Chain-headers :
    (hd hd' : Ptr → Option Block) (limit at : Ptr) (xs : Cells)
    → Chain hd limit at xs
    → ((q m : ℕ) (g : Bool) → Holds at xs q m g → hd' q ≡ hd q)
    → Chain hd' limit at xs
Chain-headers hd hd' limit at [] c same = c
Chain-headers hd hd' limit at ((n, f) ∷ xs) c same = (
  same at n f (inl (refl, refl, refl)) ∙ c.0,
  Chain-headers hd hd' limit (at + header_size + n) xs c.1 λ q m g is. same q m g (inr is),
)

Chain-load :
    (hd : Ptr → Option Block) (limit at : Ptr) (xs : Cells) (p n : ℕ) (f : Bool)
    → Chain hd limit at xs
    → Holds at xs p n f
    → (b : Block) × (hd p ≡ some b) × (b.size ≡ n)
Chain-load hd limit at [] p n f c is = elim is [ ]
Chain-load hd limit at ((m, g) ∷ xs) p n f c (inl (e, e', e'')) =
    (block m g (link (at + header_size + m) xs), ap hd (sym e) ∙ c.0, e')
Chain-load hd limit at ((m, g) ∷ xs) p n f c (inr is) =
    Chain-load hd limit (at + header_size + m) xs p n f c.1 is

-- An allocated byte lies in some allocated cell.
allocated-Holds :
    (at : ℕ) (xs : Cells) (a : ℕ)
    → allocated at xs a ≡ true
    → (q : ℕ) × (m : ℕ) × Holds at xs q m false × (q + header_size ≤ a) × (a < q + header_size + m)
unfolding allocated
allocated-Holds at [] a h = absurd (ground arith)
allocated-Holds at ((n, true) ∷ xs) a h =
    let (q, m, is, le, lt) = allocated-Holds (at + header_size + n) xs a h in (q, m, inr is, le, lt)
allocated-Holds at ((n, false) ∷ xs) a h = elim (Bool-cases (within (at + header_size) n a)) [
  | inl here ↦ (at, n, inl (refl, refl, refl), ground arith, ground arith)
  | inr behind ↦
      let (q, m, is, le, lt) = allocated-Holds (at + header_size + n) xs a (ground arith) in
      (q, m, inr is, le, lt)
]

-- The way through `realloc` that moves the block.
realloc-run :
    (heap_memory : Ptr) (h h₁ h₂ h₃ : Heap) (ptr new size n : ℕ) (b b₁ : Block)
    → 0 < ptr
    → 0 < new
    → load (size_sub ptr header_size) h ≡ some (b, h)
    → b.size ≡ n
    → malloc heap_memory size h ≡ some (new, h₁)
    → load (size_sub ptr header_size) h₁ ≡ some (b₁, h₁)
    → b₁.size ≡ n
    → n < size
    → memcpy new ptr n h₁ ≡ some (new, h₂)
    → free ptr h₂ ≡ some (tt, h₃)
    → realloc heap_memory ptr size h ≡ some (new, h₃)
unfolding realloc move_block
realloc-run heap_memory h h₁ h₂ h₃ ptr new size n b b₁ pos pos' l s m l' s' lt c f =
    let small : leb size b.size ≡ false = ground arith in
    let smaller : ltb b₁.size size ≡ true = ground arith in
    let e : (ptr == null) ≡ false = not_null ptr pos in
    let e' : (size == 0) ≡ false = not_null size (omega arith) in
    let e'' : (new == null) ≡ false = not_null new pos' in
    rw (e, e', l, small, m, e'', l', smaller, s', c, f)

module _ (heap_memory : Ptr) where
  -- Bytes written inside a cell leave the list of cells as it is.
  WritesBytes-IsHeap :
      (h h' : Heap) (xs : Cells) (p n k : ℕ) (f : Bool)
      → IsHeap heap_memory h xs
      → Holds heap_memory xs p n f
      → k ≤ n
      → WritesBytes (p + header_size) k h h'
      → IsHeap heap_memory h' xs
  WritesBytes-IsHeap h h' xs p n k f is holds le w = record {
    start = w.start ∙ is.start;
    chain =
        Chain-headers h.header h'.header _ heap_memory xs is.chain
          λ q m g other. w.header q (clear q m g other);
  }
    where
      clear :
          (q m : ℕ) (g : Bool) → Holds heap_memory xs q m g → overlaps (p + header_size) k q ≡ false
      clear q m g other = ground (arith, Holds-apart heap_memory xs p n f q m g holds other)

  -- They are no bytes of any cell that was allocated, if the cell was free.
  WritesBytes-Kept :
      (h h' : Heap) (xs : Cells) (p n k : ℕ)
      → Holds heap_memory xs p n true
      → k ≤ n
      → WritesBytes (p + header_size) k h h'
      → Kept heap_memory xs h h'
  WritesBytes-Kept h h' xs p n k holds le w a i =
      let (q, m, other, ge, lt) = allocated-Holds heap_memory xs a i in
      w.outside a (ground (arith, Holds-apart heap_memory xs p n true q m false holds other))

  module _ (placed : 0 < heap_memory) (fits : heap_memory + heap_size < 2 ^ 64) where
    -- For a heap array that starts above address 0 and ends below 2^64, a heap of a chain of
    -- blocks, and a product of count and size that is positive modulo 2^64 and for which there is
    -- room: `calloc` returns that many zero bytes, with the product taken modulo 2^64, and keeps
    -- every byte that was allocated.
    pub calloc-zero :
        (h : Heap) (num size : ℕ) (xs : Cells)
        → 0 < size_mul num size
        → IsHeap heap_memory h xs
        → first_fit heap_memory (size_mul num size) xs ≢ null
        → let p = first_fit heap_memory (size_mul num size) xs in
          (h' : Heap) × (calloc heap_memory num size h ≡ some (p + header_size, h'))
          × IsHeap heap_memory h' (allocate (size_mul num size) xs)
          × Kept heap_memory xs h h'
          × ((i : ℕ) → i < size_mul num size → h'.byte (p + header_size + i) ≡ some 0)
    unfolding calloc
    calloc-zero h num size xs pos is found =
        let total_size = size_mul num size in
        let p = first_fit heap_memory total_size xs in
        let (h₁, run, is₁, kept₁) =
          malloc-allocate heap_memory placed fits h total_size xs pos is in
        let (h₂, run₂, w, zeros) = memset_lem (p + header_size) 0 total_size h₁ in
        let (n, le, holds) = first_fit-Holds heap_memory total_size xs found in
        let (m, le', holds') = allocate-Holds_found heap_memory total_size xs found in
        let kept₂ = WritesBytes-Kept h₁ h₂ xs p n total_size holds le w in
        let e : (p == null) ≡ false = not_null p (ground arith) in
        let run' : malloc heap_memory total_size h ≡ some (p + header_size, h₁) = rw e at run in
        (
          h₂,
          rw (run', not_null (p + header_size) (omega arith), run₂),
          WritesBytes-IsHeap h₁ h₂ (allocate total_size xs) p m total_size false is₁ holds' le' w,
          λ a i. kept₂ a i ∙ kept₁ a i,
          zeros,
        )

    load-size :
        (h : Heap) (xs : Cells) (p n : ℕ) (f : Bool)
        → IsHeap heap_memory h xs
        → Holds heap_memory xs p n f
        → (b : Block) × (load (size_sub (p + header_size) header_size) h ≡ some (b, h))
          × (b.size ≡ n)
    load-size h xs p n f is holds =
        let (b, e, sized) = Chain-load h.header _ heap_memory xs p n f is.chain holds in
        let e' : size_sub (p + header_size) header_size ≡ p = omega (
          arith,
          Holds-end heap_memory xs p n f holds,
          Chain-extent h.header _ heap_memory xs is.chain,
        ) in
        (b, rw e' (load-some h p e), sized)

    -- For a heap array that starts above address 0 and ends below 2^64 and a heap of a chain of
    -- blocks: `realloc` of an allocated block to a positive size that it has room for returns the
    -- block and changes nothing.
    pub realloc-same :
        (h : Heap) (size : ℕ) (xs : Cells) (p n : ℕ)
        → 0 < size
        → IsHeap heap_memory h xs
        → Holds heap_memory xs p n false
        → size ≤ n
        → realloc heap_memory (p + header_size) size h ≡ some (p + header_size, h)
    unfolding realloc
    realloc-same h size xs p n pos is holds le =
        let (b, run, sized) = load-size h xs p n false is holds in
        let enough : leb size b.size ≡ true = ground arith in
        rw (not_null (p + header_size) (omega arith), not_null size pos, run, enough)

    -- A cell that is taken is none that was allocated.
    found_apart :
        (size : ℕ) (xs : Cells) (p n : ℕ)
        → Holds heap_memory xs p n false
        → first_fit heap_memory size xs ≢ null
        → (p + header_size + n ≤ first_fit heap_memory size xs)
          ⊎ (first_fit heap_memory size xs + header_size + size ≤ p)
    found_apart size xs p n holds found =
        let (m, le, free_cell) = first_fit-Holds heap_memory size xs found in
        ground (
          arith,
          Holds-apart heap_memory xs p n false (first_fit heap_memory size xs) m true holds
              free_cell,
        )

    allocated_elsewhere :
        (size : ℕ) (xs : Cells) (p : ℕ) (a : Ptr)
        → allocated heap_memory (release p heap_memory xs) a ≡ true
        → allocated heap_memory (release p heap_memory (allocate size xs)) a ≡ true
    allocated_elsewhere size xs p a i =
        let (q, m, remains, ge, lt) = allocated-Holds heap_memory (release p heap_memory xs) a i in
        let (holds, other) = Holds-of_release p heap_memory xs q m remains in
        let kept = allocate-Holds heap_memory size xs q m holds in
        Holds-allocated heap_memory (release p heap_memory (allocate size xs)) q m a
          (release-Holds p heap_memory (allocate size xs) q m (λ e. other (sym e)) kept) ge lt

    -- For a heap array that starts above address 0 and ends below 2^64, a heap of a chain of
    -- blocks and an allocated block smaller than the size asked for, for which there is room:
    -- `realloc` returns a new block with the old block's bytes in front, frees the old one, and
    -- keeps the bytes of every other allocated block.
    pub realloc-move :
        (h : Heap) (size : ℕ) (xs : Cells) (p n : ℕ)
        → IsHeap heap_memory h xs
        → Holds heap_memory xs p n false
        → n < size
        → first_fit heap_memory size xs ≢ null
        → let q = first_fit heap_memory size xs in
          (h' : Heap) × (realloc heap_memory (p + header_size) size h ≡ some (q + header_size, h'))
          × IsHeap heap_memory h' (merge (release p heap_memory (allocate size xs)))
          × Kept heap_memory (release p heap_memory xs) h h'
          × ((i : ℕ) → i < n → h'.byte (q + header_size + i) ≡ h.byte (p + header_size + i))
    realloc-move h size xs p n is holds lt found =
        let q = first_fit heap_memory size xs in
        let ys = allocate size xs in
        let (b, run₀, sized₀) = load-size h xs p n false is holds in
        let (h₁, run₁, is₁, kept₁) =
          malloc-allocate heap_memory placed fits h size xs (omega arith) is in
        let run₁' : malloc heap_memory size h ≡ some (q + header_size, h₁) =
          rw (not_null q (ground arith)) at run₁ in
        let holds₁ = allocate-Holds heap_memory size xs p n holds in
        let (b₁, run_load, sized) = load-size h₁ ys p n false is₁ holds₁ in
        let apart_cells = found_apart size xs p n holds found in
        let (h₂, run₂, w, copied) =
          memcpy-Copied (q + header_size) (p + header_size) n h₁ (ground arith) in
        let (m₀, le₀, free_cell) = first_fit-Holds heap_memory size xs found in
        let (m, le, taken) = allocate-Holds_found heap_memory size xs found in
        let is₂ = WritesBytes-IsHeap h₁ h₂ ys q m n false is₁ taken (omega arith) w in
        let kept₂ = WritesBytes-Kept h₁ h₂ xs q m₀ n free_cell (omega arith) w in
        let (h₃, run₃, is₃, kept₃) =
          free-merge heap_memory placed fits h₂ ys p n false is₂ holds₁ in
        let run =
          realloc-run heap_memory h h₁ h₂ h₃ (p + header_size) (q + header_size) size n b b₁ in
        let new_allocated = λ (i : ℕ) (lt' : i < n).
          Holds-allocated heap_memory (release p heap_memory ys) q m (q + header_size + i)
            (release-Holds p heap_memory ys q m (omega arith) taken) (omega arith) (omega arith) in
        (
          h₃,
          run (omega arith) (omega arith) run₀ sized₀ run₁' run_load sized lt run₂ run₃,
          is₃,
          λ a i.
              kept₃ a (allocated_elsewhere size xs p a i)
              ∙ kept₂ a (allocated-release p heap_memory xs a i)
              ∙ kept₁ a (allocated-release p heap_memory xs a i),
          λ i lt'.
              kept₃ (q + header_size + i) (new_allocated i lt')
              ∙ copied i lt'
              ∙ kept₁ (p + header_size + i) (
                  Holds-allocated heap_memory xs p n (p + header_size + i) holds (omega arith)
                    (omega arith)),
        )
