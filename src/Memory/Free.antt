-- ===== src/Memory/Free.antt =====
-- `free` against the list of cells.
use bin_os_c.Base.{
  ℕ, ◌+◌, ◌<◌, ◌^◌, ◌≡◌, refl, ◌∙◌, ap, sym, inl, inr, Bool, true, false, some, [], ◌∷◌, arith,
  ◌==◌,
}
use bin_os_c.Memory.{Ptr, header_size, heap_size, Heap, set_free, free, coalesce, size_sub}
use bin_os_c.Memory.Cells.{Cells, release, merge, Holds}
use bin_os_c.Memory.Chain.{Chain, Chain-extent, Updates, Updates-cons, link, not_null, IsHeap, Kept}
use bin_os_c.Memory.Coalesce.{coalesce-merge}
use bin_os_c.Memory.Claim.{set_free-Updates}
use bin_os_c.Memory.Layout.{Holds-le, Holds-end}
use bin_os_c.Memory.Restore.{allocated-release}

link-release : (p q at : ℕ) (xs : Cells) → link q (release p at xs) ≡ link q xs
unfolding release
link-release p q at [] = refl
link-release p q at ((n, f) ∷ xs) = ground arith

module _ (limit : Ptr) (small : limit < 2 ^ 64) where
  set_free-release :
      (h : Heap) (at : ℕ) (xs : Cells) (p n : ℕ) (f : Bool)
      → Chain h.header limit at xs
      → Holds at xs p n f
      → (h' : Heap) × (set_free p true h ≡ some (tt, h'))
        × Updates limit h h' at xs (release p at xs)
  unfolding release
  set_free-release h at [] p n f c is = elim is [ ]
  set_free-release h at ((m, g) ∷ xs) p n f c (inl (e, e', e'')) =
      let here : (at == p) ≡ true = ground arith in
      let (h₁, run, u) = set_free-Updates limit small h at m g true xs c in
      (h₁, ap (λ q. set_free q true h) (sym e) ∙ run, rw here u)
  set_free-release h at ((m, g) ∷ xs) p n f c (inr is) =
      let behind : (at == p) ≡ false =
        ground (arith, Holds-le (at + header_size + m) xs p n f is) in
      let (h₁, run, u) = set_free-release h (at + header_size + m) xs p n f c.1 is in
      (h₁, run, rw behind (Updates-cons c (sym (link-release p _ _ xs)) u))

module _ (heap_memory : Ptr) (placed : 0 < heap_memory)
    (fits : heap_memory + heap_size < 2 ^ 64) where
  coalesce-IsHeap :
      (h : Heap) (xs : Cells)
      → IsHeap heap_memory h xs
      → (h' : Heap) × (coalesce h ≡ some (tt, h'))
        × IsHeap heap_memory h' (merge xs)
        × Kept heap_memory xs h h'
  coalesce-IsHeap h [] is = absurd (omega (arith, is.chain))
  coalesce-IsHeap h ((n, f) ∷ xs) is =
      let (h₁, run, u) = coalesce-merge heap_memory placed fits h n f xs is.start is.chain in
      (h₁, run, record { start = u.start ∙ is.start; chain = u.chain }, u.bytes)

  -- For a heap array that starts above address 0 and ends below 2^64: `free` of a pointer to a
  -- block of the chain ends, the chain afterwards has that block free and all runs of free
  -- neighbours joined, and the bytes of the other allocated blocks stay.
  pub free-merge :
      (h : Heap) (xs : Cells) (p n : ℕ) (f : Bool)
      → IsHeap heap_memory h xs
      → Holds heap_memory xs p n f
      → (h' : Heap) × (free (p + header_size) h ≡ some (tt, h'))
        × IsHeap heap_memory h' (merge (release p heap_memory xs))
        × Kept heap_memory (release p heap_memory xs) h h'
  unfolding free
  free-merge h xs p n f is holds =
      let (h₁, run, u) =
        set_free-release (heap_memory + heap_size) fits h heap_memory xs p n f is.chain holds in
      let (h₂, run', is', kept) =
        coalesce-IsHeap h₁ (release p heap_memory xs)
          (record { start = u.start ∙ is.start; chain = u.chain }) in
      let e : size_sub (p + header_size) header_size ≡ p = omega (
        arith,
        Holds-end heap_memory xs p n f holds,
        Chain-extent h.header _ heap_memory xs is.chain,
      ) in
      (
        h₂,
        rw (not_null (p + header_size) (omega arith), e, run) run',
        is',
        λ a i. kept a i ∙ u.bytes a (allocated-release p heap_memory xs a i),
      )
