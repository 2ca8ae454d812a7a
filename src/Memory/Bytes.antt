-- ===== src/Memory/Bytes.antt =====
-- `memset`, `memcpy` and `memmove`: the bytes afterwards, and the headers that they leave alone.
use bin_os_c.Base.{
  ℕ, zero, suc, ◌+◌, ◌-◌, ◌≤◌, ◌<◌, ◌%◌, ◌≡◌, refl, ◌⊎◌, inl, inr, false, some, arith, ltb,
  if◌then◌else◌, Bool-cases,
}
use bin_os_c.Memory.{
  Ptr, Heap, within, overlaps, store_byte, memset_loop, memset, memcpy_loop, memcpy, copy_down,
  memmove,
}

-- A change of the bytes from `p` up to `p + n` only.
pub record WritesBytes (p n : ℕ) (h h' : Heap) : Type 0 where
  pub start : h'.heap_start ≡ h.heap_start
  pub header : (a : Ptr) → overlaps p n a ≡ false → h'.header a ≡ h.header a
  pub outside : (a : Ptr) → within p n a ≡ false → h'.byte a ≡ h.byte a

-- What is copied from `src` to `dest`: the bytes as they were before.
abbrev pub Copied : ℕ → Ptr → Ptr → Heap → Heap → Type 0
Copied n dest src h h' = (i : ℕ) → i < n → h'.byte (dest + i) ≡ h.byte (src + i)

memset_loop-WritesBytes : (n p c : ℕ) (h : Heap) → WritesBytes p n h (memset_loop n p c h)
unfolding memset_loop store_byte
memset_loop-WritesBytes zero p c h = record {
  start = refl;
  header = λ a e. refl;
  outside = λ a e. refl;
}
memset_loop-WritesBytes (suc n) p c h =
    let rest = memset_loop-WritesBytes n (p + 1) c (store_byte p (some (c % 256)) h) in
    record {
      start = rest.start;
      header = λ a e. ground (arith, rest.header a);
      outside = λ a e. ground (arith, rest.outside a);
    }

memset_loop-byte :
    (n p c : ℕ) (h : Heap) (a : Ptr)
    → (memset_loop n p c h).byte a ≡ (if within p n a then some (c % 256) else h.byte a)
unfolding memset_loop store_byte
memset_loop-byte zero p c h a = ground arith
memset_loop-byte (suc n) p c h a =
    ground (arith, memset_loop-byte n (p + 1) c (store_byte p (some (c % 256)) h) a)

-- `memset` returns its pointer, makes the `n` bytes from there on the low byte of its argument,
-- and changes no other byte.
pub memset_lem :
    (s c n : ℕ) (h : Heap)
    → (h' : Heap) × (memset s c n h ≡ some (s, h'))
      × WritesBytes s n h h'
      × ((i : ℕ) → i < n → h'.byte (s + i) ≡ some (c % 256))
unfolding memset
memset_lem s c n h = (
  memset_loop n s c h,
  refl,
  memset_loop-WritesBytes n s c h,
  λ i lt. ground (arith, memset_loop-byte n s c h (s + i)),
)

memcpy_loop-WritesBytes :
    (n dest src : ℕ) (h : Heap) → WritesBytes dest n h (memcpy_loop n dest src h)
unfolding memcpy_loop store_byte
memcpy_loop-WritesBytes zero dest src h = record {
  start = refl;
  header = λ a e. refl;
  outside = λ a e. refl;
}
memcpy_loop-WritesBytes (suc n) dest src h =
    let rest = memcpy_loop-WritesBytes n (dest + 1) (src + 1) (store_byte dest (h.byte src) h) in
    record {
      start = rest.start;
      header = λ a e. ground (arith, rest.header a);
      outside = λ a e. ground (arith, rest.outside a);
    }

-- Upwards, the bytes arrive as they were where `dest` is not inside the source behind its start.
memcpy_loop-byte :
    (n dest src : ℕ) (h : Heap) (a : ℕ)
    → (dest ≤ src) ⊎ (src + n ≤ dest)
    → (memcpy_loop n dest src h).byte a
      ≡ (if within dest n a then h.byte (src + (a - dest)) else h.byte a)
unfolding memcpy_loop store_byte
memcpy_loop-byte zero dest src h a clear = ground arith
memcpy_loop-byte (suc n) dest src h a clear =
    ground (arith, memcpy_loop-byte n (dest + 1) (src + 1) (store_byte dest (h.byte src) h) a)

copy_down-WritesBytes : (n dest src : ℕ) (h : Heap) → WritesBytes dest n h (copy_down n dest src h)
unfolding copy_down store_byte
copy_down-WritesBytes zero dest src h = record {
  start = refl;
  header = λ a e. refl;
  outside = λ a e. refl;
}
copy_down-WritesBytes (suc n) dest src h =
    let rest = copy_down-WritesBytes n dest src (store_byte (dest + n) (h.byte (src + n)) h) in
    record {
      start = rest.start;
      header = λ a e. ground (arith, rest.header a);
      outside = λ a e. ground (arith, rest.outside a);
    }

-- Downwards, where the source is not inside the destination behind its start.
copy_down-byte :
    (n dest src : ℕ) (h : Heap) (a : ℕ)
    → src ≤ dest
    → (copy_down n dest src h).byte a
      ≡ (if within dest n a then h.byte (src + (a - dest)) else h.byte a)
unfolding copy_down store_byte
copy_down-byte zero dest src h a clear = ground arith
copy_down-byte (suc n) dest src h a clear =
    ground (arith, copy_down-byte n dest src (store_byte (dest + n) (h.byte (src + n)) h) a)

-- `memcpy` between ranges that do not overlap copies `n` bytes, returns `dest`, and changes no
-- byte outside the destination.
pub memcpy-Copied :
    (dest src n : ℕ) (h : Heap)
    → (dest + n ≤ src) ⊎ (src + n ≤ dest)
    → (h' : Heap) × (memcpy dest src n h ≡ some (dest, h'))
      × WritesBytes dest n h h'
      × Copied n dest src h h'
unfolding memcpy
memcpy-Copied dest src n h clear = (
  memcpy_loop n dest src h,
  refl,
  memcpy_loop-WritesBytes n dest src h,
  λ i lt. ground (arith, memcpy_loop-byte n dest src h (dest + i)),
)

-- `memmove` copies `n` bytes wherever the two ranges lie, overlapping ones too, returns `dest`,
-- and changes no byte outside the destination.
pub memmove-Copied :
    (dest src n : ℕ) (h : Heap)
    → (h' : Heap) × (memmove dest src n h ≡ some (dest, h'))
      × WritesBytes dest n h h'
      × Copied n dest src h h'
unfolding memmove
memmove-Copied dest src n h = elim (Bool-cases (ltb dest src)) [
  | inl up ↦ (
    memcpy_loop n dest src h,
    rw up,
    memcpy_loop-WritesBytes n dest src h,
    λ i lt. ground (arith, memcpy_loop-byte n dest src h (dest + i)),
  )
  | inr not_up ↦ elim (Bool-cases (ltb src dest)) [
    | inl down ↦ (
      copy_down n dest src h,
      rw (not_up, down),
      copy_down-WritesBytes n dest src h,
      λ i lt. ground (arith, copy_down-byte n dest src h (dest + i)),
    )
    | inr not_down ↦
        let e : dest ≡ src = ground arith in
        (
          h,
          rw (not_up, not_down),
          record { start = refl; header = λ a _. refl; outside = λ a _. refl },
          λ i lt. rw e,
        )
  ]
]
