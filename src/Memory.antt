-- ===== src/Memory.antt =====
-- kernel/src/memory.c: the heap, a chain of blocks in one array.
pub mod Bytes
pub mod Calloc
pub mod Cells
pub mod Claim
pub mod Chain
pub mod Client
pub mod Coalesce
pub mod Free
pub mod Layout
pub mod Malloc
pub mod Restore
mod Tests
use bin_os_c.Base.{
  ℕ, zero, suc, ◌+◌, ◌-◌, ◌*◌, ◌%◌, ◌^◌, Bool, true, false, ◌&&◌, Option, none, some, ltb, leb,
  ◌==◌, if◌then◌else◌,
}

abbrev pub Ptr : Type 0
Ptr = ℕ

abbrev pub null : Ptr
null = 0

-- `block_t`.
pub record Block : Type 0 where
  pub size : ℕ
  pub is_free : Bool
  pub next : Ptr

abbrev pub block : ℕ → Bool → Ptr → Block
block n f q = record { size = n; is_free = f; next = q }

-- `sizeof(block_t)`: 8 bytes, 4 bytes with 4 of padding, 8 bytes.
abbrev pub header_size : ℕ
header_size = 24

abbrev pub heap_size : ℕ
heap_size = 4096 * 1024

-- Memory by what is stored at an address: a header that starts there, or a byte of data. A write
-- of either kind makes unreadable what it overlaps.
pub record Heap : Type 0 where
  pub heap_start : Ptr
  pub header : Ptr → Option Block
  pub byte : Ptr → Option ℕ

-- Is `a` one of the `n` bytes from `p` on?
abbrev pub within : Ptr → ℕ → Ptr → Bool
within p n a = leb p a && ltb a (p + n)

-- Does a header at `a` share a byte with the `n` bytes from `p` on?
abbrev pub overlaps : Ptr → ℕ → Ptr → Bool
overlaps p n a = ltb p (a + header_size) && ltb a (p + n)

-- `*p = b`
unfoldable pub store_header : Ptr → Block → Heap → Heap
store_header p b h = record h {
  header = λ a. if a == p then some b else if overlaps p header_size a then none else h.header a;
  byte = λ a. if within p header_size a then none else h.byte a;
}

-- `*p = v` for a `uint8_t *p`
unfoldable pub store_byte : Ptr → Option ℕ → Heap → Heap
store_byte p v h = record h {
  header = λ a. if overlaps p 1 a then none else h.header a;
  byte = λ a. if a == p then v else h.byte a;
}

abbrev pub M : Type 0 → Type 0
M A = Heap → Option (A × Heap)

abbrev pub pure : {A : Type 0} → A → M A
pure a h = some (a, h)

abbrev pub continue : {A B : Type 0} → Option (A × Heap) → (A → M B) → Option (B × Heap)
continue none f = none
continue (some (a, h)) f = f a h

infixl 5 ◌>>=◌ ◌>>◌
abbrev pub ◌>>=◌ : {A B : Type 0} → M A → (A → M B) → M B
m >>= f = λ h. continue (m h) f

abbrev pub ◌>>◌ : {A B : Type 0} → M A → M B → M B
m >> k = m >>= λ _. k

-- `*p` of a header
unfoldable pub load : Ptr → M Block
load p h = elim (h.header p) [ none ↦ none | some b ↦ some (b, h) ]

unfoldable pub store : Ptr → Block → M (Unit {0})
store p b h = some (tt, store_header p b h)

unfoldable pub start : M Ptr
start h = some (h.heap_start, h)

unfoldable pub set_start : Ptr → M (Unit {0})
set_start p h = some (tt, record h { heap_start = p })

-- `size_t` arithmetic.
abbrev pub size_add : ℕ → ℕ → ℕ
size_add a b = (a + b) % 2 ^ 64

abbrev pub size_sub : ℕ → ℕ → ℕ
size_sub a b = (a + 2 ^ 64 - b) % 2 ^ 64

abbrev pub size_mul : ℕ → ℕ → ℕ
size_mul a b = (a * b) % 2 ^ 64

-- Each loop over the blocks is given more rounds than the array has room for headers.
unfoldable pub rounds : ℕ
rounds = 174763

pub find_loop : ℕ → ℕ → Ptr → M Ptr
find_loop zero size current = λ h. none
find_loop (suc k) size current = if current == null then pure null else do
  b ← load current
  if b.is_free && leb size b.size then pure current else find_loop k size b.next

unfoldable pub find_free_block : ℕ → M Ptr
unfolding find_loop
find_free_block size = do p ← start; find_loop rounds size p

-- The header that is stored behind the `size` bytes that are kept.
unfoldable pub write_split : Ptr → ℕ → Block → M (Unit {0})
write_split p size b = do
  let new_block = size_add p (size_add header_size size)
  store new_block (block (size_sub b.size (size_add size header_size)) true b.next)
  store p (record b { size = size; next = new_block })

unfoldable pub split_block : Ptr → ℕ → M (Unit {0})
split_block p size = do
  b ← load p
  if ltb (size_add size header_size) b.size then write_split p size b else pure tt

unfoldable pub set_free : Ptr → Bool → M (Unit {0})
set_free p f = do b ← load p; store p (record b { is_free = f })

-- What `malloc` does to the block that it has found.
unfoldable pub claim : Ptr → ℕ → M (Unit {0})
claim p size = do split_block p size; set_free p false

-- The block at `p` takes in the block behind it.
unfoldable pub absorb : Ptr → M (Unit {0})
absorb p = do
  b ← load p
  n ← load b.next
  store p (record b { size = size_add b.size (size_add n.size header_size); next = n.next })

-- `current->next->is_free` is read only where `current->is_free` holds.
unfoldable pub both_free : Block → M Bool
both_free b = if b.is_free then (do n ← load b.next; pure n.is_free) else pure false

pub coalesce_loop : ℕ → Ptr → M (Unit {0})
coalesce_loop zero current = λ h. none
coalesce_loop (suc k) current = if current == null then pure tt else do
  b ← load current
  if b.next == null then pure tt else do
    joined ← both_free b
    if joined then absorb current >> coalesce_loop k current else coalesce_loop k b.next

unfoldable pub coalesce : M (Unit {0})
unfolding coalesce_loop
coalesce = do p ← start; coalesce_loop rounds p

-- `for (i = 0; i < n; i++) p[i] = (uint8_t)c;` with `left` rounds to go.
unfoldable pub memset_loop : ℕ → Ptr → ℕ → Heap → Heap
memset_loop zero p c h = h
memset_loop (suc left) p c h = memset_loop left (p + 1) c (store_byte p (some (c % 256)) h)

unfoldable pub memset : Ptr → ℕ → ℕ → M Ptr
memset s c n h = some (s, memset_loop n s c h)

-- A copy of a byte that was never written is such a byte.
unfoldable pub memcpy_loop : ℕ → Ptr → Ptr → Heap → Heap
memcpy_loop zero dest src h = h
memcpy_loop (suc left) dest src h =
    memcpy_loop left (dest + 1) (src + 1) (store_byte dest (h.byte src) h)

unfoldable pub memcpy : Ptr → Ptr → ℕ → M Ptr
memcpy dest src n h = some (dest, memcpy_loop n dest src h)

-- `for (i = n; i > 0; i--) pdest[i-1] = psrc[i-1];`
unfoldable pub copy_down : ℕ → Ptr → Ptr → Heap → Heap
copy_down zero dest src h = h
copy_down (suc i) dest src h = copy_down i dest src (store_byte (dest + i) (h.byte (src + i)) h)

unfoldable pub memmove : Ptr → Ptr → ℕ → M Ptr
memmove dest src n h =
    if ltb dest src
    then some (dest, memcpy_loop n dest src h)
    else if ltb src dest
    then some (dest, copy_down n dest src h)
    else some (dest, h)

-- `*used_size` and `*free_size` are the two accumulators.
pub stats_loop : ℕ → ℕ → ℕ → Ptr → M (ℕ × ℕ)
stats_loop zero used free_size current = λ h. none
stats_loop (suc k) used free_size current = if current == null then pure (used, free_size) else do
  b ← load current
  stats_loop k (if b.is_free then used else size_add used b.size)
      (if b.is_free then size_add free_size b.size else free_size) b.next

pub record Stats : Type 0 where
  pub total_size : ℕ
  pub used_size : ℕ
  pub free_size : ℕ

unfoldable pub get_heap_stats : M Stats
unfolding stats_loop
get_heap_stats = do
  p ← start
  if p == null then pure (record { total_size = 0; used_size = 0; free_size = 0 }) else do
    (used, free_size) ← stats_loop rounds 0 0 p
    pure (record { total_size = heap_size; used_size = used; free_size = free_size })

unfoldable pub free : Ptr → M (Unit {0})
free ptr =
    if ptr == null then pure tt else do let p = size_sub ptr header_size; set_free p true; coalesce

-- `heap_memory` is the address that the linker gives the array.
module _ (heap_memory : Ptr) where
  unfoldable pub init_heap : M (Unit {0})
  init_heap = do
    set_start heap_memory
    store heap_memory (block (size_sub heap_size header_size) true null)

  unfoldable pub ensure_heap : M (Unit {0})
  ensure_heap = do p ← start; if p == null then init_heap else pure tt

  unfoldable pub malloc : ℕ → M Ptr
  malloc size = if size == 0 then pure null else do
    ensure_heap
    b ← find_free_block size
    if b == null then pure null else (do claim b size; pure (size_add b header_size))

  unfoldable pub calloc : ℕ → ℕ → M Ptr
  calloc num size = do
    let total_size = size_mul num size
    ptr ← malloc total_size
    if ptr == null then pure ptr else (do memset ptr 0 total_size; pure ptr)

  -- The branch of `realloc` in which the block is too small.
  unfoldable pub move_block : Ptr → ℕ → M Ptr
  move_block ptr size = do
    new_ptr ← malloc size
    if new_ptr == null then pure new_ptr else do
      b ← load (size_sub ptr header_size)
      memcpy new_ptr ptr (if ltb b.size size then b.size else size)
      free ptr
      pure new_ptr

  unfoldable pub realloc : Ptr → ℕ → M Ptr
  realloc ptr size =
      if ptr == null then malloc size else if size == 0 then free ptr >> pure null else do
        b ← load (size_sub ptr header_size)
        if leb size b.size then pure ptr else move_block ptr size
