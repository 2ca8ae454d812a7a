-- ===== src/Memory/Chain.antt =====
-- Headers in memory that stand for a list of cells, and the change that an operation makes to them.
use bin_os_c.Base.{
  ℕ, ◌+◌, ◌≤◌, ◌<◌, ◌≡◌, refl, ◌∙◌, Bool, true, false, Option, some, [], ◌∷◌, arith, ◌==◌,
}
use bin_os_c.Memory.{Ptr, null, Block, block, header_size, heap_size, Heap, store_header, load}
use bin_os_c.Memory.Cells.{Cells, extent, allocated, allocated-le, merge, join}

-- The `next` pointer of the cell before `xs`.
abbrev pub link : Ptr → Cells → Ptr
link at [] = null
link at (x ∷ xs) = at

-- From `at` on the headers are those of `xs`, each right behind the bytes of the one before, and
-- the last cell ends at `limit`.
abbrev pub Chain : (Ptr → Option Block) → Ptr → Ptr → Cells → Type 0
Chain hd limit at [] = at ≡ limit
Chain hd limit at ((n, f) ∷ xs) =
    (hd at ≡ some (block n f (link (at + header_size + n) xs)))
    × Chain hd limit (at + header_size + n) xs

pub Chain-extent :
    (hd : Ptr → Option Block) (limit at : Ptr) (xs : Cells)
    → Chain hd limit at xs
    → at + extent xs ≡ limit
unfolding extent
Chain-extent hd limit at [] c = omega arith
Chain-extent hd limit at ((n, f) ∷ xs) c =
    omega (arith, Chain-extent hd limit (at + header_size + n) xs c.1)

-- Headers from `at` on are all that a chain depends on.
pub Chain-frame :
    (hd hd' : Ptr → Option Block) (limit at : Ptr) (xs : Cells)
    → Chain hd limit at xs
    → ((a : Ptr) → at ≤ a → hd' a ≡ hd a)
    → Chain hd' limit at xs
Chain-frame hd hd' limit at [] c same = c
Chain-frame hd hd' limit at ((n, f) ∷ xs) c same = (
  same at (omega arith) ∙ c.0,
  Chain-frame hd hd' limit (at + header_size + n) xs c.1 λ a le. same a (omega arith),
)

-- What an operation on the cells from `at` on leaves behind: the chain of `ys`, the headers in
-- front of `at`, the bytes there, and every byte that was allocated.
pub record Updates (limit : Ptr) (h h' : Heap) (at : Ptr) (xs ys : Cells) : Type 0 where
  pub chain : Chain h'.header limit at ys
  pub below : (a : Ptr) → a + header_size ≤ at → h'.header a ≡ h.header a
  pub front : (a : Ptr) → a < at → h'.byte a ≡ h.byte a
  pub bytes : (a : Ptr) → allocated at xs a ≡ true → h'.byte a ≡ h.byte a
  pub start : h'.heap_start ≡ h.heap_start

pub Updates-refl :
    {limit : Ptr} {h : Heap} {at : Ptr} {xs : Cells}
    → Chain h.header limit at xs
    → Updates limit h h at xs xs
Updates-refl c = record {
  chain = c;
  below = λ a le. refl;
  front = λ a lt. refl;
  bytes = λ a i. refl;
  start = refl;
}

pub Updates-trans :
    {limit : Ptr} {h h' h'' : Heap} {at : Ptr} {xs ys zs : Cells}
    → Updates limit h h' at xs ys
    → ((a : Ptr) → allocated at xs a ≡ true → allocated at ys a ≡ true)
    → Updates limit h' h'' at ys zs
    → Updates limit h h'' at xs zs
Updates-trans u kept v = record {
  chain = v.chain;
  below = λ a le. v.below a le ∙ u.below a le;
  front = λ a lt. v.front a lt ∙ u.front a lt;
  bytes = λ a i. v.bytes a (kept a i) ∙ u.bytes a i;
  start = v.start ∙ u.start;
}

-- A change behind the first cell is a change of the whole.
pub Updates-cons :
    {limit : Ptr} {h h' : Heap} {at n : ℕ} {f : Bool} {xs ys : Cells}
    → Chain h.header limit at ((n, f) ∷ xs)
    → link (at + header_size + n) xs ≡ link (at + header_size + n) ys
    → Updates limit h h' (at + header_size + n) xs ys
    → Updates limit h h' at ((n, f) ∷ xs) ((n, f) ∷ ys)
unfolding allocated
Updates-cons {at} {n} {f} {xs} c e u = record {
  chain = (u.below at (omega arith) ∙ rw (← e) c.0, u.chain);
  below = λ a le. u.below a (omega arith);
  front = λ a lt. u.front a (omega arith);
  bytes = λ a i. ground (arith, u.front a, u.bytes a);
  start = u.start;
}

-- A change from `q` on, where `at` and all that was allocated from `at` on are kept, and then a
-- change from `at` on.
pub Updates-under :
    (limit : Ptr) (h h' h'' : Heap) (at q : Ptr) (xs vs ws ys zs : Cells)
    → at ≤ q
    → ((a : Ptr) → allocated at xs a ≡ true → allocated q ws a ≡ true)
    → ((a : Ptr) → allocated at xs a ≡ true → allocated at zs a ≡ true)
    → Updates limit h h' q ws ys
    → Updates limit h' h'' at zs vs
    → Updates limit h h'' at xs vs
Updates-under limit h h' h'' at q xs vs ws ys zs le deep kept u v = record {
  chain = v.chain;
  below = λ a b. v.below a b ∙ u.below a (omega arith);
  front = λ a b. v.front a b ∙ u.front a (omega arith);
  bytes = λ a i. v.bytes a (kept a i) ∙ u.bytes a (deep a i);
  start = v.start ∙ u.start;
}

-- The heap in memory stands for the cells `xs`.
pub record IsHeap (heap_memory : Ptr) (h : Heap) (xs : Cells) : Type 0 where
  pub start : h.heap_start ≡ heap_memory
  pub chain : Chain h.header (heap_memory + heap_size) heap_memory xs

-- Every byte of a cell that was allocated has its value still.
abbrev pub Kept : Ptr → Cells → Heap → Heap → Type 0
Kept heap_memory xs h h' = (a : Ptr) → allocated heap_memory xs a ≡ true → h'.byte a ≡ h.byte a

pub load-some : (h : Heap) (p : Ptr) {b : Block} → h.header p ≡ some b → load p h ≡ some (b, h)
unfolding load
load-some h p e = ground arith

pub not_null : (p : Ptr) → 0 < p → (p == null) ≡ false
not_null p h = ground arith

-- A header written at `at`, in front of the chain of `ys`.
pub store-Updates :
    (limit : Ptr) (h : Heap) (at n : ℕ) (f : Bool) (xs ys : Cells)
    → Chain h.header limit (at + header_size + n) ys
    → Updates limit h
        (store_header at (block n f (link (at + header_size + n) ys)) h)
        at
        xs
        ((n, f) ∷ ys)
unfolding store_header
store-Updates limit h at n f xs ys c = record {
  chain =
      (ground arith, Chain-frame h.header _ limit (at + header_size + n) ys c λ a le. ground arith);
  below = λ a le. ground arith;
  front = λ a lt. ground arith;
  bytes = λ a i. ground (arith, allocated-le at xs a i);
  start = refl;
}

pub link-merge : (p n : ℕ) (f : Bool) (xs : Cells) → link p (merge ((n, f) ∷ xs)) ≡ p
unfolding merge
link-merge p n f xs = link-join (merge xs)
  where
    link-join : (ys : Cells) → link p (join n f ys) ≡ p
    link-join [] = unfold join in refl
    link-join ((m, g) ∷ ys) = unfold join in ground arith
