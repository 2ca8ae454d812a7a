-- ===== src/CString/Copy.antt =====
-- `strcpy` and `strncpy`: what they copy, and when they stay inside the destination.
use bin_os_c.Base.{
  ℕ, zero, suc, ◌+◌, ◌≤◌, ◌<◌, ◌≡◌, ◌↔◌, refl, ◌⊎◌, inl, inr, true, false, ◌&&◌, none, some, arith,
  ltb, ◌==◌, if◌then◌else◌, Bool-cases, leb,
}
use bin_os_c.CString.{Buffer, store, strcpy_loop, strcpy, fill_zero, strncpy_loop, strncpy}
use bin_os_c.CString.Laws.{StringFrom, IsString, tail, load-inside}

-- `d` is `dest` with the characters `i` up to `n` of `src` and a terminator behind them.
pub record CopiedFrom (dest src d : Buffer) (i n : ℕ) : Type 0 where
  pub same_size : d.size ≡ dest.size
  pub chars : (j : ℕ) → i ≤ j → j < i + n → d.at j ≡ src.at j
  pub ends : d.at (i + n) ≡ 0
  pub before : (j : ℕ) → j < i → d.at j ≡ dest.at j
  pub behind : (j : ℕ) → i + n < j → d.at j ≡ dest.at j

strcpy_loop-CopiedFrom :
    (n k i : ℕ) (dest src : Buffer)
    → StringFrom src i n
    → i + n < dest.size
    → n < k
    → (d : Buffer) × (strcpy_loop k dest src i ≡ some d) × CopiedFrom dest src d i n
unfolding strcpy_loop store
strcpy_loop-CopiedFrom n zero i dest src s room lt = absurd (omega arith)
strcpy_loop-CopiedFrom zero (suc k) i dest src s room lt = (
  record dest { at = λ j. if j == i then 0 else dest.at j },
  rw (load-inside src i (omega (arith, s.inside))) (ground (arith, s.ends)),
  ground arith,
)
strcpy_loop-CopiedFrom (suc n) (suc k) i dest src s room lt =
    let (d, run, c) =
      strcpy_loop-CopiedFrom n k (i + 1)
        (record dest { at = λ j. if j == i then src.at i else dest.at j }) src (tail src i n s)
        (omega arith) (omega arith) in
    let not_end : (src.at i == 0) ≡ false = ground (arith, s.chars 0) in
    let inside : ltb i dest.size ≡ true = ground arith in
    (
      d,
      rw (load-inside src i (omega (arith, s.inside)), not_end, inside) run,
      record {
        same_size = c.same_size;
        chars = λ j le lt'. ground (arith, c.chars j, c.before j);
        ends = ground (arith, c.ends);
        before = λ j lt'. ground (arith, c.before j);
        behind = λ j lt'. ground (arith, c.behind j);
      },
    )

-- `strcpy` of a terminated string into an array with room for it copies the characters and the
-- terminator, and changes nothing behind them.
pub strcpy-CopiedFrom :
    (dest src : Buffer) (n : ℕ)
    → IsString src n
    → n < dest.size
    → (d : Buffer) × (strcpy (some dest) (some src) ≡ some (some d)) × CopiedFrom dest src d 0 n
unfolding strcpy
strcpy-CopiedFrom dest src n s room =
    let (d, run, c) =
      strcpy_loop-CopiedFrom n (src.size + 1) 0 dest src s (omega arith)
        (omega (arith, s.inside)) in
    (d, rw run, c)

-- Where there is no room, `strcpy` writes behind the array.
strcpy_loop-none :
    (n k i : ℕ) (dest src : Buffer)
    → StringFrom src i n
    → dest.size ≤ i + n
    → strcpy_loop k dest src i ≡ none
unfolding strcpy_loop store
strcpy_loop-none n zero i dest src s full = refl
strcpy_loop-none zero (suc k) i dest src s full =
    rw (load-inside src i (omega (arith, s.inside))) (ground (arith, s.ends))
strcpy_loop-none (suc n) (suc k) i dest src s full =
    rw (load-inside src i (omega (arith, s.inside))) (
      ground (
        arith,
        s.chars 0,
        strcpy_loop-none n k (i + 1)
            (record dest { at = λ j. if j == i then src.at i else dest.at j }) src (tail src i n s),
      ))

-- `strcpy` of a terminated string writes outside the destination exactly when the string and its
-- terminator do not fit.
pub strcpy-none_iff :
    (dest src : Buffer) (n : ℕ)
    → IsString src n
    → (strcpy (some dest) (some src) ≡ none) ↔ (dest.size ≤ n)
unfolding strcpy
strcpy-none_iff dest src n s = (
  λ e. elim (Bool-cases (ltb n dest.size)) [
    | inl fits ↦
        let (d, run, c) =
          strcpy_loop-CopiedFrom n (src.size + 1) 0 dest src s (ground arith)
            (omega (arith, s.inside)) in
        absurd (ground arith)
    | inr full ↦ ground arith
  ],
  λ full. rw (strcpy_loop-none n (src.size + 1) 0 dest src s (omega arith)),
)

fill_zero-zeros :
    (left i : ℕ) (dest : Buffer)
    → i + left ≤ dest.size
    → (d : Buffer) × (fill_zero left dest i ≡ some d)
      × (d.size ≡ dest.size)
      × ((j : ℕ) → d.at j ≡ (if leb i j && ltb j (i + left) then 0 else dest.at j))
unfolding fill_zero store
fill_zero-zeros zero i dest room = (dest, refl, refl, λ j. ground arith)
fill_zero-zeros (suc left) i dest room =
    let (d, run, sized, is) =
      fill_zero-zeros left (i + 1) (record dest { at = λ j. if j == i then 0 else dest.at j })
        (omega arith) in
    let inside : ltb i dest.size ≡ true = ground arith in
    (d, rw inside run, sized, λ j. ground (arith, is j))

-- What `strncpy` leaves from `i` on: characters as far as they go, then zeros.
abbrev pub Padded : Buffer → Buffer → ℕ → ℕ → ℕ → Buffer → Type 0
Padded dest src i n left d =
    (d.size ≡ dest.size)
    × ((j : ℕ)
        → d.at j ≡ (
            if leb i j && ltb j (i + left)
            then (if ltb j (i + n) then src.at j else 0)
            else dest.at j))

strncpy_loop-Padded :
    (left n i : ℕ) (dest src : Buffer)
    → StringFrom src i n
    → i + left ≤ dest.size
    → (d : Buffer) × (strncpy_loop left dest src i ≡ some d) × Padded dest src i n left d
unfolding strncpy_loop store
strncpy_loop-Padded zero n i dest src s room = (dest, refl, (refl, λ j. ground arith))
strncpy_loop-Padded (suc left) zero i dest src s room =
    let (d, run, sized, is) = fill_zero-zeros (suc left) i dest room in
    let end : (src.at i == 0) ≡ true = ground (arith, s.ends) in
    (
      d,
      rw (load-inside src i (omega (arith, s.inside)), end) run,
      (sized, λ j. ground (arith, is j)),
    )
strncpy_loop-Padded (suc left) (suc n) i dest src s room =
    let d₁ : Buffer = record dest { at = λ j. if j == i then src.at i else dest.at j } in
    let (d, run, (sized, is)) =
      strncpy_loop-Padded left n (i + 1) d₁ src (tail src i n s) (omega arith) in
    let not_end : (src.at i == 0) ≡ false = ground (arith, s.chars 0) in
    let inside : ltb i dest.size ≡ true = ground arith in
    (
      d,
      rw (load-inside src i (omega (arith, s.inside)), not_end, inside) run,
      (sized, λ j. ground (arith, is j)),
    )

-- `strncpy` of a terminated string into an array of at least `count` bytes writes its first
-- `count` bytes: the characters of the string as far as they go, then zeros.
pub strncpy-Padded :
    (dest src : Buffer) (n count : ℕ)
    → IsString src n
    → count ≤ dest.size
    → (d : Buffer) × (strncpy (some dest) (some src) count ≡ some (some d))
      × Padded dest src 0 n count d
unfolding strncpy
strncpy-Padded dest src n count s room =
    let (d, run, padded) = strncpy_loop-Padded count n 0 dest src s (omega arith) in
    (d, rw run, padded)

-- `strcpy` of a terminated string into an array with room for it copies the characters and the
-- terminator and changes nothing behind them, and writes outside the array if there is no room.
pub strcpy_lem :
    (dest src : Buffer) (n : ℕ)
    → IsString src n
    → (n < dest.size)
        × ((d : Buffer) × (strcpy (some dest) (some src) ≡ some (some d))
            × CopiedFrom dest src d 0 n)
      ⊎ (dest.size ≤ n) × (strcpy (some dest) (some src) ≡ none)
strcpy_lem dest src n s = elim (Bool-cases (ltb n dest.size)) [
  | inl fits ↦ inl (ground arith, strcpy-CopiedFrom dest src n s (ground arith))
  | inr long ↦ inr (ground arith, (strcpy-none_iff dest src n s).1 (ground arith))
]
