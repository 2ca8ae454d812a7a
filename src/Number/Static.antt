-- ===== src/Number/Static.antt =====
-- `to_string` of kernel/src/utility.c, and `int_to_string` of kernel/src/serial/serial.c beside it.
use bin_os_c.Base.{
  ℕ, zero, suc, ◌+◌, ◌-◌, ◌/◌, ◌%◌, ◌^◌, ◌≤◌, ◌<◌, ◌≡◌, refl, ◌∙◌, inl, inr, true, false, some,
  List, [], ◌∷◌, length, arith, ltb, leb, ◌==◌, Bool-cases, eq_of_==,
}
use bin_os_c.Base.Int.{ℤ, pos, negsuc}
use bin_os_c.CString.{Buffer}
use bin_os_c.CString.Laws.{IsString}
use bin_os_c.Shell.Shift.{written, store-inside}
use bin_os_c.Number.{int_to_string, to_string_loop, finish_string, to_string}
use bin_os_c.Number.Digits.{digits, Fits, Spells, reverse_loop-Reversed, Forward-Spells}
use bin_os_c.Number.Text.{Wrote, length-digits-pos}
use bin_os_c.Number.Same.{
  sign_length, magnitude, decimal, IsInteger, IsInteger-intro, short_10, ten_digits, split_10,
  small_10, int_to_string-IsInteger,
}

-- The round that writes the last digit.
last-Wrote_10 :
    (m k n : ℕ) (b : Buffer) (i : ℕ)
    → i < b.size
    → (suc n / 10 == 0) ≡ true
    → (b' : Buffer) × (i' : ℕ) × (to_string_loop (suc k) (suc n) b i ≡ some (b', i'))
      × Wrote b i (digits (suc m) 10 (suc n)) b' i'
unfolding to_string_loop digits
last-Wrote_10 m k n b i inside last =
    let c = suc n % 10 + b'0' in
    (
      written b i c,
      i + 1,
      rw (store-inside b i c inside, eq_of_== (suc n / 10) 0 last) refl,
      rw last (record {
        same_size = refl;
        count = omega arith;
        forward = (ground arith, tt);
        before = λ j lt. ground arith;
      }),
    )

-- The loop of `to_string` writes the digits of a number above 0.
to_string_loop-Wrote :
    (m k n : ℕ) (b : Buffer) (i : ℕ)
    → 0 < n
    → Fits (suc m) 10 n
    → i + suc m ≤ b.size
    → m < k
    → (b' : Buffer) × (i' : ℕ) × (to_string_loop k n b i ≡ some (b', i'))
      × Wrote b i (digits (suc m) 10 n) b' i'
unfolding to_string_loop digits
to_string_loop-Wrote m zero n b i some_n fits room lt = absurd (omega arith)
to_string_loop-Wrote m (suc k) zero b i some_n fits room lt = absurd (omega arith)
to_string_loop-Wrote zero (suc k) (suc n) b i some_n fits room lt =
    last-Wrote_10 0 k n b i (omega arith) (ground arith)
to_string_loop-Wrote (suc m) (suc k) (suc n) b i some_n fits room lt =
    elim (Bool-cases (suc n / 10 == 0)) [
      | inl last ↦ last-Wrote_10 (suc m) k n b i (omega arith) last
      | inr more ↦
          let c = suc n % 10 + b'0' in
          let b₁ = written b i c in
          let (b', i', run, w) =
            to_string_loop-Wrote m k (suc n / 10) b₁ (i + 1) (ground arith) fits (omega arith)
              (omega arith) in
          (
            b',
            i',
            rw (store-inside b i c (omega arith)) run,
            rw more (record {
              same_size = w.same_size;
              count = omega (arith, w.count);
              forward = (w.before i (omega arith) ∙ ground arith, w.forward);
              before = λ j lt'. w.before j (omega arith) ∙ ground arith;
            }),
          )
    ]

-- The terminator and the exchange behind `len` bytes.
finish_string-Reversed :
    (b : Buffer) (len : ℕ)
    → 0 < len
    → len < b.size
    → (b' : Buffer) × (finish_string b len ≡ some b')
      × (b'.size ≡ b.size)
      × ((j : ℕ) → j < len → b'.at j ≡ b.at (len - 1 - j))
      × (b'.at len ≡ 0)
unfolding finish_string
finish_string-Reversed b len some_len room =
    let b₁ = written b len 0 in
    let (b', run, r) = reverse_loop-Reversed b.size 0 (len - 1) b₁ (omega arith) (omega arith) in
    (
      b',
      rw (store-inside b len 0 room) run,
      r.same_size,
      (λ j lt. ground (arith, r.turned j)),
      ground (arith, r.behind len),
    )

zero-IsInteger : (b : Buffer) → b.at 0 ≡ b'0' → b.at 1 ≡ 0 → 11 < b.size → IsInteger (pos 0) b
unfolding digits
zero-IsInteger b digit ends room =
    IsInteger-intro (pos 0) b (λ j no_sign. absurd (omega arith)) (digit, tt) ends room

-- `to_string` writes the integer into its array.
pub to_string-IsInteger :
    (v : ℤ) (buffer : Buffer)
    → magnitude v < 2 ^ 31
    → 11 < buffer.size
    → (b : Buffer) × (to_string v buffer ≡ some b) × (b.size ≡ buffer.size) × IsInteger v b
unfolding to_string
to_string-IsInteger (pos zero) buffer lt room =
    let b₁ = written buffer 0 b'0' in
    let b₂ = written b₁ 1 0 in
    (
      b₂,
      rw (store-inside buffer 0 b'0' (omega arith), store-inside b₁ 1 0 (omega arith)) refl,
      refl,
      zero-IsInteger b₂ refl refl room,
    )
to_string-IsInteger (pos (suc n)) buffer lt room =
    let (b₁, i, run₁, w) =
      to_string_loop-Wrote 9 buffer.size (suc n) buffer 0 (omega arith)
        (ten_digits (suc n) (omega arith)) (omega arith) (omega arith) in
    let (b, run, same_size, turned, ends) =
      finish_string-Reversed b₁ i
        (omega (arith, w.count, length-digits-pos 10 split_10 small_10 9 (suc n)))
        (omega (arith, w.count, w.same_size, short_10 (suc n))) in
    (
      b,
      rw run₁ run,
      same_size ∙ w.same_size,
      IsInteger-intro (pos (suc n)) b (λ j no_sign. absurd (omega arith))
          (Forward-Spells (decimal (pos (suc n))) b₁ b 0 0
            (λ j lt'. ground (arith, turned j, w.count)) w.forward)
          (ground (arith, w.count, ends)) (omega (arith, same_size, w.same_size)),
    )
to_string-IsInteger (negsuc n) buffer lt room =
    let small : leb (2 ^ 31) (n + 1) ≡ false = ground arith in
    let ds = decimal (negsuc n) in
    let (b₁, i, run₁, w) =
      to_string_loop-Wrote 9 buffer.size (n + 1) buffer 0 (omega arith)
        (ten_digits (n + 1) (omega arith)) (omega arith) (omega arith) in
    let short : length ds ≤ 10 = short_10 (n + 1) in
    let b₂ = written b₁ i b'-' in
    let (b, run, same_size, turned, ends) =
      finish_string-Reversed b₂ (i + 1) (omega arith) (omega (arith, w.count, w.same_size)) in
    (
      b,
      rw (small, run₁, store-inside b₁ i b'-' (omega (arith, w.count, w.same_size))) run,
      same_size ∙ w.same_size,
      IsInteger-intro (negsuc n) b (λ j is_sign. ground (arith, turned j))
          (Forward-Spells ds b₁ b 1 0 (λ j lt'. ground (arith, turned (1 + j), w.count)) w.forward)
          (ground (arith, w.count, ends)) (omega (arith, same_size, w.same_size)),
    )

Spells-same :
    (ds : List ℕ) (b b' : Buffer) (i j : ℕ)
    → Spells b i ds
    → Spells b' i ds
    → j < length ds
    → b.at (i + j) ≡ b'.at (i + j)
Spells-same [] b b' i j sp sp' lt = absurd (omega arith)
Spells-same (d ∷ ds) b b' i j (e, sp) (e', sp') lt = elim (Bool-cases (j == length ds)) [
  | inl last ↦ ground arith
  | inr other ↦ Spells-same ds b b' i j sp sp' (ground arith)
]

-- Both arrays hold the same string.
pub record SameString (b b' : Buffer) : Type 0 where
  pub len : ℕ
  pub first : IsString b len
  pub second : IsString b' len
  pub same : (j : ℕ) → j < len → b.at j ≡ b'.at j

IsInteger-SameString : (v : ℤ) (b b' : Buffer) → IsInteger v b → IsInteger v b' → SameString b b'
IsInteger-SameString v b b' is is' = record {
  len = sign_length v + length (decimal v);
  first = is.string;
  second = is'.string;
  same = λ j lt. elim (Bool-cases (ltb j (sign_length v))) [
    | inl front ↦ ground (arith, is.sign j, is'.sign j)
    | inr digit ↦ ground (
      arith,
      Spells-same (decimal v) b b' (sign_length v) (j - sign_length v) is.spells is'.spells,
    )
  ];
}

-- For an integer of magnitude below 2^31 and arrays of at least 12 bytes: `int_to_string` in base
-- 10 and `to_string` both end and write the same string.
pub int_to_string-to_string :
    (v : ℤ) (str buffer : Buffer)
    → magnitude v < 2 ^ 31
    → 11 < str.size
    → 11 < buffer.size
    → (b b' : Buffer) × (int_to_string v str 10 ≡ some b)
      × (to_string v buffer ≡ some b')
      × SameString b b'
int_to_string-to_string v str buffer lt room room' =
    let (b, run, same_size, is) = int_to_string-IsInteger v str lt room in
    let (b', run', same_size', is') = to_string-IsInteger v buffer lt room' in
    (b, b', run, run', IsInteger-SameString v b b' is is')
