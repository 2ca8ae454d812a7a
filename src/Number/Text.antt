-- ===== src/Number/Text.antt =====
-- What the number functions write, and that it is the same text in both.
use bin_os_c.Base.{
  ℕ, zero, suc, ◌+◌, ◌-◌, ◌*◌, ◌/◌, ◌%◌, ◌≤◌, ◌<◌, ◌≡◌, refl, ◌∙◌, ap, true, some, List, ◌∷◌,
  length, arith, ◌==◌, Bool-cases, eq_of_==, inl, inr, all_below, all_below-lt,
}
use bin_os_c.CString.{Buffer, load}
use bin_os_c.CString.Laws.{load-inside}
use bin_os_c.Shell.Shift.{written, store-inside}
use bin_os_c.Terminal.{literal, codes}
use bin_os_c.Number.{digit_loop, write_digits}
use bin_os_c.Number.Digits.{
  digits, Fits, digit_char, Forward, Spells, reverse_loop-Reversed, Forward-Spells, length-digits,
}

table-digit_char : (d : ℕ) → d < 16 → (literal (codes "0123456789abcdef")).at d ≡ digit_char d
unfolding literal all_below
table-digit_char d lt =
    eq_of_== ((literal (codes "0123456789abcdef")).at d) (digit_char d)
      (all_below-lt 16 (λ e. (literal (codes "0123456789abcdef")).at e == digit_char e) d refl lt)

load-digit : (d : ℕ) → d < 16 → load (literal (codes "0123456789abcdef")) d ≡ some (digit_char d)
unfolding literal
load-digit d lt =
    load-inside (literal (codes "0123456789abcdef")) d (omega arith)
    ∙ ap some (table-digit_char d lt)

-- The loop has written the digits from `i` up to `i'`.
pub record Wrote (b : Buffer) (i : ℕ) (ds : List ℕ) (b' : Buffer) (i' : ℕ) : Type 0 where
  pub same_size : b'.size ≡ b.size
  pub count : i' ≡ i + length ds
  pub forward : Forward b' i ds
  pub before : (j : ℕ) → j < i → b'.at j ≡ b.at j

Forward-front :
    (ds : List ℕ) (b : Buffer) (i d : ℕ)
    → b.at i ≡ digit_char d
    → Forward b (i + 1) ds
    → Forward b i (d ∷ ds)
Forward-front ds b i d e f = (e, f)

module _ (base : ℕ) (split : (n : ℕ) → n ≡ n / base * base + n % base)
    (small : (n : ℕ) → n % base < 16) where
  -- The round that writes the last digit.
  last-Wrote :
      (m k n : ℕ) (b : Buffer) (i : ℕ)
      → i < b.size
      → (n / base == 0) ≡ true
      → (b' : Buffer) × (i' : ℕ) × (digit_loop (suc k) base n b i ≡ some (b', i'))
        × Wrote b i (digits (suc m) base n) b' i'
  unfolding digit_loop digits
  last-Wrote m k n b i inside last =
      let c = digit_char (n % base) in
      let e : n - n / base * base ≡ n % base = omega (arith, split n) in
      (
        written b i c,
        i + 1,
        rw (e, load-digit (n % base) (small n), store-inside b i c inside, last),
        rw last (record {
          same_size = refl;
          count = omega arith;
          forward = (ground arith, tt);
          before = λ j lt. ground arith;
        }),
      )

  digit_loop-Wrote :
      (m k n : ℕ) (b : Buffer) (i : ℕ)
      → Fits (suc m) base n
      → i + suc m ≤ b.size
      → m < k
      → (b' : Buffer) × (i' : ℕ) × (digit_loop k base n b i ≡ some (b', i'))
        × Wrote b i (digits (suc m) base n) b' i'
  unfolding digit_loop digits
  digit_loop-Wrote m zero n b i fits room lt = absurd (omega arith)
  digit_loop-Wrote zero (suc k) n b i fits room lt =
      last-Wrote 0 k n b i (omega arith) (ground arith)
  digit_loop-Wrote (suc m) (suc k) n b i fits room lt = elim (Bool-cases (n / base == 0)) [
    | inl last ↦ last-Wrote (suc m) k n b i (omega arith) last
    | inr more ↦
        let c = digit_char (n % base) in
        let e : n - n / base * base ≡ n % base = omega (arith, split n) in
        let b₁ = written b i c in
        let (b', i', run, w) =
          digit_loop-Wrote m k (n / base) b₁ (i + 1) fits (omega arith) (omega arith) in
        (
          b',
          i',
          rw (e, load-digit (n % base) (small n), store-inside b i c (omega arith), more) run,
          rw more (record {
            same_size = w.same_size;
            count = omega (arith, w.count);
            forward = (w.before i (omega arith) ∙ ground arith, w.forward);
            before = λ j lt'. w.before j (omega arith) ∙ ground arith;
          }),
        )
  ]

  pub length-digits-pos : (m n : ℕ) → 0 < length (digits (suc m) base n)
  unfolding digits
  length-digits-pos m n = omega arith

  -- The array behind a number that was written from `first` on.
  pub record Text (b : Buffer) (first n m : ℕ) (b' : Buffer) : Type 0 where
    pub same_size : b'.size ≡ b.size
    pub spells : Spells b' first (digits m base n)
    pub ends : b'.at (first + length (digits m base n)) ≡ 0
    pub front : (j : ℕ) → j < first → b'.at j ≡ b.at j

  pub write_digits-Text :
      (m n : ℕ) (b : Buffer) (first : ℕ)
      → Fits (suc m) base n
      → first + suc m < b.size
      → (b' : Buffer) × (write_digits base n b first ≡ some b') × Text b first n (suc m) b'
  unfolding write_digits
  write_digits-Text m n b first fits room =
      let ds = digits (suc m) base n in
      let (b₁, ptr, run₁, w) =
        digit_loop-Wrote m b.size n b first fits (omega arith) (omega arith) in
      let short : length ds ≤ suc m = length-digits base split (suc m) n in
      let some_digit : 0 < length ds = length-digits-pos m n in
      let b₂ = written b₁ ptr 0 in
      let (b₃, run₃, r) =
        reverse_loop-Reversed b.size first (ptr - 1) b₂ (omega (arith, w.count, w.same_size))
          (omega (arith, w.count)) in
      (
        b₃,
        rw (run₁, store-inside b₁ ptr 0 (omega (arith, w.count, w.same_size))) run₃,
        record {
          same_size = r.same_size ∙ w.same_size;
          spells =
              Forward-Spells ds b₁ b₃ first first
                (λ j lt. ground (arith, r.turned (first + j), w.count)) w.forward;
          ends = ground (arith, r.behind (first + length ds), w.count);
          front = λ j lt. ground (arith, r.before j, w.before j, w.count);
        },
      )
