-- ===== src/Shell/Command/Word.antt =====
-- One argument of a command in kernel/src/shell/shell.c: the blanks before it and its characters.
use bin_os_c.Base.{
  ℕ, zero, suc, ◌+◌, ◌-◌, ◌≤◌, ◌<◌, ◌≡◌, refl, ◌⊎◌, inl, inr, true, false, ◌||◌, some, arith, ◌==◌,
  Bool-cases,
}
use bin_os_c.CString.{Buffer}
use bin_os_c.CString.Laws.{IsString, load-inside}
use bin_os_c.Shell.Command.{max_arg_length, is_blank, skip_blanks, copy_word}
use bin_os_c.Shell.Shift.{written, store-inside}

-- The characters from `i` up to `j` are all blank.
abbrev pub Blanks : Buffer → ℕ → ℕ → Type 0
Blanks b i j = (k : ℕ) → i ≤ k → k < j → is_blank (b.at k) ≡ true

-- The characters from `p` on, `l` of them, are an argument, and `arg` is a copy of it: none is
-- blank, and it is as long as it can be.
pub record Word (b : Buffer) (n p l : ℕ) (arg : Buffer) : Type 0 where
  pub some_chars : 0 < l
  pub short : l < max_arg_length
  pub fits : p + l ≤ n
  pub solid : (k : ℕ) → p ≤ k → k < p + l → is_blank (b.at k) ≡ false
  pub longest : (l ≡ max_arg_length - 1) ⊎ (p + l ≡ n) ⊎ (is_blank (b.at (p + l)) ≡ true)
  pub string : IsString arg l
  pub copied : (k : ℕ) → k < l → arg.at k ≡ b.at (p + k)

pub skip_blanks-Blanks :
    (m k : ℕ) (b : Buffer) (n i : ℕ)
    → IsString b n
    → i + m ≡ n
    → m < k
    → (p : ℕ) × (skip_blanks k b i ≡ some p)
      × (i ≤ p)
      × (p ≤ n)
      × Blanks b i p
      × (is_blank (b.at p) ≡ false)
unfolding skip_blanks
skip_blanks-Blanks m zero b n i is e lt = absurd (omega arith)
skip_blanks-Blanks zero (suc k) b n i is e lt =
    let load = load-inside b i (omega (arith, is.inside)) in
    let at_end : is_blank (b.at i) ≡ false = ground (arith, is.ends) in
    (i, rw (load, at_end), omega arith, omega arith, (λ k le lt'. absurd (omega arith)), at_end)
skip_blanks-Blanks (suc m) (suc k) b n i is e lt =
    let load = load-inside b i (omega (arith, is.inside)) in
    elim (Bool-cases (is_blank (b.at i))) [
      | inr solid ↦
          (i, rw (load, solid), omega arith, omega arith, (λ j le lt'. absurd (omega arith)), solid)
      | inl blank ↦
          let (p, run, le, le', blanks, solid) =
            skip_blanks-Blanks m k b n (i + 1) is (omega arith) (omega arith) in
          (
            p,
            rw (load, blank) run,
            omega arith,
            le',
            (λ j le₁ lt₁. ground (arith, blanks j)),
            solid,
          )
    ]

-- The loop has copied the characters from `i` up to `i'` behind the first `j` of the array.
pub record Copies (b : Buffer) (n i left : ℕ) (arg : Buffer) (j i' : ℕ) (d : Buffer) (j' : ℕ)
    : Type 0 where
  pub same_length : i + j' ≡ i' + j
  pub forward : i ≤ i'
  pub most : i' ≤ i + left
  pub fits : i' ≤ n
  pub same_size : d.size ≡ arg.size
  pub solid : (k : ℕ) → i ≤ k → k < i' → is_blank (b.at k) ≡ false
  pub longest : (i' ≡ i + left) ⊎ (i' ≡ n) ⊎ (is_blank (b.at i') ≡ true)
  pub copied : (k : ℕ) → i + k < i' → d.at (j + k) ≡ b.at (i + k)
  pub before : (k : ℕ) → k < j → d.at k ≡ arg.at k

nothing :
    (b : Buffer) (n i left : ℕ) (arg : Buffer) (j : ℕ)
    → i ≤ n
    → (i ≡ i + left) ⊎ (i ≡ n) ⊎ (is_blank (b.at i) ≡ true)
    → Copies b n i left arg j i arg j
nothing b n i left arg j le why = record {
  same_length = refl;
  forward = omega arith;
  most = omega arith;
  fits = le;
  same_size = refl;
  solid = λ k ge lt. absurd (omega arith);
  longest = why;
  copied = λ k lt. absurd (omega arith);
  before = λ k lt. refl;
}

pub copy_word-Copies :
    (left : ℕ) (b : Buffer) (n i : ℕ) (arg : Buffer) (j : ℕ)
    → IsString b n
    → i ≤ n
    → j + left < arg.size
    → (i' : ℕ) × (d : Buffer) × (j' : ℕ) × (copy_word left b i arg j ≡ some (i', d, j'))
      × Copies b n i left arg j i' d j'
unfolding copy_word
copy_word-Copies zero b n i arg j is le room = (
  i,
  arg,
  j,
  rw (load-inside b i (omega (arith, is.inside))),
  nothing b n i 0 arg j le (inl (omega arith)),
)
copy_word-Copies (suc left) b n i arg j is le room =
    let load = load-inside b i (omega (arith, is.inside)) in
    elim (Bool-cases (b.at i == 0 || is_blank (b.at i))) [
      | inl stop ↦ (i, arg, j, rw (load, stop), nothing b n i (suc left) arg j le (stops stop))
      | inr on ↦
          let c = b.at i in
          let lt : i < n = more on in
          let (i', d, j', run, w) =
            copy_word-Copies left b n (i + 1) (written arg j c) (j + 1) is (omega arith)
              (omega arith) in
          (
            i',
            d,
            j',
            rw (load, on, store-inside arg j c (omega arith)) run,
            record {
              same_length = omega (arith, w.same_length);
              forward = omega (arith, w.forward);
              most = omega (arith, w.most);
              fits = w.fits;
              same_size = w.same_size;
              solid = λ k ge lt'. ground (arith, w.solid k);
              longest = ground (arith, w.longest);
              copied = λ k lt'. ground (arith, w.before j, w.copied (k - 1));
              before = λ k lt'. ground (arith, w.before k);
            },
          )
    ]
  where
    stops :
        (b.at i == 0 || is_blank (b.at i)) ≡ true
        → (i ≡ i + suc left) ⊎ (i ≡ n) ⊎ (is_blank (b.at i) ≡ true)
    stops h = ground (arith, is.chars i)

    more : (b.at i == 0 || is_blank (b.at i)) ≡ false → i < n
    more h = ground (arith, is.ends)
