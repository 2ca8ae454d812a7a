-- ===== src/Number/Digits.antt =====
-- The digits of a number, and the exchange that turns them round.
use bin_os_c.Base.{
  ℕ, zero, suc, ◌+◌, ◌-◌, ◌*◌, ◌/◌, ◌%◌, ◌≤◌, ◌<◌, ◌≡◌, refl, sym, ap, false, some, List, [], ◌∷◌,
  length, arith, ltb, ◌==◌, if◌then◌else◌, Bool-cases, eq_of_==, inl, inr,
}
use bin_os_c.CString.{Buffer}
use bin_os_c.CString.Laws.{load-inside}
use bin_os_c.Shell.Shift.{written, store-inside}
use bin_os_c.Number.{reverse_loop}

-- The digits of `n`, the last one first, if there are at most `k`.
unfoldable pub digits : ℕ → ℕ → ℕ → List ℕ
digits zero base n = []
digits (suc k) base n =
    let rest = digits k base (n / base) in n % base ∷ (if n / base == 0 then [] else rest)

-- `n` has at most `k` digits.
abbrev pub Fits : ℕ → ℕ → ℕ → Type 0
Fits zero base n = n ≡ 0
Fits (suc k) base n = Fits k base (n / base)

abbrev pub value : ℕ → List ℕ → ℕ
value base [] = 0
value base (d ∷ ds) = value base ds * base + d

-- The character of a digit.
abbrev pub digit_char : ℕ → ℕ
digit_char d = if ltb d 10 then d + b'0' else d - 10 + b'a'

-- From `i` on the array holds the digits, the last one first.
abbrev pub Forward : Buffer → ℕ → List ℕ → Type 0
Forward b i [] = Unit {0}
Forward b i (d ∷ ds) = (b.at i ≡ digit_char d) × Forward b (i + 1) ds

-- From `i` on the array holds the digits the way they are read.
abbrev pub Spells : Buffer → ℕ → List ℕ → Type 0
Spells b i [] = Unit {0}
Spells b i (d ∷ ds) = (b.at (i + length ds) ≡ digit_char d) × Spells b i ds

-- The array is the same outside of `lo` up to `hi`, and turned round inside.
pub record Reversed (lo hi : ℕ) (b b' : Buffer) : Type 0 where
  pub same_size : b'.size ≡ b.size
  pub turned : (j : ℕ) → lo ≤ j → j ≤ hi → b'.at j ≡ b.at (lo + hi - j)
  pub before : (j : ℕ) → j < lo → b'.at j ≡ b.at j
  pub behind : (j : ℕ) → lo ≤ j → hi < j → b'.at j ≡ b.at j

pub reverse_loop-Reversed :
    (k lo hi : ℕ) (b : Buffer)
    → hi < b.size
    → hi ≤ lo + 2 * k
    → (b' : Buffer) × (reverse_loop k lo hi b ≡ some b') × Reversed lo hi b b'
unfolding reverse_loop
reverse_loop-Reversed zero lo hi b inside fuel =
    let met : ltb lo hi ≡ false = ground arith in
    (
      b,
      rw met,
      record {
        same_size = refl;
        turned = λ j le le'. ground arith;
        before = λ j lt. refl;
        behind = λ j le lt. refl;
      },
    )
reverse_loop-Reversed (suc k) lo hi b inside fuel = elim (Bool-cases (ltb lo hi)) [
  | inr met ↦ (
    b,
    rw met,
    record {
      same_size = refl;
      turned = λ j le le'. ground arith;
      before = λ j lt. refl;
      behind = λ j le lt. refl;
    },
  )
  | inl apart ↦
      let b₁ = written b lo (b.at hi) in
      let b₂ = written b₁ hi (b.at lo) in
      let (b', run, r) =
        reverse_loop-Reversed k (lo + 1) (hi - 1) b₂ (ground arith) (ground arith) in
      (
        b',
        rw
            (
              apart,
              load-inside b lo (ground arith),
              load-inside b hi inside,
              store-inside b lo (b.at hi) (ground arith),
              store-inside b₁ hi (b.at lo) inside,
            )
            run,
        record {
          same_size = r.same_size;
          turned = λ j le le'. ground (arith, r.turned j, r.before j, r.behind j);
          before = λ j lt. ground (arith, r.before j);
          behind = λ j le lt. ground (arith, r.behind j);
        },
      )
]

-- What was written the last digit first is read the right way round afterwards.
pub Forward-Spells :
    (ds : List ℕ) (b b' : Buffer) (i m : ℕ)
    → ((j : ℕ) → j < length ds → b'.at (i + j) ≡ b.at (m + (length ds - 1 - j)))
    → Forward b m ds
    → Spells b' i ds
Forward-Spells [] b b' i m turned f = tt
Forward-Spells (d ∷ ds) b b' i m turned f = (
  ground (arith, turned (length ds), f.0),
  Forward-Spells ds b b' i (m + 1) (λ j lt. ground (arith, turned j)) f.1,
)

module _ (base : ℕ) (split : (n : ℕ) → n ≡ n / base * base + n % base) where
  -- A number is the value of its digits.
  pub value-digits : (k n : ℕ) → Fits k base n → value base (digits k base n) ≡ n
  unfolding digits
  value-digits zero n fits = ground arith
  value-digits (suc k) n fits = elim (Bool-cases (n / base == 0)) [
    | inl last ↦
        rw last (ground (arith, split n, ap (λ (t : ℕ). t * base) (eq_of_== (n / base) 0 last)))
    | inr more ↦ rw (more, value-digits k (n / base) fits) (sym (split n))
  ]

  pub length-digits : (k n : ℕ) → length (digits k base n) ≤ k
  unfolding digits
  length-digits zero n = omega arith
  length-digits (suc k) n = elim (Bool-cases (n / base == 0)) [
    | inl last ↦ rw last (omega arith)
    | inr more ↦ rw more (omega (arith, length-digits k (n / base)))
  ]
