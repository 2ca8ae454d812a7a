-- ===== src/Number/Read.antt =====
-- Reading the texts back that the number functions write.
use bin_os_c.Base.{
  ℕ, zero, suc, ◌+◌, ◌-◌, ◌*◌, ◌/◌, ◌%◌, ◌<◌, ◌≡◌, ◌≢◌, refl, ◌∙◌, inl, inr, some, List, [], ◌∷◌,
  length, arith, leb, ◌==◌, if◌then◌else◌, Bool-cases,
}
use bin_os_c.CString.{Buffer}
use bin_os_c.CString.Laws.{IsString}
use bin_os_c.Number.{write_digits}
use bin_os_c.Number.Digits.{digits, Fits, value, digit_char, Spells, value-digits, length-digits}
use bin_os_c.Number.Text.{Text, write_digits-Text}

abbrev pub char_value : ℕ → ℕ
char_value c = if leb c b'9' then c - b'0' else c - b'a' + 10

-- The number that `l` characters from `i` on stand for.
abbrev pub number_of : ℕ → Buffer → ℕ → ℕ → ℕ
number_of base b i zero = 0
number_of base b i (suc l) = number_of base b i l * base + char_value (b.at (i + l))

abbrev pub Small : List ℕ → Type 0
Small [] = Unit {0}
Small (d ∷ ds) = (d < 16) × Small ds

char_value-digit_char : (d : ℕ) → d < 16 → char_value (digit_char d) ≡ d
char_value-digit_char d lt = ground arith

pub number_of-Spells :
    (base : ℕ) (ds : List ℕ) (b : Buffer) (i : ℕ)
    → Small ds
    → Spells b i ds
    → number_of base b i (length ds) ≡ value base ds
number_of-Spells base [] b i small sp = refl
number_of-Spells base (d ∷ ds) b i (lt, small) (e, sp) =
    rw (e, char_value-digit_char d lt, number_of-Spells base ds b i small sp)

pub Spells-nonzero :
    (ds : List ℕ) (b : Buffer) (i j : ℕ) → Spells b i ds → j < length ds → b.at (i + j) ≢ 0
Spells-nonzero [] b i j sp lt = absurd (omega arith)
Spells-nonzero (d ∷ ds) b i j (e, sp) lt = elim (Bool-cases (j == length ds)) [
  | inl last ↦ ground arith
  | inr other ↦ Spells-nonzero ds b i j sp (ground arith)
]

module _ (base : ℕ) (split : (n : ℕ) → n ≡ n / base * base + n % base)
    (small : (n : ℕ) → n % base < 16) where
  pub digits-Small : (k n : ℕ) → Small (digits k base n)
  unfolding digits
  digits-Small zero n = tt
  digits-Small (suc k) n = elim (Bool-cases (n / base == 0)) [
    | inl last ↦ rw last (small n, tt)
    | inr more ↦ rw more (small n, digits-Small k (n / base))
  ]

  -- What stands behind `first` is the number.
  pub Text-number_of :
      (b b' : Buffer) (first n m : ℕ)
      → Fits m base n
      → Text base split small b first n m b'
      → number_of base b' first (length (digits m base n)) ≡ n
  Text-number_of b b' first n m fits text =
      number_of-Spells base (digits m base n) b' first (digits-Small m n) text.spells
      ∙ value-digits base split m n fits

  pub Text-IsString :
      (b b' : Buffer) (n m : ℕ)
      → m < b.size
      → Text base split small b 0 n m b'
      → IsString b' (length (digits m base n))
  Text-IsString b b' n m room text = record {
    chars = λ j lt. Spells-nonzero (digits m base n) b' 0 j text.spells lt;
    ends = text.ends;
    inside = omega (arith, length-digits base split m n, text.same_size);
  }

  -- A number of at most `m + 1` digits, read back.
  abbrev pub ReadsBack : Buffer → ℕ → Type 0
  ReadsBack b n = (l : ℕ) × IsString b l × (number_of base b 0 l ≡ n)

  pub write_digits-ReadsBack :
      (m n : ℕ) (b : Buffer)
      → Fits (suc m) base n
      → suc m < b.size
      → (b' : Buffer) × (write_digits base n b 0 ≡ some b') × ReadsBack b' n
  write_digits-ReadsBack m n b fits room =
      let (b', run, text) = write_digits-Text base split small m n b 0 fits (omega arith) in
      (
        b',
        run,
        (
          length (digits (suc m) base n),
          Text-IsString b b' n (suc m) room text,
          Text-number_of b b' 0 n (suc m) fits text,
        ),
      )
