-- ===== src/Serial/Text.antt =====
-- The texts of the numbers that kernel/src/serial/serial.c prints.
use bin_os_c.Base.{
  ℕ, zero, suc, ◌+◌, ◌-◌, ◌<◌, ◌≤◌, ◌≡◌, ◌≢◌, ◌^◌, refl, sym, ap, subst, ◌∙◌, true, false, some,
  List, [], ◌∷◌, ◌++◌, length, arith, ◌==◌, inl, inr, Bool-cases, if◌then◌else◌,
}
use bin_os_c.Base.Int.{ℤ, pos, negsuc}
use bin_os_c.CString.{Buffer, store}
use bin_os_c.CString.Laws.{StringFrom, IsString, tail, load-inside}
use bin_os_c.Shell.Shift.{written, store-inside}
use bin_os_c.Number.{uint_to_string, int_to_string}
use bin_os_c.Number.Digits.{digits, digit_char, Spells}
use bin_os_c.Number.Read.{Text-IsString}
use bin_os_c.Number.Text.{write_digits-Text}
use bin_os_c.Number.Same.{
  magnitude, IsInteger, int_to_string-IsInteger, split_10, small_10, split_16, small_16, ten_digits,
  eight_digits,
}
use bin_os_c.Serial.{is_hex_letter, upper_loop, to_upper}
use bin_os_c.Serial.Line.{bytes}

-- The digits the way they are read.
abbrev pub spell : List ℕ → List ℕ
spell [] = []
spell (d ∷ ds) = spell ds ++ digit_char d ∷ []

abbrev pub decimal_text : ℕ → List ℕ
decimal_text n = spell (digits 10 10 n)

abbrev pub hex_text : ℕ → List ℕ
hex_text n = spell (digits 8 16 n)

abbrev pub integer_text : ℤ → List ℕ
integer_text (pos n) = decimal_text n
integer_text (negsuc n) = b'-' ∷ decimal_text (n + 1)

abbrev pub upper : ℕ → ℕ
upper c = if is_hex_letter c then c - b'a' + b'A' else c

abbrev pub uppers : List ℕ → List ℕ
uppers [] = []
uppers (c ∷ cs) = upper c ∷ uppers cs

-- The array holds the text.
abbrev pub Holds : Buffer → List ℕ → Type 0
Holds b text = (n : ℕ) × IsString b n × (bytes b 0 n ≡ text)

bytes-snoc : (n i : ℕ) (b : Buffer) → bytes b i (suc n) ≡ bytes b i n ++ b.at (i + n) ∷ []
bytes-snoc zero i b = ap (λ (j : ℕ). b.at j ∷ []) (omega arith)
bytes-snoc (suc n) i b =
    ap (λ (l : List ℕ). b.at i ∷ l)
      (bytes-snoc n (i + 1) b ∙ ap (λ (j : ℕ). bytes b (i + 1) n ++ b.at j ∷ []) (omega arith))

Spells-bytes : (ds : List ℕ) (b : Buffer) (i : ℕ) → Spells b i ds → bytes b i (length ds) ≡ spell ds
Spells-bytes [] b i sp = refl
Spells-bytes (d ∷ ds) b i (e, sp) = bytes-snoc (length ds) i b ∙ rw (e, Spells-bytes ds b i sp) refl

pub decimal-Holds :
    (n : ℕ) (buffer : Buffer)
    → n < 2 ^ 32
    → 11 < buffer.size
    → (b : Buffer) × (uint_to_string n buffer 10 ≡ some b)
      × (b.size ≡ buffer.size)
      × Holds b (decimal_text n)
unfolding uint_to_string
decimal-Holds n buffer lt room =
    let (b, run, text) =
      write_digits-Text 10 split_10 small_10 9 n buffer 0 (ten_digits n lt) (omega arith) in
    (
      b,
      run,
      text.same_size,
      (
        length (digits 10 10 n),
        Text-IsString 10 split_10 small_10 buffer b n 10 (omega arith) text,
        Spells-bytes (digits 10 10 n) b 0 text.spells,
      ),
    )

pub hex-Holds :
    (n : ℕ) (buffer : Buffer)
    → n < 2 ^ 32
    → 11 < buffer.size
    → (b : Buffer) × (uint_to_string n buffer 16 ≡ some b)
      × (b.size ≡ buffer.size)
      × Holds b (hex_text n)
unfolding uint_to_string
hex-Holds n buffer lt room =
    let (b, run, text) =
      write_digits-Text 16 split_16 small_16 7 n buffer 0 (eight_digits n lt) (omega arith) in
    (
      b,
      run,
      text.same_size,
      (
        length (digits 8 16 n),
        Text-IsString 16 split_16 small_16 buffer b n 8 (omega arith) text,
        Spells-bytes (digits 8 16 n) b 0 text.spells,
      ),
    )

signed_bytes : (v : ℤ) (b : Buffer) → IsInteger v b → Holds b (integer_text v)
signed_bytes (pos n) b is = (
  length (digits 10 10 n),
  subst (IsString b) (omega arith) is.string,
  Spells-bytes (digits 10 10 n) b 0 is.spells,
)
signed_bytes (negsuc n) b is = (
  suc (length (digits 10 10 (n + 1))),
  subst (IsString b) (omega arith) is.string,
  rw (is.sign 0 (omega arith), Spells-bytes (digits 10 10 (n + 1)) b 1 is.spells) refl,
)

pub integer-Holds :
    (v : ℤ) (buffer : Buffer)
    → magnitude v < 2 ^ 31
    → 11 < buffer.size
    → (b : Buffer) × (int_to_string v buffer 10 ≡ some b)
      × (b.size ≡ buffer.size)
      × Holds b (integer_text v)
integer-Holds v buffer lt room =
    let (b, run, same_size, is) = int_to_string-IsInteger v buffer lt room in
    (b, run, same_size, signed_bytes v b is)

record Uppered (i n : ℕ) (b b' : Buffer) : Type 0 where
  same_size : b'.size ≡ b.size
  string : StringFrom b' i n
  text : bytes b' i n ≡ uppers (bytes b i n)
  before : (j : ℕ) → j < i → b'.at j ≡ b.at j

-- The array with the byte at `i` in upper case.
abbrev set_upper : Buffer → ℕ → Buffer
set_upper b i = if is_hex_letter (b.at i) then written b i (b.at i - b'a' + b'A') else b

store-upper :
    (b : Buffer) (i : ℕ)
    → i < b.size
    → (if is_hex_letter (b.at i) then store b i (b.at i - b'a' + b'A') else some b)
      ≡ some (set_upper b i)
store-upper b i lt = elim (Bool-cases (is_hex_letter (b.at i))) [
  | inl letter ↦ rw letter (store-inside b i (b.at i - b'a' + b'A') lt)
  | inr other ↦ rw other refl
]

-- What `set_upper` makes of each byte.
set_upper-at :
    (b : Buffer) (i : ℕ)
    → ((set_upper b i).size ≡ b.size)
      × ((set_upper b i).at i ≡ upper (b.at i))
      × ((j : ℕ) → j ≢ i → (set_upper b i).at j ≡ b.at j)
set_upper-at b i = elim (Bool-cases (is_hex_letter (b.at i))) [
  | inl letter ↦ rw letter (refl, ground arith, λ j other. ground arith)
  | inr other ↦ rw other (refl, refl, λ j other'. refl)
]

bytes-same :
    (n i : ℕ) (b b' : Buffer) → ((j : ℕ) → i ≤ j → b.at j ≡ b'.at j) → bytes b i n ≡ bytes b' i n
bytes-same zero i b b' same = refl
bytes-same (suc n) i b b' same =
    rw (same i (omega arith), bytes-same n (i + 1) b b' (λ j le. same j (omega arith))) refl

string_same :
    (n i : ℕ) (b b' : Buffer)
    → b'.size ≡ b.size
    → ((j : ℕ) → i ≤ j → b'.at j ≡ b.at j)
    → StringFrom b i n
    → StringFrom b' i n
string_same n i b b' size same s = record {
  chars = λ j lt. ground (arith, same (i + j), s.chars j);
  ends = ground (arith, same (i + n), s.ends);
  inside = omega (arith, s.inside);
}

cons_string : (n i : ℕ) (b : Buffer) → b.at i ≢ 0 → StringFrom b (i + 1) n → StringFrom b i (suc n)
cons_string n i b more s = record {
  chars = λ j lt. elim (Bool-cases (j == 0)) [
    | inl here ↦ ground arith
    | inr there ↦ ground (arith, s.chars (j - 1))
  ];
  ends = ground (arith, s.ends);
  inside = omega (arith, s.inside);
}

upper-nonzero : (c : ℕ) → c ≢ 0 → upper c ≢ 0
upper-nonzero c more = ground arith

upper_loop-Uppered :
    (n k i : ℕ) (b : Buffer)
    → StringFrom b i n
    → n < k
    → (b' : Buffer) × (upper_loop k b i ≡ some b') × Uppered i n b b'
unfolding upper_loop
upper_loop-Uppered n zero i b s lt = absurd (omega arith)
upper_loop-Uppered zero (suc k) i b s lt =
    let nul : (b.at i == 0) ≡ true = ground (arith, s.ends) in
    (
      b,
      rw (load-inside b i (omega (arith, s.inside)), nul) refl,
      record { same_size = refl; string = s; text = refl; before = λ j lt'. refl },
    )
upper_loop-Uppered (suc n) (suc k) i b s lt =
    let more : (b.at i == 0) ≡ false = ground (arith, s.chars 0) in
    let first : b.at i ≢ 0 = ground (arith, s.chars 0) in
    let b₁ = set_upper b i in
    let (size, here, there) = set_upper-at b i in
    let s₁ = string_same n (i + 1) b b₁ size (λ j le. there j (ground arith)) (tail b i n s) in
    let (b', run, up) = upper_loop-Uppered n k (i + 1) b₁ s₁ (omega arith) in
    let byte : b'.at i ≡ upper (b.at i) = up.before i (omega arith) ∙ here in
    (
      b',
      rw
          (
            load-inside b i (omega (arith, s.inside)),
            more,
            store-upper b i (omega (arith, s.inside)),
          )
          run,
      record {
        same_size = up.same_size ∙ size;
        string =
            cons_string n i b' (λ nul. upper-nonzero (b.at i) first (sym byte ∙ nul)) up.string;
        text = rw (byte, up.text, bytes-same n (i + 1) b₁ b (λ j le. there j (ground arith))) refl;
        before = λ j lt'. up.before j (omega arith) ∙ there j (ground arith);
      },
    )

pub upper-Holds :
    (b : Buffer) (text : List ℕ)
    → Holds b text
    → (b' : Buffer) × (to_upper b ≡ some b') × (b'.size ≡ b.size) × Holds b' (uppers text)
unfolding to_upper
upper-Holds b text (n, s, e) =
    let (b', run, up) = upper_loop-Uppered n (b.size + 1) 0 b s (omega (arith, s.inside)) in
    (b', run, up.same_size, (n, up.string, up.text ∙ ap uppers e))
