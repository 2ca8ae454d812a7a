-- ===== src/CString/Laws.antt =====
-- Strings in arrays, `strlen` and `strcmp`.
use bin_os_c.Base.{
  ℕ, zero, suc, ◌+◌, ◌<◌, ◌≡◌, ◌≢◌, ◌↔◌, refl, ◌∙◌, sym, inl, inr, true, false, Option, some, arith,
  ◌==◌, if◌then◌else◌, Bool-cases, eq_of_==,
}
use bin_os_c.Base.Int.{ℤ, pos, sub_ℕ, sub_ℕ-zero}
use bin_os_c.CString.{Buffer, load, strlen_loop, strlen, strcmp_loop, strcmp, goes_on}

-- The array holds a string of `n` characters from offset `i` on, and its terminator.
pub record StringFrom (b : Buffer) (i n : ℕ) : Type 0 where
  pub chars : (j : ℕ) → j < n → b.at (i + j) ≢ 0
  pub ends : b.at (i + n) ≡ 0
  pub inside : i + n < b.size

abbrev pub IsString : Buffer → ℕ → Type 0
IsString b n = StringFrom b 0 n

pub tail : (b : Buffer) (i n : ℕ) → StringFrom b i (suc n) → StringFrom b (i + 1) n
tail b i n s = record {
  chars = λ j lt. ground (arith, s.chars (suc j));
  ends = ground (arith, s.ends);
  inside = omega (arith, s.inside);
}

pub load-inside : (b : Buffer) (i : ℕ) → i < b.size → load b i ≡ some (b.at i)
unfolding load
load-inside b i lt = ground arith

strlen_loop-StringFrom :
    (n k i : ℕ) (b : Buffer) → StringFrom b i n → n < k → strlen_loop k b i ≡ some (i + n)
unfolding strlen_loop
strlen_loop-StringFrom n zero i b s lt = absurd (omega arith)
strlen_loop-StringFrom zero (suc k) i b s lt =
    rw (load-inside b i (omega (arith, s.inside))) (ground (arith, s.ends))
strlen_loop-StringFrom (suc n) (suc k) i b s lt =
    rw (load-inside b i (omega (arith, s.inside)))
      (ground (arith, s.chars 0, strlen_loop-StringFrom n k (i + 1) b (tail b i n s)))

-- `strlen` of a terminated string is the number of its characters.
pub strlen-IsString : (b : Buffer) (n : ℕ) → IsString b n → strlen (some b) ≡ some n
unfolding strlen
strlen-IsString b n s =
    strlen_loop-StringFrom n (b.size + 1) 0 b s (omega (arith, s.inside)) ∙ ground arith

-- An array holds one string.
pub IsString-length : (b : Buffer) (n m : ℕ) → IsString b n → IsString b m → n ≡ m
IsString-length b n m s t = some_inj (sym (strlen-IsString b n s) ∙ strlen-IsString b m t)
  where
    some_inj : {x y : ℕ} → some x ≡ some y → x ≡ y
    some_inj e = ground arith

-- Two strings from an offset on are the same.
abbrev pub SameFrom : Buffer → Buffer → ℕ → ℕ → ℕ → Type 0
SameFrom a b i n m = (n ≡ m) × ((j : ℕ) → j < n → a.at (i + j) ≡ b.at (i + j))

abbrev Compares : Buffer → Buffer → ℕ → ℕ → ℕ → Option ℤ → Type 0
Compares a b i n m o = (r : ℤ) × (o ≡ some r) × ((r ≡ pos 0) ↔ SameFrom a b i n m)

sub_ℕ_self : (a b : ℕ) → a ≡ b → sub_ℕ a b ≡ pos 0
sub_ℕ_self a b e = ground arith

SameFrom-tail :
    (a b : Buffer) (i n m : ℕ)
    → a.at i ≡ b.at i
    → SameFrom a b (i + 1) n m ↔ SameFrom a b i (suc n) (suc m)
SameFrom-tail a b i n m e = (
  (λ same. (omega (arith, same.0), go same.1)),
  λ same. (omega (arith, same.0), λ j lt. ground (arith, same.1 (suc j))),
)
  where
    go :
        ((j : ℕ) → j < n → a.at (i + 1 + j) ≡ b.at (i + 1 + j))
        → (j : ℕ) → j < suc n
        → a.at (i + j) ≡ b.at (i + j)
    go same zero lt = ground arith
    go same (suc j) lt = ground (arith, same j)

-- The loop stops at `i`: what is left to see is whether the bytes there are the same.
stops :
    (a b : Buffer) (i n m : ℕ) (rest : Option ℤ)
    → goes_on (a.at i) (b.at i) ≡ false
    → (a.at i ≡ b.at i) ↔ SameFrom a b i n m
    → Compares a b i n m
        (if goes_on (a.at i) (b.at i) then rest else some (sub_ℕ (a.at i) (b.at i)))
stops a b i n m rest stop same = (
  sub_ℕ (a.at i) (b.at i),
  rw stop,
  ((λ e. same.0 (sub_ℕ-zero (a.at i) (b.at i) e)), λ e. sub_ℕ_self (a.at i) (b.at i) (same.1 e)),
)

strcmp_loop-Compares :
    (n m k i : ℕ) (a b : Buffer)
    → StringFrom a i n
    → StringFrom b i m
    → n < k
    → Compares a b i n m (strcmp_loop k a b i)
unfolding strcmp_loop
strcmp_loop-Compares n m zero i a b s t lt = absurd (omega arith)
strcmp_loop-Compares zero zero (suc k) i a b s t lt =
    rw (load-inside a i (omega (arith, s.inside)), load-inside b i (omega (arith, t.inside)))
      (stops a b i 0 0 _ (ground (arith, s.ends))
        ((λ e. (refl, λ j lt'. absurd (omega arith))), λ e. ground (arith, s.ends, t.ends)))
strcmp_loop-Compares zero (suc m) (suc k) i a b s t lt =
    rw (load-inside a i (omega (arith, s.inside)), load-inside b i (omega (arith, t.inside)))
      (stops a b i 0 (suc m) _ (ground (arith, s.ends))
        ((λ e. absurd (ground (arith, s.ends, t.chars 0))), λ e. absurd (omega (arith, e.0))))
strcmp_loop-Compares (suc n) zero (suc k) i a b s t lt =
    rw (load-inside a i (omega (arith, s.inside)), load-inside b i (omega (arith, t.inside)))
      (stops a b i (suc n) 0 _ (ground (arith, t.ends))
        ((λ e. absurd (ground (arith, t.ends, s.chars 0))), λ e. absurd (omega (arith, e.0))))
strcmp_loop-Compares (suc n) (suc m) (suc k) i a b s t lt =
    rw (load-inside a i (omega (arith, s.inside)), load-inside b i (omega (arith, t.inside)))
      (elim (Bool-cases (a.at i == b.at i)) [
        | inl same ↦
            let on : goes_on (a.at i) (b.at i) ≡ true = ground (arith, s.chars 0, t.chars 0) in
            let step = SameFrom-tail a b i n m (eq_of_== (a.at i) (b.at i) same) in
            let (r, run, iff) =
              strcmp_loop-Compares n m k (i + 1) a b (tail a i n s) (tail b i m t) (omega arith) in
            (r, rw on run, ((λ e. step.0 (iff.0 e)), λ e. iff.1 (step.1 e)))
        | inr differ ↦
            stops a b i (suc n) (suc m) _ (rw differ (ground arith))
              ((λ e. absurd (ground arith)), λ e. absurd (ground (arith, e.1 0)))
      ])

-- `strcmp` of two terminated strings ends, and returns 0 exactly when they have the same length
-- and characters.
pub strcmp-Compares :
    (a b : Buffer) (n m : ℕ)
    → IsString a n
    → IsString b m
    → Compares a b 0 n m (strcmp (some a) (some b))
unfolding strcmp
strcmp-Compares a b n m s t =
    strcmp_loop-Compares n m (a.size + 1) 0 a b s t (omega (arith, s.inside))
