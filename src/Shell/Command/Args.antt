-- ===== src/Shell/Command/Args.antt =====
-- How kernel/src/shell/shell.c takes a command apart.
use bin_os_c.Base.{
  ℕ, zero, suc, ◌+◌, ◌-◌, ◌≤◌, ◌<◌, ◌≡◌, ◌≢◌, refl, sym, subst, ◌∙◌, ◌⊎◌, inl, inr, true, false,
  some, arith, ◌==◌, Bool-cases, eq_of_==,
}
use bin_os_c.CString.{Buffer}
use bin_os_c.CString.Laws.{IsString, load-inside}
use bin_os_c.Shell.Command.{
  Args, max_args, max_arg_length, is_blank, set_arg, parse_loop, parse_args,
}
use bin_os_c.Shell.Shift.{written, store-inside}
use bin_os_c.Shell.Command.Word.{Blanks, Word, skip_blanks-Blanks, Copies, copy_word-Copies}

-- From `i` on the command has `m` arguments, and the array holds them from entry `k` on: blanks,
-- an argument, and so on, and only blanks behind the last unless the array is full.
abbrev pub Splits : Buffer → ℕ → ℕ → Args → ℕ → ℕ → Type 0
Splits b n i args k zero = (k ≡ max_args) ⊎ Blanks b i n
Splits b n i args k (suc m) =
    (p : ℕ) × (l : ℕ) × (i ≤ p)
    × Blanks b i p
    × Word b n p l (args k)
    × Splits b n (p + l) args (k + 1) m

-- Entries below `k` do not matter.
set_arg-other : (k : ℕ) (arg : Buffer) (args : Args) (j : ℕ) → j ≢ k → set_arg k arg args j ≡ args j
unfolding set_arg
set_arg-other k arg args j ne = let e : (j == k) ≡ false = ground arith in rw e refl

set_arg-there : (k : ℕ) (arg : Buffer) (args : Args) → set_arg k arg args k ≡ arg
unfolding set_arg
set_arg-there k arg args = let e : (k == k) ≡ true = ground arith in rw e refl

abbrev pub HasRoom : Args → Type 0
HasRoom args = (k : ℕ) → k < max_args → (args k).size ≡ max_arg_length

set_arg-HasRoom :
    (k : ℕ) (arg : Buffer) (args : Args)
    → arg.size ≡ max_arg_length
    → HasRoom args
    → HasRoom (set_arg k arg args)
unfolding set_arg
set_arg-HasRoom k arg args size room j lt = elim (Bool-cases (j == k)) [
  | inl e ↦ rw e size
  | inr e ↦ rw e (room j lt)
]

-- The first zero stands at the end.
at_end : (b : Buffer) (n i : ℕ) → IsString b n → i ≤ n → (b.at i == 0) ≡ true → i ≡ n
at_end b n i is le e = ground (arith, is.chars i)

Word-Copies :
    (b : Buffer) (n p q l : ℕ) (arg d arg' : Buffer)
    → Copies b n p (max_arg_length - 1) arg 0 q d l
    → is_blank (b.at p) ≡ false
    → p < n
    → d.size ≡ max_arg_length
    → IsString b n
    → arg' ≡ written d l 0
    → Word b n p l arg'
Word-Copies b n p q l arg d arg' w solid lt size is e = subst (Word b n p l) (sym e) (record {
  some_chars = ground (arith, w.longest, w.same_length);
  short = omega (arith, w.most, w.same_length);
  fits = omega (arith, w.same_length, w.fits);
  solid = λ k ge lt'. w.solid k ge (omega (arith, w.same_length));
  longest = ground (arith, w.longest, w.same_length);
  string = record {
    chars = λ k lt'.
        ground (arith, w.copied k, w.same_length, w.solid (p + k), is.chars (p + k), w.fits);
    ends = ground arith;
    inside = omega (arith, w.most, w.same_length);
  };
  copied = λ k lt'. ground (arith, w.copied k, w.same_length);
})

parse_loop-Splits :
    (left : ℕ) (b : Buffer) (n i : ℕ) (args : Args) (k : ℕ)
    → IsString b n
    → i ≤ n
    → k + left ≡ max_args
    → HasRoom args
    → (args' : Args) × (argc : ℕ) × (m : ℕ) × (parse_loop left b i args k ≡ some (args', argc))
      × (argc ≡ k + m)
      × (argc ≤ max_args)
      × ((j : ℕ) → j < k → args' j ≡ args j)
      × Splits b n i args' k m
unfolding parse_loop
parse_loop-Splits zero b n i args k is le e room = (
  args,
  k,
  0,
  rw (load-inside b i (omega (arith, is.inside))),
  omega arith,
  omega arith,
  (λ j lt. refl),
  inl (omega arith),
)
parse_loop-Splits (suc left) b n i args k is le e room =
    let load = load-inside b i (omega (arith, is.inside)) in
    elim (Bool-cases (b.at i == 0)) [
      | inl end ↦
          let last = at_end b n i is le end in
          (
            args,
            k,
            0,
            rw (load, end),
            omega arith,
            omega arith,
            (λ j lt. refl),
            inr (λ j ge lt. absurd (omega arith)),
          )
      | inr on ↦
          let (p, run₁, ge, le', blanks, solid) =
            skip_blanks-Blanks (n - i) (b.size + 1) b n i is (omega arith)
              (omega (arith, is.inside)) in
          let load₁ = load-inside b p (omega (arith, is.inside)) in
          elim (Bool-cases (b.at p == 0)) [
            | inl end ↦
                let last = at_end b n p is le' end in
                (
                  args,
                  k,
                  0,
                  rw (load, on, run₁, load₁, end),
                  omega arith,
                  omega arith,
                  (λ j lt. refl),
                  inr (λ j ge' lt. blanks j ge' (omega arith)),
                )
            | inr more ↦
                let (q, d, l, run₂, w) =
                  copy_word-Copies (max_arg_length - 1) b n p (args k) 0 is le'
                    (omega (arith, room k (omega arith))) in
                let arg = written d l 0 in
                let size : d.size ≡ max_arg_length = w.same_size ∙ room k (omega arith) in
                let (args', argc, m, run₃, count, most, before, rest) =
                  parse_loop-Splits left b n q (set_arg k arg args) (k + 1) is w.fits (omega arith)
                    (set_arg-HasRoom k arg args size room) in
                let there : args' k ≡ arg = before k (omega arith) ∙ set_arg-there k arg args in
                let lt : p < n = ground (arith, is.ends) in
                let store = store-inside d l 0 (omega (arith, size, w.same_length, w.most)) in
                (
                  args',
                  argc,
                  suc m,
                  rw (load, on, run₁, load₁, more, run₂, store) run₃,
                  omega arith,
                  most,
                  (λ j lt. before j (omega arith) ∙ set_arg-other k arg args j (omega arith)),
                  (
                    p,
                    l,
                    ge,
                    blanks,
                    Word-Copies b n p q l (args k) d (args' k) w solid lt size is there,
                    subst (λ (x : ℕ). Splits b n x args' (k + 1) m) (omega (arith, w.same_length))
                        rest,
                  ),
                )
          ]
    ]

-- For a terminated command and an argument array of eight rows of 32 bytes: `parse_args` ends
-- with at most eight arguments, which are, one after another, the next characters that are no
-- blanks, up to a blank, the end or 31 characters.
pub parse_args-Splits :
    (b : Buffer) (n : ℕ) (args : Args)
    → IsString b n
    → HasRoom args
    → (args' : Args) × (argc : ℕ) × (parse_args b args ≡ some (args', argc))
      × (argc ≤ max_args)
      × Splits b n 0 args' 0 argc
unfolding parse_args
parse_args-Splits b n args is room =
    let (args', argc, m, run, count, most, before, rest) =
      parse_loop-Splits max_args b n 0 args 0 is (omega arith) refl room in
    (args', argc, run, most, subst (Splits b n 0 args' 0) (omega arith) rest)

pub Splits-IsString :
    (b : Buffer) (n i : ℕ) (args : Args) (k m : ℕ)
    → Splits b n i args k m
    → (j : ℕ) → k ≤ j
    → j < k + m
    → (l : ℕ) × IsString (args j) l
Splits-IsString b n i args k zero sp j le lt = absurd (omega arith)
Splits-IsString b n i args k (suc m) (p, l, ge, blanks, word, rest) j le lt =
    elim (Bool-cases (j == k)) [
      | inl e ↦ (l, subst (λ (x : ℕ). IsString (args x) l) (sym (eq_of_== j k e)) word.string)
      | inr ne ↦ Splits-IsString b n (p + l) args (k + 1) m rest j (ground arith) (omega arith)
    ]
