-- ===== src/Shell/Command/Find.antt =====
-- Which command kernel/src/shell/shell.c runs for a name.
use bin_os_c.Base.{
  ℕ, ◌≡◌, ◌≢◌, ◌↔◌, refl, ◌⊎◌, inl, inr, Bool, true, some, List, [], arith, length, if◌then◌else◌,
  Bool-cases,
}
use bin_os_c.CString.{Buffer}
use bin_os_c.CString.Laws.{IsString, SameFrom, strcmp-Compares}
use bin_os_c.Terminal.{literal, codes}
use bin_os_c.Terminal.Laws.{nonzero, literal-IsString}
use bin_os_c.Shell.{Shell, M, pure, ◌>>=◌}
use bin_os_c.Shell.Input.{is_zero}
use bin_os_c.Shell.History.{is_zero_iff}
use bin_os_c.Shell.Command.{
  Command, hello, help, clear, echo, history, uptime, exit, unknown, is_named, find_command,
}

abbrev pub name_of : Command → List ℕ
name_of hello = codes "hello"
name_of help = codes "help"
name_of clear = codes "clear"
name_of echo = codes "echo"
name_of history = codes "history"
name_of uptime = codes "uptime"
name_of exit = codes "exit"
name_of unknown = []

-- The array holds the command's name.
abbrev pub IsName : Buffer → ℕ → Command → Type 0
IsName arg n c = SameFrom arg (literal (name_of c)) 0 n (length (name_of c))

-- The command of that name, and `unknown` where no command has it.
abbrev pub Found : Buffer → ℕ → Command → Type 0
Found arg n c =
    (c ≢ unknown) × IsName arg n c
    ⊎ (c ≡ unknown) × ((d : Command) → d ≢ unknown → ¬ IsName arg n d)

is_named_iff :
    (arg : Buffer) (n : ℕ) (cs : List ℕ) (s : Shell)
    → IsString arg n
    → nonzero cs ≡ true
    → (b : Bool) × (is_named arg cs s ≡ some (b, s))
      × ((b ≡ true) ↔ SameFrom arg (literal cs) 0 n (length cs))
unfolding is_named
is_named_iff arg n cs s is ne =
    let (r, run, iff) =
      strcmp-Compares arg (literal cs) n (length cs) is (literal-IsString cs ne) in
    (
      is_zero r,
      rw run,
      ((λ e. iff.0 ((is_zero_iff r).0 e)), λ same. (is_zero_iff r).1 (iff.1 same)),
    )

abbrev Finds : Buffer → ℕ → Shell → M Command → Type 0
Finds arg n s m = (c : Command) × (m s ≡ some (c, s)) × Found arg n c

-- One comparison of the chain.
next-Finds :
    (arg : Buffer) (n : ℕ) (s : Shell) (c : Command) (k : M Command)
    → IsString arg n
    → nonzero (name_of c) ≡ true
    → c ≢ unknown
    → (¬ IsName arg n c → Finds arg n s k)
    → Finds arg n s (is_named arg (name_of c) >>= λ b. if b then pure c else k)
next-Finds arg n s c k is ne known rest =
    let (b, run, iff) = is_named_iff arg n (name_of c) s is ne in
    elim (Bool-cases b) [
      | inl e ↦ (c, rw (run, e), inl (known, iff.0 e))
      | inr e ↦
          let (c', run', found) = rest (λ same. absurd (ground (arith, iff.1 same))) in
          (c', rw (run, e) run', found)
    ]

unnamed :
    (arg : Buffer) (n : ℕ)
    → ¬ IsName arg n hello
    → ¬ IsName arg n help
    → ¬ IsName arg n clear
    → ¬ IsName arg n echo
    → ¬ IsName arg n history
    → ¬ IsName arg n uptime
    → ¬ IsName arg n exit
    → (d : Command) → d ≢ unknown
    → ¬ IsName arg n d
unnamed arg n h₁ h₂ h₃ h₄ h₅ h₆ h₇ hello ne = h₁
unnamed arg n h₁ h₂ h₃ h₄ h₅ h₆ h₇ help ne = h₂
unnamed arg n h₁ h₂ h₃ h₄ h₅ h₆ h₇ clear ne = h₃
unnamed arg n h₁ h₂ h₃ h₄ h₅ h₆ h₇ echo ne = h₄
unnamed arg n h₁ h₂ h₃ h₄ h₅ h₆ h₇ history ne = h₅
unnamed arg n h₁ h₂ h₃ h₄ h₅ h₆ h₇ uptime ne = h₆
unnamed arg n h₁ h₂ h₃ h₄ h₅ h₆ h₇ exit ne = h₇
unnamed arg n h₁ h₂ h₃ h₄ h₅ h₆ h₇ unknown ne = absurd (ne refl)

-- For a terminated name: `find_command` ends, changes nothing, and gives a command exactly if the
-- name is that command's, and the unknown one if it is no command's.
pub find_command-Found :
    (arg : Buffer) (n : ℕ) (s : Shell)
    → IsString arg n
    → (c : Command) × (find_command arg s ≡ some (c, s)) × Found arg n c
unfolding find_command
find_command-Found arg n s is = next-Finds arg n s hello _ is refl (cc) λ h₁.
    next-Finds arg n s help _ is refl (cc) λ h₂. next-Finds arg n s clear _ is refl (cc) λ h₃.
      next-Finds arg n s echo _ is refl (cc) λ h₄. next-Finds arg n s history _ is refl (cc) λ h₅.
        next-Finds arg n s uptime _ is refl (cc) λ h₆.
          next-Finds arg n s exit _ is refl (cc)
            λ h₇. (unknown, refl, inr (refl, unnamed arg n h₁ h₂ h₃ h₄ h₅ h₆ h₇))
