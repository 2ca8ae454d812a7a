-- ===== src/Keyboard/Logs.antt =====
-- The messages of kernel/src/ps2_keyboard/keyboard.c, which go to the serial port.
use bin_os_c.Base.{
  ℕ, zero, suc, ◌+◌, ◌<◌, ◌≡◌, ◌^◌, refl, subst, Bool, true, not, ◌&&◌, some, List, [], ◌∷◌, arith,
  ◌==◌, all_below, length,
}
use bin_os_c.Base.Int.{pos}
use bin_os_c.CString.{Buffer}
use bin_os_c.CString.Laws.{IsString}
use bin_os_c.Terminal.{literal, codes}
use bin_os_c.Terminal.Laws.{get_or-length}
use bin_os_c.Serial.{Arg, int, string}
use bin_os_c.Serial.Printf.{decimal, character, some_text, Renders, finish, plain, converts}

-- A character that is printed as it is.
abbrev pub is_plain : ℕ → Bool
is_plain c = not (c == 0) && not (c == b'%')

-- The format prints something of the arguments.
abbrev pub Printable : Buffer → List Arg → Type 0
Printable format values = (text : List ℕ) × Renders format 0 values text

-- Characters in front of a text.
front-Renders :
    (n i : ℕ) (b : Buffer) (values : List Arg)
    → all_below n (λ j. is_plain (b.at (i + j))) ≡ true
    → (text : List ℕ) × Renders b (i + n) values text
    → (text : List ℕ) × Renders b i values text
unfolding all_below
front-Renders zero i b values ok (text, r) =
    (text, subst (λ j. Renders b j values text) (omega arith) r)
front-Renders (suc n) i b values ok (text, r) =
    let is : is_plain (b.at (i + n)) ≡ true = ground arith in
    front-Renders n i b values (ground arith) (
      b.at (i + n) ∷ text,
      plain (i + n) values text (ground arith) (ground arith)
          (subst (λ j. Renders b j values text) (omega arith) r),
    )

-- A message without a conversion.
pub plain-Printable :
    (cs : List ℕ)
    → all_below (length cs) (λ j. is_plain ((literal cs).at (0 + j))) ≡ true
    → Printable (literal cs) []
unfolding literal
plain-Printable cs ok =
    front-Renders (length cs) 0 (literal cs) [] ok
      ([], finish (0 + length cs) [] (ground (arith, get_or-length cs)))

pub function_key-Printable :
    (n : ℕ) → n < 2 ^ 31 → Printable (literal (codes "[F%d]\r\n")) (int (pos n) ∷ [])
unfolding literal all_below
function_key-Printable n lt =
    front-Renders 2 0 (literal (codes "[F%d]\r\n")) (int (pos n) ∷ []) refl (
      _,
      converts 2 (int (pos n) ∷ []) [] _ _ refl (decimal (pos n) [] lt)
          (front-Renders 3 4 (literal (codes "[F%d]\r\n")) [] refl ([], finish 7 [] refl)).1,
    )

pub caps-Printable :
    (cs : List ℕ) (n : ℕ)
    → IsString (literal cs) n
    → Printable (literal (codes "[CAPS LOCK %s]\r\n")) (string (some (literal cs)) ∷ [])
unfolding literal all_below
caps-Printable cs n is =
    front-Renders 11 0 (literal (codes "[CAPS LOCK %s]\r\n")) (string (some (literal cs)) ∷ []) refl
      (
        _,
        converts 11 (string (some (literal cs)) ∷ []) [] _ _ refl (some_text (literal cs) n [] is)
            (front-Renders 3 13 (literal (codes "[CAPS LOCK %s]\r\n")) [] refl
              ([], finish 16 [] refl)).1,
      )

pub alt-Printable : (c : ℕ) → Printable (literal (codes "[ALT+%c]\r\n")) (int (pos c) ∷ [])
unfolding literal all_below
alt-Printable c = front-Renders 5 0 (literal (codes "[ALT+%c]\r\n")) (int (pos c) ∷ []) refl (
  _,
  converts 5 (int (pos c) ∷ []) [] _ _ refl (character (pos c) [])
      (front-Renders 3 7 (literal (codes "[ALT+%c]\r\n")) [] refl ([], finish 10 [] refl)).1,
)

pub character-Printable : (c : ℕ) → Printable (literal (codes "%c")) (int (pos c) ∷ [])
unfolding literal
character-Printable c =
    (_, converts 0 (int (pos c) ∷ []) [] _ _ refl (character (pos c) []) (finish 2 [] refl))
