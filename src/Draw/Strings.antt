-- ===== src/Draw/Strings.antt =====
-- Strings in kernel/src/draw/draw.c, and the `int`s that their coordinates and indices are.
use bin_os_c.Base.{
  ℕ, zero, suc, ◌+◌, ◌*◌, ◌^◌, ◌<◌, ◌≤◌, ◌≡◌, refl, true, false, Option, some, arith, ◌==◌,
  Bool-cases, inl, inr,
}
use native.Mathlib.Nat.{mul-le-mul_right}
use bin_os_c.Base.Int.{ℤ, pos, ◌+ℤ◌, pos_part, add-pos_part, below-ltb_ℤ}
use bin_os_c.CString.{Buffer}
use bin_os_c.CString.Laws.{StringFrom, IsString, tail, load-inside}
use bin_os_c.Draw.{
  Screen, draw_ascii_char, draw_ascii_char_with_bg, draw_string_loop, draw_string, font_width,
  draw_string_with_bg, draw_string_with_bg_loop, column_fits, row_fits, cell_fits, printable,
}
use bin_os_c.Draw.Clip.{Draws, Draws-refl, Draws-trans, ascii_char-Draws, ascii_char_with_bg-Draws}

column : (x : ℤ) → pos_part x + 8 < 2 ^ 31 → column_fits x ≡ true
column x lt = below-ltb_ℤ (x +ℤ pos 8) (2 ^ 31) (omega (arith, add-pos_part x 8))

row : (y : ℤ) → pos_part y + 15 < 2 ^ 31 → row_fits y ≡ true
row y lt = below-ltb_ℤ (y +ℤ pos 15) (2 ^ 31) (omega (arith, add-pos_part y 15))

cell : (x y : ℤ) (c : ℕ) → column_fits x ≡ true → row_fits y ≡ true → cell_fits x y c ≡ true
cell x y c e e' =
    rw (e, e') (elim (Bool-cases (printable c)) [ inl on ↦ rw on refl | inr off ↦ rw off refl ])

string_loop-Draws :
    (n k i : ℕ) (x y : ℤ) (str : Buffer) (color : ℕ) (s : Screen)
    → StringFrom str i n
    → n < k
    → pos_part x + n * 8 < 2 ^ 31
    → pos_part y + 15 < 2 ^ 31
    → (s' : Screen) × (draw_string_loop k i x y str color s ≡ some s') × Draws s s'
unfolding draw_string_loop
string_loop-Draws n zero i x y str color s is lt wide high = absurd (omega arith)
string_loop-Draws zero (suc k) i x y str color s is lt wide high =
    (s, rw (load-inside str i (omega (arith, is.inside))) (ground (arith, is.ends)), Draws-refl s)
string_loop-Draws (suc n) (suc k) i x y str color s is lt wide high =
    let (s', run, d) =
      string_loop-Draws n k (i + 1) (x +ℤ pos font_width) y str color
        (draw_ascii_char x y (str.at i) color s) (tail str i n is) (omega arith)
        (omega (arith, add-pos_part x 8)) high in
    let not_end : (str.at i == 0) ≡ false = ground (arith, is.chars 0) in
    let fits = cell x y (str.at i) (column x (omega arith)) (row y high) in
    (
      s',
      rw (load-inside str i (omega (arith, is.inside)), not_end, fits) run,
      Draws-trans s (draw_ascii_char x y (str.at i) color s) s'
          (ascii_char-Draws x y (str.at i) color s) d,
    )

pub string-Draws :
    (x y : ℤ) (str : Buffer) (n color : ℕ) (s : Screen)
    → IsString str n
    → pos_part x + n * 8 < 2 ^ 31
    → pos_part y + 15 < 2 ^ 31
    → (s' : Screen) × (draw_string x y str color s ≡ some s') × Draws s s'
unfolding draw_string
string-Draws x y str n color s is =
    string_loop-Draws n (str.size + 1) 0 x y str color s is (omega (arith, is.inside))

string_with_bg_loop-Draws :
    (n k i : ℕ) (x y : ℤ) (str : Buffer) (fg bg : ℕ) (s : Screen)
    → StringFrom str i n
    → n < k
    → pos_part x + n * 8 < 2 ^ 31
    → pos_part y + 15 < 2 ^ 31
    → (s' : Screen) × (draw_string_with_bg_loop k i x y str fg bg s ≡ some s') × Draws s s'
unfolding draw_string_with_bg_loop
string_with_bg_loop-Draws n zero i x y str fg bg s is lt wide high = absurd (omega arith)
string_with_bg_loop-Draws zero (suc k) i x y str fg bg s is lt wide high =
    (s, rw (load-inside str i (omega (arith, is.inside))) (ground (arith, is.ends)), Draws-refl s)
string_with_bg_loop-Draws (suc n) (suc k) i x y str fg bg s is lt wide high =
    let s₁ = draw_ascii_char_with_bg x y (str.at i) fg bg s in
    let (s', run, d) =
      string_with_bg_loop-Draws n k (i + 1) (x +ℤ pos font_width) y str fg bg s₁ (tail str i n is)
        (omega arith) (omega (arith, add-pos_part x 8)) high in
    let not_end : (str.at i == 0) ≡ false = ground (arith, is.chars 0) in
    (
      s',
      rw (load-inside str i (omega (arith, is.inside)), not_end, column x (omega arith), row y high)
          run,
      Draws-trans s s₁ s' (ascii_char_with_bg-Draws x y (str.at i) fg bg s) d,
    )

-- What `draw_string` and `draw_string_with_bg` do to a screen whose indices are `int`s.
abbrev pub DrawsBelow : Screen → Option Screen → Type 0
DrawsBelow s o =
    (s' : Screen) × (o ≡ some s') × Draws s s' × ((a : ℕ) → 2 ^ 31 ≤ a → s'.pixel a ≡ s.pixel a)

-- No pixel of a screen that has less than 2^31 words stands behind them.
Draws-below :
    (s s' : Screen)
    → Draws s s'
    → s.fb_width ≤ s.fb_pitch
    → s.fb_height * s.fb_pitch ≤ 2 ^ 31
    → (a : ℕ) → 2 ^ 31 ≤ a
    → s'.pixel a ≡ s.pixel a
Draws-below s s' d wide fits a above = d.outside a (λ px py lt lt' e.
    let one_row : py + 1 ≤ s.fb_height = omega arith in
    let rows = mul-le-mul_right s.fb_pitch one_row in
    let step : (py + 1) * s.fb_pitch ≡ py * s.fb_pitch + s.fb_pitch = omega arith in omega arith)

-- For a terminated string whose cells have coordinates below 2^31, and a screen whose rows are no
-- wider than their distance and end below word 2^31: `draw_string` and `draw_string_with_bg` end,
-- read nothing behind the string, compute no coordinate above an `int`, and change no word of the
-- frame buffer that is not a pixel of the screen, and so none at or above 2^31; coordinates may
-- be negative or right of the screen.
pub draw_string-DrawsBelow :
    (x y : ℤ) (str : Buffer) (n color bg : ℕ) (s : Screen)
    → IsString str n
    → pos_part x + n * 8 < 2 ^ 31
    → pos_part y + 15 < 2 ^ 31
    → s.fb_width ≤ s.fb_pitch
    → s.fb_height * s.fb_pitch ≤ 2 ^ 31
    → DrawsBelow s (draw_string x y str color s)
      × DrawsBelow s (draw_string_with_bg x y str color bg s)
unfolding draw_string_with_bg
draw_string-DrawsBelow x y str n color bg s is wide high pitch fits =
    let (s₁, run₁, d₁) = string-Draws x y str n color s is wide high in
    let (s₂, run₂, d₂) =
      string_with_bg_loop-Draws n (str.size + 1) 0 x y str color bg s is (omega (arith, is.inside))
        wide high in
    ((s₁, run₁, d₁, Draws-below s s₁ d₁ pitch fits), (s₂, run₂, d₂, Draws-below s s₂ d₂ pitch fits))
