-- ===== src/Terminal/Laws.antt =====
-- Printing ends, reads nothing behind the text, and leaves the cursor on the screen.
use bin_os_c.Base.{
  ℕ, zero, suc, ◌+◌, ◌-◌, ◌/◌, ◌^◌, ◌≤◌, ◌<◌, ◌≡◌, ◌≢◌, refl, Bool, true, false, Option, some,
  arith, ltb, leb, ◌==◌, if◌then◌else◌, Bool-cases, inl, inr, loop, loop_keeps, List, [], ◌∷◌,
  length, get_or, ◌*◌,
}
use bin_os_c.Base.Int.{ℤ, pos, pos_part}
use bin_os_c.CString.{Buffer}
use bin_os_c.CString.Laws.{StringFrom, IsString, tail, load-inside}
use bin_os_c.Draw.{Screen, move_cursor_to, move_cursor_up, move_cursor_right, draw_string}
use bin_os_c.Draw.Cursor.{OnScreen, Moves, move_cursor-Moves}
use bin_os_c.Draw.Clip.{Draws, ascii_char-Draws}
use bin_os_c.Draw.Strings.{string-Draws}
use bin_os_c.Terminal.{
  literal, scroll_pixel, clear_pixel, shell_scroll_up, shell_newline, put_char, tab_loop, at_margin,
  print_char, print_loop, shell_print_color, shell_print_prompt, line_height, text_color, codes,
}

-- A screen on which a line fits, with the cursor on it.
pub record Ready (s : Screen) : Type 0 where
  pub width_fits : s.fb_width ≤ 2 ^ 16
  pub height_fits : s.fb_height ≤ 2 ^ 16
  pub x_inside : s.cursor_position_x < s.fb_width
  pub y_inside : s.cursor_position_y < s.fb_height
  pub line_fits : line_height ≤ s.fb_height

-- A result, and a screen that is ready.
abbrev pub Prints : Option Screen → Type 0
Prints o = (s : Screen) × (o ≡ some s) × Ready s

pub Draws-Ready : (s s' : Screen) → Draws s s' → Ready s → Ready s'
Draws-Ready s s' d r = ground (arith, d.same_x, d.same_y, d.same_width, d.same_height)

on_screen : (s : Screen) → Ready s → OnScreen s
on_screen s r = ground arith

Moves-Ready : (s s' : Screen) → Moves s s' → Ready s → Ready s'
Moves-Ready s s' m r = ground (arith, m.1.same_width, m.1.same_height)

pub to-Ready : (x y : ℕ) (s : Screen) → Ready s → Ready (move_cursor_to x y s)
to-Ready x y s r = Moves-Ready s _ (move_cursor-Moves s (on_screen s r) 0 x y (pos 0)).4 r

up-Ready : (n : ℕ) (s : Screen) → Ready s → Ready (move_cursor_up n s)
up-Ready n s r = Moves-Ready s _ (move_cursor-Moves s (on_screen s r) n 0 0 (pos 0)).2 r

right-Ready : (n : ℕ) (s : Screen) → Ready s → Ready (move_cursor_right n s)
right-Ready n s r = Moves-Ready s _ (move_cursor-Moves s (on_screen s r) n 0 0 (pos 0)).0 r

scroll_pixel-Ready : (pitch y x : ℕ) (s : Screen) → Ready s → Ready (scroll_pixel pitch y x s)
unfolding scroll_pixel
scroll_pixel-Ready pitch y x s r = ground arith

clear_pixel-Ready : (pitch y x : ℕ) (s : Screen) → Ready s → Ready (clear_pixel pitch y x s)
unfolding clear_pixel
clear_pixel-Ready pitch y x s r = ground arith

scroll_up-Prints : (s : Screen) → Ready s → Prints (shell_scroll_up s)
unfolding shell_scroll_up
scroll_up-Prints s r =
    let pitch = s.fb_pitch / 4 in
    let moved =
      loop_keeps Ready (λ y. loop s.fb_width 0 (λ x. scroll_pixel pitch y x))
        (λ y.
          loop_keeps Ready (λ x. scroll_pixel pitch y x) (scroll_pixel-Ready pitch y) s.fb_width 0)
        (s.fb_height - line_height) 0 s r in
    let cleared =
      loop_keeps Ready (λ y. loop s.fb_width 0 (λ x. clear_pixel pitch y x))
        (λ y.
          loop_keeps Ready (λ x. clear_pixel pitch y x) (clear_pixel-Ready pitch y) s.fb_width 0)
        line_height (s.fb_height - line_height) _ moved in
    let high : ltb s.fb_height line_height ≡ false = ground arith in
    (_, rw high, up-Ready line_height _ cleared)

pub newline-Prints : (s : Screen) → Ready s → Prints (shell_newline s)
unfolding shell_newline
newline-Prints s r =
    let s₁ = move_cursor_to 0 (s.cursor_position_y + line_height) s in
    let r₁ = to-Ready 0 (s.cursor_position_y + line_height) s r in
    elim (Bool-cases (leb s₁.fb_height (s₁.cursor_position_y + line_height))) [
      | inl bottom ↦ rw bottom (scroll_up-Prints s₁ r₁)
      | inr above ↦ (s₁, rw above, r₁)
    ]

put_char-Ready : (c color : ℕ) (s : Screen) → Ready s → Ready (put_char c color s)
unfolding put_char
put_char-Ready c color s r = right-Ready 8 _ (Draws-Ready s _ (ascii_char-Draws _ _ c color s) r)

tab_loop-Prints : (spaces color : ℕ) (s : Screen) → Ready s → Prints (tab_loop spaces color s)
unfolding tab_loop
tab_loop-Prints zero color s r = (s, refl, r)
tab_loop-Prints (suc spaces) color s r =
    let s₁ = put_char 32 color s in
    let r₁ = put_char-Ready 32 color s r in
    elim (Bool-cases (at_margin s₁)) [
      | inl margin ↦ rw margin (newline-Prints s₁ r₁)
      | inr inside ↦ rw inside (tab_loop-Prints spaces color s₁ r₁)
    ]

print_char-Prints : (c color : ℕ) (s : Screen) → Ready s → Prints (print_char c color s)
unfolding print_char
print_char-Prints c color s r = elim (Bool-cases (c == 10)) [
  | inl newline ↦ rw newline (newline-Prints s r)
  | inr c₁ ↦ elim (Bool-cases (c == 13)) [
    | inl return ↦ (_, rw (c₁, return), to-Ready 0 s.cursor_position_y s r)
    | inr c₂ ↦ elim (Bool-cases (c == 9)) [
      | inl tab ↦ rw (c₁, c₂, tab) (tab_loop-Prints _ color s r)
      | inr c₃ ↦
          let s₁ = put_char c color s in
          let r₁ = put_char-Ready c color s r in
          elim (Bool-cases (at_margin s₁)) [
            | inl margin ↦ rw (c₁, c₂, c₃, margin) (newline-Prints s₁ r₁)
            | inr inside ↦ (s₁, rw (c₁, c₂, c₃, inside), r₁)
          ]
    ]
  ]
]

print_loop-Prints :
    (n k i : ℕ) (text : Buffer) (color : ℕ) (s : Screen)
    → StringFrom text i n
    → n < k
    → Ready s
    → Prints (print_loop k i text color s)
unfolding print_loop
print_loop-Prints n zero i text color s is lt r = absurd (omega arith)
print_loop-Prints zero (suc k) i text color s is lt r =
    (s, rw (load-inside text i (omega (arith, is.inside))) (ground (arith, is.ends)), r)
print_loop-Prints (suc n) (suc k) i text color s is lt r =
    let (s₁, run₁, r₁) = print_char-Prints (text.at i) color s r in
    let (s₂, run₂, r₂) =
      print_loop-Prints n k (i + 1) text color s₁ (tail text i n is) (omega arith) r₁ in
    let not_end : (text.at i == 0) ≡ false = ground (arith, is.chars 0) in
    (s₂, rw (load-inside text i (omega (arith, is.inside)), not_end, run₁) run₂, r₂)

-- On a screen of at most 2^16 pixels either way that has room for a line and the cursor on it,
-- printing a terminated string ends without a fault and leaves the cursor on the screen, whatever
-- line breaks, tabs and scrolling it takes.
pub print_color-Prints :
    (text : Buffer) (n color : ℕ) (s : Screen)
    → IsString text n
    → Ready s
    → Prints (shell_print_color text color s)
unfolding shell_print_color
print_color-Prints text n color s is r =
    print_loop-Prints n (text.size + 1) 0 text color s is (omega (arith, is.inside)) r

pub string-Prints :
    (x y : ℤ) (str : Buffer) (n color : ℕ) (s : Screen)
    → IsString str n
    → pos_part x + n * 8 < 2 ^ 31
    → pos_part y + 15 < 2 ^ 31
    → Ready s
    → Prints (draw_string x y str color s)
string-Prints x y str n color s is wide high r =
    let (s₁, run, d) = string-Draws x y str n color s is wide high in
    (s₁, run, Draws-Ready s s₁ d r)

abbrev pub nonzero : List ℕ → Bool
nonzero [] = true
nonzero (c ∷ cs) = if c == 0 then false else nonzero cs

nonzero-get_or : (cs : List ℕ) (j : ℕ) → nonzero cs ≡ true → j < length cs → get_or cs j 0 ≢ 0
nonzero-get_or [] j h lt = absurd (omega arith)
nonzero-get_or (c ∷ cs) zero h lt = ground arith
nonzero-get_or (c ∷ cs) (suc j) h lt = ground (arith, nonzero-get_or cs j)

pub get_or-length : (cs : List ℕ) → get_or cs (length cs) 0 ≡ 0
get_or-length [] = refl
get_or-length (c ∷ cs) = get_or-length cs

-- A constant without a zero character is a terminated string.
pub literal-IsString : (cs : List ℕ) → nonzero cs ≡ true → IsString (literal cs) (length cs)
unfolding literal
literal-IsString cs h = record {
  chars = λ j lt. ground (arith, nonzero-get_or cs j h lt);
  ends = ground (arith, get_or-length cs);
  inside = omega arith;
}

pub prompt-Prints : (s : Screen) → Ready s → Prints (shell_print_prompt s)
unfolding shell_print_prompt
prompt-Prints s r =
    let (s₁, run, r₁) =
      string-Prints (pos s.cursor_position_x) (pos s.cursor_position_y) (literal (codes "$ ")) 2
        text_color s (literal-IsString (codes "$ ") refl) (omega (arith, r.width_fits, r.x_inside))
        (omega (arith, r.height_fits, r.y_inside)) r in
    (move_cursor_right 16 s₁, rw run, right-Ready 16 s₁ r₁)
