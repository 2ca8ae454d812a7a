-- ===== src/Draw/Clip.antt =====
-- What the drawing functions of kernel/src/draw/draw.c write: pixels of the screen only.
use bin_os_c.Base.{
  ℕ, zero, suc, ◌+◌, ◌-◌, ◌*◌, ◌<◌, ◌≡◌, ◌≢◌, refl, ◌∙◌, ◌&&◌, arith, ltb, if◌then◌else◌,
  Bool-cases, inl, inr, loop, loop_keeps, get_or, [],
}
use bin_os_c.Base.Int.{ℤ, pos, negsuc, ◌+ℤ◌, ltb_ℤ, pos_part}
use bin_os_c.Draw.Font.{Glyph, font}
use bin_os_c.Draw.{
  Screen, plot, plot_clipped, lit, draw_char, draw_char_with_bg, draw_ascii_char,
  draw_ascii_char_with_bg, rect_row, rect_rows, draw_rect, printable,
}

-- `s'` is `s` with other colours at some pixels of the screen: the sizes and the cursor are the
-- same, and every word of the frame buffer that is no pixel of the screen.
pub record Draws (s s' : Screen) : Type 0 where
  pub same_width : s'.fb_width ≡ s.fb_width
  pub same_height : s'.fb_height ≡ s.fb_height
  pub same_pitch : s'.fb_pitch ≡ s.fb_pitch
  pub same_x : s'.cursor_position_x ≡ s.cursor_position_x
  pub same_y : s'.cursor_position_y ≡ s.cursor_position_y
  pub outside :
      (a : ℕ)
      → ((px py : ℕ) → px < s.fb_width → py < s.fb_height → a ≢ py * s.fb_pitch + px)
      → s'.pixel a ≡ s.pixel a

pub Draws-refl : (s : Screen) → Draws s s
Draws-refl s = record {
  same_width = refl;
  same_height = refl;
  same_pitch = refl;
  same_x = refl;
  same_y = refl;
  outside = λ a out. refl;
}

pub Draws-trans : (s s' s'' : Screen) → Draws s s' → Draws s' s'' → Draws s s''
Draws-trans s s' s'' d e = record {
  same_width = e.same_width ∙ d.same_width;
  same_height = e.same_height ∙ d.same_height;
  same_pitch = e.same_pitch ∙ d.same_pitch;
  same_x = e.same_x ∙ d.same_x;
  same_y = e.same_y ∙ d.same_y;
  outside = λ a out.
      e.outside a (λ px py lt lt'.
        rw d.same_pitch (out px py (rw d.same_width at lt) (rw d.same_height at lt')))
      ∙ d.outside a out;
}

pub plot-Draws :
    (px py color : ℕ) (s : Screen)
    → px < s.fb_width
    → py < s.fb_height
    → Draws s (plot px py color s)
unfolding plot
plot-Draws px py color s lt lt' = record {
  same_width = refl;
  same_height = refl;
  same_pitch = refl;
  same_x = refl;
  same_y = refl;
  outside = λ a out. ground (arith, out px py lt lt');
}

clipped-Draws : (px py : ℤ) (color : ℕ) (s : Screen) → Draws s (plot_clipped px py color s)
unfolding plot_clipped
clipped-Draws (pos px) (pos py) color s =
    elim (Bool-cases (ltb px s.fb_width && ltb py s.fb_height)) [
      | inl on ↦ rw on (plot-Draws px py color s (ground arith) (ground arith))
      | inr off ↦ rw off (Draws-refl s)
    ]
clipped-Draws (pos px) (negsuc py) color s = Draws-refl s
clipped-Draws (negsuc px) py color s = Draws-refl s

-- A loop of drawing steps draws.
loop-Draws :
    (left i : ℕ) (body : ℕ → Screen → Screen)
    → ((k : ℕ) (s : Screen) → Draws s (body k s))
    → (s : Screen) → Draws s (loop left i body s)
loop-Draws left i body step s =
    loop_keeps (Draws s) body (λ k s' d. Draws-trans s s' (body k s') d (step k s')) left i s
      (Draws-refl s)

pub char-Draws : (x y : ℤ) (g : Glyph) (color : ℕ) (s : Screen) → Draws s (draw_char x y g color s)
unfolding draw_char
char-Draws x y g color s =
    loop-Draws 16 0 _ (λ row s'. loop-Draws 8 0 _ (λ col s''. dot row col s'') s') s
  where
    dot :
        (row col : ℕ) (s : Screen)
        → Draws s (
            if lit (get_or g row 0) col
            then plot_clipped (x +ℤ pos col) (y +ℤ pos row) color s
            else s)
    dot row col s = elim (Bool-cases (lit (get_or g row 0) col)) [
      | inl on ↦ rw on (clipped-Draws (x +ℤ pos col) (y +ℤ pos row) color s)
      | inr off ↦ rw off (Draws-refl s)
    ]

pub char_with_bg-Draws :
    (x y : ℤ) (g : Glyph) (fg bg : ℕ) (s : Screen) → Draws s (draw_char_with_bg x y g fg bg s)
unfolding draw_char_with_bg
char_with_bg-Draws x y g fg bg s =
    loop-Draws 16 0 _ (λ row s'. loop-Draws 8 0 _ (λ col s''. clipped-Draws _ _ _ s'') s') s

pub ascii_char-Draws :
    (x y : ℤ) (c color : ℕ) (s : Screen) → Draws s (draw_ascii_char x y c color s)
unfolding draw_ascii_char
ascii_char-Draws x y c color s = elim (Bool-cases (printable c)) [
  | inl on ↦ rw on (char-Draws x y (get_or font (c - 32) []) color s)
  | inr off ↦ rw off (Draws-refl s)
]

pub ascii_char_with_bg-Draws :
    (x y : ℤ) (c fg bg : ℕ) (s : Screen) → Draws s (draw_ascii_char_with_bg x y c fg bg s)
unfolding draw_ascii_char_with_bg
ascii_char_with_bg-Draws x y c fg bg s = elim (Bool-cases (printable c)) [
  | inl on ↦ rw on (char_with_bg-Draws x y (get_or font (c - 32) []) fg bg s)
  | inr off ↦
      rw off
        (loop-Draws 16 0 _ (λ row s'. loop-Draws 8 0 _ (λ col s''. clipped-Draws _ _ _ s'') s') s)
]

rect_row-Draws :
    (left : ℕ) (px py : ℤ) (color : ℕ) (s : Screen) → Draws s (rect_row left px py color s)
unfolding rect_row
rect_row-Draws zero px py color s = Draws-refl s
rect_row-Draws (suc left) px py color s = elim (Bool-cases (ltb_ℤ px (pos s.fb_width))) [
  | inl on ↦ rw on (
      Draws-trans s (plot_clipped px py color s) _ (clipped-Draws px py color s)
        (rect_row-Draws left (px +ℤ pos 1) py color (plot_clipped px py color s)))
  | inr off ↦ rw off (Draws-refl s)
]

rect_rows-Draws :
    (left width : ℕ) (x py : ℤ) (color : ℕ) (s : Screen)
    → Draws s (rect_rows left width x py color s)
unfolding rect_rows
rect_rows-Draws zero width x py color s = Draws-refl s
rect_rows-Draws (suc left) width x py color s = elim (Bool-cases (ltb_ℤ py (pos s.fb_height))) [
  | inl on ↦ rw on (
      Draws-trans s (rect_row width x py color s) _ (rect_row-Draws width x py color s)
        (rect_rows-Draws left width x (py +ℤ pos 1) color (rect_row width x py color s)))
  | inr off ↦ rw off (Draws-refl s)
]

pub rect-Draws :
    (x y width height : ℤ) (color : ℕ) (s : Screen) → Draws s (draw_rect x y width height color s)
unfolding draw_rect
rect-Draws x y width height color s = rect_rows-Draws (pos_part height) (pos_part width) x y color s
