-- ===== src/Draw/Clear.antt =====
-- Clearing the screen of kernel/src/draw/draw.c.
use bin_os_c.Base.{ℕ, ◌+◌, ◌*◌, ◌<◌, ◌≡◌, arith, loop_keeps, loop_establishes, loop_keeps_below, ap}
use bin_os_c.Draw.{Screen, plot, clear_screen}
use bin_os_c.Draw.Clip.{Draws, Draws-refl, Draws-trans, plot-Draws}

-- The colour that `plot` gives one word of the frame buffer, it gives no other word.
abbrev Painted : ℕ → ℕ → ℕ → Screen → Type 0
Painted pitch a color s = s.fb_pitch ≡ pitch → s.pixel a ≡ color

plot-Painted :
    (pitch a color px py : ℕ) (s : Screen)
    → Painted pitch a color s
    → Painted pitch a color (plot px py color s)
unfolding plot
plot-Painted pitch a color px py s p e = ground (arith, p e)

plot-Painted_there :
    (pitch color px py : ℕ) (s : Screen)
    → Painted pitch (py * pitch + px) color (plot px py color s)
unfolding plot
plot-Painted_there pitch color px py s e = ground (arith, ap (λ (t : ℕ). py * t) e)

pub clear_screen-Draws : (color : ℕ) (s : Screen) → Draws s (clear_screen color s)
unfolding clear_screen
clear_screen-Draws color s =
    loop_keeps_below (Draws s) _ s.fb_height
      (λ y s' lt' d.
        loop_keeps_below (Draws s) _ s.fb_width
          (λ x s'' lt d'.
            Draws-trans s s'' (plot x y color s'') d'
              (plot-Draws x y color s'' (rw d'.same_width lt) (rw d'.same_height lt')))
          s.fb_width 0 s' (omega arith) d)
      s.fb_height 0 s (omega arith) (Draws-refl s)

clear_screen-Painted :
    (color px py : ℕ) (s : Screen)
    → px < s.fb_width
    → py < s.fb_height
    → Painted s.fb_pitch (py * s.fb_pitch + px) color (clear_screen color s)
unfolding clear_screen
clear_screen-Painted color px py s lt lt' =
    loop_establishes (Painted s.fb_pitch (py * s.fb_pitch + px) color) _
      (λ y s' p.
        loop_keeps (Painted s.fb_pitch (py * s.fb_pitch + px) color) _
          (λ x s'' p'. plot-Painted s.fb_pitch (py * s.fb_pitch + px) color x y s'' p') s.fb_width 0
          s' p)
      s.fb_height 0 py s (omega arith) (omega arith)
      (λ s'.
        loop_establishes (Painted s.fb_pitch (py * s.fb_pitch + px) color) (λ x. plot x py color)
          (λ x s'' p'. plot-Painted s.fb_pitch (py * s.fb_pitch + px) color x py s'' p') s.fb_width
          0 px s' (omega arith) (omega arith)
          (λ s''. plot-Painted_there s.fb_pitch color px py s''))

-- `clear_screen` gives every pixel of the screen the colour, and changes no other word of the
-- frame buffer.
pub clear_screen-pixel :
    (color px py : ℕ) (s : Screen)
    → px < s.fb_width
    → py < s.fb_height
    → ((clear_screen color s).pixel (py * s.fb_pitch + px) ≡ color) × Draws s (clear_screen color s)
clear_screen-pixel color px py s lt lt' =
    let d = clear_screen-Draws color s in
    (clear_screen-Painted color px py s lt lt' d.same_pitch, d)
