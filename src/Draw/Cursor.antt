-- ===== src/Draw/Cursor.antt =====
-- The text cursor of kernel/src/draw/draw.c never leaves the screen.
use bin_os_c.Base.{ℕ, ◌+◌, ◌*◌, ◌≤◌, ◌<◌, ◌^◌, ◌≡◌, refl, arith, ◌==◌, Bool-cases, inl, inr}
use bin_os_c.Base.Int.{ℤ, pos, negsuc}
use bin_os_c.Draw.{
  Screen, move_cursor_right, move_cursor_up, move_cursor_down, move_cursor_left, move_cursor_to,
  move_cursor_by_chars, move_cursor_by_lines, cursor_newline, u16,
}

-- The screen is one whose coordinates fit a `uint16_t`, and the cursor is on it.
pub record OnScreen (s : Screen) : Type 0 where
  pub width_fits : s.fb_width ≤ 2 ^ 16
  pub height_fits : s.fb_height ≤ 2 ^ 16
  pub x_inside : s.cursor_position_x < s.fb_width
  pub y_inside : s.cursor_position_y < s.fb_height

-- Nothing but the cursor differs.
pub record SamePicture (s s' : Screen) : Type 0 where
  pub same_width : s'.fb_width ≡ s.fb_width
  pub same_height : s'.fb_height ≡ s.fb_height
  pub same_pitch : s'.fb_pitch ≡ s.fb_pitch
  pub same_pixel : s'.pixel ≡ s.pixel

abbrev pub Moves : Screen → Screen → Type 0
Moves s s' = OnScreen s' × SamePicture s s'

module _ (s : Screen) (on : OnScreen s) where
  right-Moves : (n : ℕ) → Moves s (move_cursor_right n s)
  unfolding move_cursor_right
  right-Moves n = ground arith

  left-Moves : (n : ℕ) → Moves s (move_cursor_left n s)
  unfolding move_cursor_left
  left-Moves n = ground arith

  up-Moves : (n : ℕ) → Moves s (move_cursor_up n s)
  unfolding move_cursor_up
  up-Moves n = ground arith

  down-Moves : (n : ℕ) → Moves s (move_cursor_down n s)
  unfolding move_cursor_down
  down-Moves n = ground arith

  pub to-Moves : (x y : ℕ) → Moves s (move_cursor_to x y s)
  unfolding move_cursor_to
  to-Moves x y = ground arith

  chars-Moves : (n : ℤ) → Moves s (move_cursor_by_chars n s)
  unfolding move_cursor_by_chars
  chars-Moves (pos n) = elim (Bool-cases (n == 0)) [
    | inl nothing ↦
        rw nothing (
          on,
          record { same_width = refl; same_height = refl; same_pitch = refl; same_pixel = refl },
        )
    | inr something ↦ rw something (right-Moves (u16 (n * 8)))
  ]
  chars-Moves (negsuc n) = left-Moves (u16 ((n + 1) * 8))

  lines-Moves : (n : ℤ) → Moves s (move_cursor_by_lines n s)
  unfolding move_cursor_by_lines
  lines-Moves (pos n) = elim (Bool-cases (n == 0)) [
    | inl nothing ↦
        rw nothing (
          on,
          record { same_width = refl; same_height = refl; same_pitch = refl; same_pixel = refl },
        )
    | inr something ↦ rw something (down-Moves (u16 (n * 16)))
  ]
  lines-Moves (negsuc n) = up-Moves (u16 ((n + 1) * 16))

  newline-Moves : Moves s (cursor_newline s)
  unfolding cursor_newline
  newline-Moves = to-Moves 0 (s.cursor_position_y + 16)

  -- On a screen of at most 2^16 pixels either way with the cursor on it, each of the eight
  -- functions that move the cursor leaves it on the screen, and changes neither the picture nor
  -- the screen's sizes.
  pub move_cursor-Moves :
      (n x y : ℕ) (k : ℤ)
      → Moves s (move_cursor_right n s)
        × Moves s (move_cursor_left n s)
        × Moves s (move_cursor_up n s)
        × Moves s (move_cursor_down n s)
        × Moves s (move_cursor_to x y s)
        × Moves s (move_cursor_by_chars k s)
        × Moves s (move_cursor_by_lines k s)
        × Moves s (cursor_newline s)
  move_cursor-Moves n x y k = (
    right-Moves n,
    left-Moves n,
    up-Moves n,
    down-Moves n,
    to-Moves x y,
    chars-Moves k,
    lines-Moves k,
    newline-Moves,
  )
