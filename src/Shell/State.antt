-- ===== src/Shell/State.antt =====
-- What every function of the shell keeps: terminated strings inside their arrays, a cursor on the
-- line and on the screen. Drawing the line changes the screen only.
use bin_os_c.Base.{
  ℕ, ◌*◌, ◌≤◌, ◌<◌, ◌≡◌, ◌≢◌, refl, Bool, true, false, Option, some, arith, ltb, ◌==◌,
  if◌then◌else◌, Bool-cases, inl, inr, ◌^◌,
}
use bin_os_c.Base.Int.{ℤ, pos, sub_ℕ, ◌+ℤ◌, ◌-ℤ◌, pos_part, add-pos_part, sub_ℕ-pos_part}
use bin_os_c.CString.{Buffer}
use bin_os_c.CString.Laws.{IsString, load-inside}
use bin_os_c.Draw.{Screen, draw_rect}
use bin_os_c.Draw.Clip.{rect-Draws}
use bin_os_c.Terminal.{literal, codes, char_width, line_height, text_color, bg_color, cursor_color}
use bin_os_c.Terminal.Laws.{Ready, Prints, Draws-Ready, string-Prints, literal-IsString}
use bin_os_c.Shell.{
  Shell, draw_cursor, draw_visible, shell_draw_input_line, max_history_entries, max_input_length,
}

abbrev pub HasString : Buffer → Type 0
HasString b = (b.size ≡ max_input_length) × ((n : ℕ) × IsString b n)

pub record IsShell (s : Shell) : Type 0 where
  pub input_size : s.input_buffer.size ≡ max_input_length
  pub line : IsString s.input_buffer s.input_index
  pub cursor_fits : s.cursor_pos ≤ s.input_index
  pub command : HasString s.command_buffer
  pub index_fits : s.history_index < max_history_entries
  pub current_fits : s.history_current < max_history_entries
  pub entries : (j : ℕ) → j < max_history_entries → HasString (s.history j)
  pub ready : Ready s.screen

-- What drawing needs.
pub record Drawable (s : Shell) : Type 0 where
  pub length : ℕ
  pub line : IsString s.input_buffer length
  pub cursor_inside : s.cursor_pos < s.input_index → s.cursor_pos < s.input_buffer.size
  pub short : s.input_buffer.size ≤ 2 ^ 16
  pub ready : Ready s.screen

pub IsShell-Drawable : (s : Shell) → IsShell s → Drawable s
IsShell-Drawable s is = record {
  length = s.input_index;
  line = is.line;
  cursor_inside = λ lt. omega (arith, is.line.inside);
  short = omega (arith, is.input_size);
  ready = is.ready;
}

-- Only the screen is another.
abbrev pub DrawsLine : Shell → Option (Unit {0} × Shell) → Type 0
DrawsLine s o = (sc : Screen) × (o ≡ some (tt, record s { screen = sc })) × Ready sc

one_char : ℕ → Buffer
one_char c = record { size = 2; at = λ i. if i == 0 then c else 0 }

one_char-IsString : (c : ℕ) → c ≢ 0 → IsString (one_char c) 1
unfolding one_char
one_char-IsString c ne = record { chars = λ j lt. ground arith; ends = refl; inside = omega arith }

cursor-Prints :
    (x y : ℤ) (s : Shell)
    → Drawable s
    → pos_part x ≤ 2 ^ 17
    → pos_part y ≤ 2 ^ 16
    → Prints (draw_cursor x y s)
unfolding draw_cursor one_char
cursor-Prints x y s d near low =
    let cx = x +ℤ pos (s.cursor_pos * char_width) in
    let block = draw_rect cx y (pos char_width) (pos line_height) cursor_color s.screen in
    let ready =
      Draws-Ready s.screen block (rect-Draws cx y (pos 8) (pos 16) cursor_color s.screen) d.ready in
    elim (Bool-cases (ltb s.cursor_pos s.input_index)) [
      | inr end ↦ (block, rw end, ready)
      | inl inside ↦
          let load = load-inside s.input_buffer s.cursor_pos (d.cursor_inside (ground arith)) in
          elim (Bool-cases (s.input_buffer.at s.cursor_pos == 0)) [
            | inl nothing ↦ (block, rw (inside, load, nothing), ready)
            | inr char ↦
                let (sc, run, r) =
                  string-Prints cx y (one_char (s.input_buffer.at s.cursor_pos)) 1 bg_color block
                    (one_char-IsString (s.input_buffer.at s.cursor_pos) (ground arith))
                    (omega (
                      arith,
                      d.short,
                      d.cursor_inside (ground arith),
                      add-pos_part x (s.cursor_pos * 8),
                    ))
                    (omega arith) ready in
                (sc, rw (inside, load, char) run, r)
          ]
    ]

visible-DrawsLine :
    (visible : Bool) (x y : ℤ) (s : Shell)
    → Drawable s
    → pos_part x ≤ 2 ^ 17
    → pos_part y ≤ 2 ^ 16
    → DrawsLine s (draw_visible visible x y s)
unfolding draw_visible
visible-DrawsLine true x y s d near low =
    let (sc, run, r) = cursor-Prints x y s d near low in (sc, rw run, r)
visible-DrawsLine false x y s d near low = (s.screen, refl, d.ready)

-- With a terminated string in the input array, the cursor inside the array where it is on the
-- line, and the cursor of a screen that has room for a line on it, drawing the line ends, reads
-- inside the array, and changes nothing but the screen.
pub draw_input_line-DrawsLine : (s : Shell) → Drawable s → DrawsLine s (shell_draw_input_line s)
unfolding shell_draw_input_line
draw_input_line-DrawsLine s d =
    let x = sub_ℕ s.screen.cursor_position_x (2 * char_width) in
    let y = pos s.screen.cursor_position_y in
    let text_x = x +ℤ pos (2 * char_width) in
    let near : pos_part x ≤ 2 ^ 16 = omega (
      arith,
      d.ready.width_fits,
      d.ready.x_inside,
      sub_ℕ-pos_part s.screen.cursor_position_x (2 * char_width),
    ) in
    let low : s.screen.cursor_position_y < 2 ^ 16 =
      omega (arith, d.ready.height_fits, d.ready.y_inside) in
    let text_near : pos_part text_x ≤ 2 ^ 17 = omega (arith, add-pos_part x 16) in
    let w = pos s.screen.fb_width -ℤ x in
    let sc₁ = draw_rect x y w (pos line_height) bg_color s.screen in
    let r₁ = Draws-Ready s.screen sc₁ (rect-Draws x y w (pos 16) bg_color s.screen) d.ready in
    let (sc₂, run₂, r₂) =
      string-Prints x y (literal (codes "$ ")) 2 text_color sc₁ (literal-IsString (codes "$ ") refl)
        (omega arith) (omega arith) r₁ in
    let (sc₃, run₃, r₃) =
      string-Prints text_x y s.input_buffer d.length text_color sc₂ d.line
        (omega (arith, d.line.inside, d.short)) (omega arith) r₂ in
    let (sc₄, run₄, r₄) =
      visible-DrawsLine s.cursor_visible text_x y (record s { screen = sc₃ })
        (record {
          length = d.length;
          line = d.line;
          cursor_inside = d.cursor_inside;
          short = d.short;
          ready = r₃;
        })
        text_near (omega arith) in
    (sc₄, rw (run₂, run₃, run₄), r₄)
