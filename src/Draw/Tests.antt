-- ===== src/Draw/Tests.antt =====
-- Drawing on a small screen.
use bin_os_c.Base.{refl, arith}
use bin_os_c.Base.Int.{pos, negsuc}
use bin_os_c.Draw.{
  Screen, draw_string, move_cursor_right, move_cursor_left, move_cursor_up, move_cursor_down,
  move_cursor_to, move_cursor_by_chars, move_cursor_by_lines, cursor_newline, draw_string_with_bg,
}
use bin_os_c.Draw.Cursor.{OnScreen, Moves, move_cursor-Moves}
use bin_os_c.Draw.Strings.{DrawsBelow, draw_string-DrawsBelow}
use bin_os_c.Terminal.{literal, codes}
use bin_os_c.Terminal.Laws.{literal-IsString}

abbrev small : Screen
small = record {
  fb_width = 40;
  fb_height = 32;
  fb_pitch = 48;
  pixel = λ a. 0;
  cursor_position_x = 8;
  cursor_position_y = 16;
}

small-OnScreen : OnScreen small
small-OnScreen = ground arith

move_cursor-Moves_example :
    Moves small (move_cursor_right 9 small)
    × Moves small (move_cursor_left 9 small)
    × Moves small (move_cursor_up 9 small)
    × Moves small (move_cursor_down 9 small)
    × Moves small (move_cursor_to 7 200 small)
    × Moves small (move_cursor_by_chars (negsuc 4) small)
    × Moves small (move_cursor_by_lines (negsuc 4) small)
    × Moves small (cursor_newline small)
move_cursor-Moves_example = move_cursor-Moves small small-OnScreen 9 7 200 (negsuc 4)

draw_string-DrawsBelow_example :
    DrawsBelow small (draw_string (negsuc 3) (pos 24) (literal (codes "ok")) 7 small)
    × DrawsBelow small (draw_string_with_bg (negsuc 3) (pos 24) (literal (codes "ok")) 7 1 small)
draw_string-DrawsBelow_example =
    draw_string-DrawsBelow (negsuc 3) (pos 24) (literal (codes "ok")) 2 7 1 small
      (literal-IsString (codes "ok") refl) (omega arith) (omega arith) (omega arith) (omega arith)
