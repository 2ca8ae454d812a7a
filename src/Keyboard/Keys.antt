-- ===== src/Keyboard/Keys.antt =====
-- Key after key through kernel/src/ps2_keyboard/keyboard.c.
use bin_os_c.Base.{
  ℕ, ◌%◌, ◌<◌, ◌≡◌, refl, ◌∙◌, Bool, true, false, not, ◌&&◌, ◌||◌, Option, some, [], ◌∷◌, arith,
  leb, ltb, ◌==◌, inl, inr, Bool-cases, if◌then◌else◌, all_below,
}
use bin_os_c.CString.{Buffer}
use bin_os_c.Terminal.{literal, codes}
use bin_os_c.Terminal.Laws.{literal-IsString}
use bin_os_c.Shell.Command.{Args}
use bin_os_c.Shell.Command.Args.{HasRoom}
use bin_os_c.Io.{Ports, pure}
use bin_os_c.Serial.{string}
use bin_os_c.Serial.Line.{Uart}
use bin_os_c.Keyboard.{
  Keyboard, Machine, handle_key, handle_modifier_key, handle_scancode, handle_special_key,
  handle_printable_key, type_and_report, is_modifier, printf, key_lshift, key_rshift, key_ctrl,
  key_alt, key_caps, key_backspace, key_enter, key_f1, key_delete,
}
use bin_os_c.Keyboard.Logs.{caps-Printable}
use bin_os_c.Keyboard.Maps.{
  key_of, is_shift_code, is_ctrl_code, is_alt_code, is_caps_code, Names, code-Names, byte-splits,
}
use bin_os_c.Keyboard.Safe.{
  IsMachine, Follows, Keeps, choose-Keeps, nothing-Keeps, printf-Keeps, log-Keeps,
  type_and_report-Keeps, printable_key-Keeps, special_key-Keeps,
}

-- The flags after a key.
abbrev modified : ℕ → Bool → Keyboard → Keyboard
modified key pressed kb = record {
  caps_lock_on = if key == key_caps && pressed then not kb.caps_lock_on else kb.caps_lock_on;
  shift_pressed = if key == key_lshift || key == key_rshift then pressed else kb.shift_pressed;
  ctrl_pressed = if key == key_ctrl then pressed else kb.ctrl_pressed;
  alt_pressed = if key == key_alt then pressed else kb.alt_pressed;
  extended_scancode = kb.extended_scancode;
}

-- The flags after a byte: a byte 0xe0 announces an extended code; a press of either shift, control or
-- alt key sets its flag, a release of either clears it, whether or not the other key is still down, and
-- each press of the caps lock key turns its flag round.
abbrev pub next_keyboard : ℕ → Keyboard → Keyboard
next_keyboard raw kb =
    let code = raw % 128 in
    let pressed = ltb raw 128 in
    let extended = kb.extended_scancode in
    if raw == 0xe0 then record kb { extended_scancode = true } else record {
      caps_lock_on =
          if is_caps_code extended code && pressed then not kb.caps_lock_on else kb.caps_lock_on;
      shift_pressed = if is_shift_code extended code then pressed else kb.shift_pressed;
      ctrl_pressed = if is_ctrl_code code then pressed else kb.ctrl_pressed;
      alt_pressed = if is_alt_code code then pressed else kb.alt_pressed;
      extended_scancode = false;
    }

not_modified :
    (key : ℕ) (pressed : Bool) (kb : Keyboard)
    → is_modifier key ≡ false
    → modified key pressed kb ≡ kb
not_modified key pressed kb other =
    let shift : (key == key_lshift || key == key_rshift) ≡ false = ground arith in
    let ctrl : (key == key_ctrl) ≡ false = ground arith in
    let alt : (key == key_alt) ≡ false = ground arith in
    let caps : (key == key_caps) ≡ false = ground arith in rw (shift, ctrl, alt, caps) refl

next_keyboard-modified :
    (raw : ℕ) (kb : Keyboard)
    → (raw == 0xe0) ≡ false
    → Names kb.extended_scancode (raw % 128)
    → modified
        (key_of kb.extended_scancode (raw % 128))
        (ltb raw 128)
        (record kb { extended_scancode = false })
      ≡ next_keyboard raw kb
next_keyboard-modified raw kb code names =
    rw (code, names.shift, names.ctrl, names.alt, names.caps) refl

module _ {D : Type 0} {io : Ports D} {patience : ℕ} (u : Uart io patience) (args : Args)
    (stack : Buffer) (room : HasRoom args) (long : 11 < stack.size) where
  abbrev Ends : Keyboard → Option (Unit {0} × Machine D) → Type 0
  Ends = Follows u args stack room long

  flag-Follows :
      (kb kb' : Keyboard) (m : Machine D)
      → kb ≡ kb'
      → IsMachine u args stack room long m
      → Ends kb' (some (tt, record m { keyboard = kb }))
  flag-Follows kb kb' m e is =
      (record m { keyboard = kb }, refl, record { shell = is.shell; online = is.online }, e)

  report_caps :
      (on : Bool)
      → Keeps u args stack room long (
          printf io patience args stack
            (codes "[CAPS LOCK %s]\r\n")
            (string (some (literal (if on then codes "ON" else codes "OFF"))) ∷ []))
  report_caps true =
      printf-Keeps u args stack room long (codes "[CAPS LOCK %s]\r\n")
        (string (some (literal (codes "ON"))) ∷ []) refl
        (caps-Printable (codes "ON") 2 (literal-IsString (codes "ON") refl))
  report_caps false =
      printf-Keeps u args stack room long (codes "[CAPS LOCK %s]\r\n")
        (string (some (literal (codes "OFF"))) ∷ []) refl
        (caps-Printable (codes "OFF") 3 (literal-IsString (codes "OFF") refl))

  -- A key that is no modifier.
  plain_key-Keeps :
      (key : ℕ) (pressed : Bool)
      → Keeps u args stack room long (
          if key == key_backspace
          then type_and_report io patience args stack 8 (codes "[BACKSPACE]\r\n") pressed
          else if key == key_enter
          then type_and_report io patience args stack 10 (codes "\r\n") pressed
          else if leb key_f1 key && leb key key_delete
          then handle_special_key io patience args stack key pressed
          else if leb 32 key && leb key 126
          then handle_printable_key io patience args stack key pressed
          else pure tt)
  unfolding all_below literal
  plain_key-Keeps key pressed =
      choose-Keeps u args stack room long (key == key_backspace) _ _
        (type_and_report-Keeps u args stack room long 8 (codes "[BACKSPACE]\r\n") pressed
          (log-Keeps u args stack room long (codes "[BACKSPACE]\r\n") refl refl))
        (choose-Keeps u args stack room long (key == key_enter) _ _
          (type_and_report-Keeps u args stack room long 10 (codes "\r\n") pressed
            (log-Keeps u args stack room long (codes "\r\n") refl refl))
          (choose-Keeps u args stack room long (leb key_f1 key && leb key key_delete) _ _
            (special_key-Keeps u args stack room long key pressed)
            (choose-Keeps u args stack room long (leb 32 key && leb key 126) _ (pure tt)
              (printable_key-Keeps u args stack room long key pressed)
              (nothing-Keeps u args stack room long))))

  modifier_key-Follows :
      (key : ℕ) (pressed : Bool) (m : Machine D)
      → IsMachine u args stack room long m
      → Ends
          (modified key pressed m.keyboard)
          (handle_modifier_key io patience args stack key pressed m)
  unfolding handle_modifier_key
  modifier_key-Follows key pressed m is =
      elim (Bool-cases (key == key_lshift || key == key_rshift)) [
        | inl shift ↦
            let ctrl : (key == key_ctrl) ≡ false = ground arith in
            let alt : (key == key_alt) ≡ false = ground arith in
            let caps : (key == key_caps) ≡ false = ground arith in
            rw (shift, ctrl, alt, caps)
              (flag-Follows (record m.keyboard { shift_pressed = pressed }) _ m refl is)
        | inr shift ↦ elim (Bool-cases (key == key_ctrl)) [
          | inl ctrl ↦
              let alt : (key == key_alt) ≡ false = ground arith in
              let caps : (key == key_caps) ≡ false = ground arith in
              rw (shift, ctrl, alt, caps)
                (flag-Follows (record m.keyboard { ctrl_pressed = pressed }) _ m refl is)
          | inr ctrl ↦ elim (Bool-cases (key == key_alt)) [
            | inl alt ↦
                let caps : (key == key_caps) ≡ false = ground arith in
                rw (shift, ctrl, alt, caps)
                  (flag-Follows (record m.keyboard { alt_pressed = pressed }) _ m refl is)
            | inr alt ↦ elim (Bool-cases (key == key_caps && pressed)) [
              | inl caps ↦
                  rw (shift, ctrl, alt, caps)
                    (report_caps (not m.keyboard.caps_lock_on)
                      (record m {
                        keyboard = record m.keyboard { caps_lock_on = not m.keyboard.caps_lock_on };
                      })
                      (record { shell = is.shell; online = is.online }))
              | inr caps ↦ rw (shift, ctrl, alt, caps) (m, refl, is, refl)
            ]
          ]
        ]
      ]

  handle_key-Follows :
      (key : ℕ) (pressed : Bool) (m : Machine D)
      → IsMachine u args stack room long m
      → Ends (modified key pressed m.keyboard) (handle_key io patience args stack key pressed m)
  unfolding handle_key
  handle_key-Follows key pressed m is = elim (Bool-cases (is_modifier key)) [
    | inl modifier ↦
        let some_key : (key == 0) ≡ false = ground arith in
        rw (some_key, modifier) (modifier_key-Follows key pressed m is)
    | inr other ↦
        rw (not_modified key pressed m.keyboard other, other)
          (choose-Keeps u args stack room long (key == 0) (pure tt) _
            (nothing-Keeps u args stack room long) (plain_key-Keeps key pressed) m is)
  ]

  -- For a serial port that answers its polls and sends what is written, stack arrays of the sizes
  -- the code gives them, and a machine whose shell is well formed: handling a byte ends in such a
  -- machine, with the flags of an independent description by scan codes: 0xe0 announces an
  -- extended code and any other byte ends that, a press of either shift, control or alt key sets
  -- the flag of its kind, a release of either clears it, whether or not the other is still down,
  -- each press of caps lock turns its flag round, and nothing else changes the flags of these
  -- keys.
  pub handle_scancode-Follows :
      (raw : ℕ) (m : Machine D)
      → raw < 256
      → IsMachine u args stack room long m
      → Follows u args stack room long
          (next_keyboard raw m.keyboard)
          (handle_scancode io patience args stack raw m)
  unfolding handle_scancode
  handle_scancode-Follows raw m lt is = elim (Bool-cases (raw == 0xe0)) [
    | inl prefix ↦
        rw prefix (flag-Follows (record m.keyboard { extended_scancode = true }) _ m refl is)
    | inr code ↦
        let (low, high) = byte-splits raw lt in
        let below : leb 128 (raw % 128) ≡ false = ground arith in
        let names = code-Names m.keyboard.extended_scancode (raw % 128) (omega arith) in
        let (m', run, is', e) =
          handle_key-Follows (key_of m.keyboard.extended_scancode (raw % 128)) (ltb raw 128)
            (record m { keyboard = record m.keyboard { extended_scancode = false } })
            (record { shell = is.shell; online = is.online }) in
        (
          m',
          rw (code, low, high, below) run,
          is',
          e ∙ next_keyboard-modified raw m.keyboard code names,
        )
  ]
