-- ===== src/Keyboard.antt =====
-- kernel/src/ps2_keyboard/keyboard.c: from scan codes to the shell.
pub mod Interrupts
pub mod Keys
pub mod Logs
pub mod Maps
pub mod Safe
pub mod Typing
pub mod Tests
use bin_os_c.Base.{
  ℕ, zero, suc, ◌+◌, ◌-◌, ◌^◌, bit_and, Bool, true, false, not, ◌&&◌, ◌||◌, Option, none, some,
  List, [], ◌∷◌, get_or, leb, ltb, ◌==◌, if◌then◌else◌,
}
use bin_os_c.Base.Int.{ℤ, pos}
use bin_os_c.CString.{Buffer}
use bin_os_c.Terminal.{literal, codes, shell_print_prompt}
use bin_os_c.Shell
use bin_os_c.Shell.{
  Shell, display, shell_cancel_input, shell_move_cursor_left, shell_move_cursor_right,
}
use bin_os_c.Shell.Command.{Args, cmd_clear, type_key}
use bin_os_c.Serial.{Arg, int, string, serial_printf}
use bin_os_c.Io.{Ports, M, pure, fault, ◌>>=◌, ◌>>◌, inb, outb}

abbrev pub kb_data_port : ℕ
kb_data_port = 0x60

abbrev pub kb_status_port : ℕ
kb_status_port = 0x64

abbrev pub kb_command_port : ℕ
kb_command_port = 0x64

-- `special_key_t`; `key_f1` up to `key_f12` follow each other.
abbrev pub key_esc : ℕ
key_esc = 1

abbrev pub key_ctrl : ℕ
key_ctrl = 2

abbrev pub key_lshift : ℕ
key_lshift = 3

abbrev pub key_rshift : ℕ
key_rshift = 4

abbrev pub key_alt : ℕ
key_alt = 5

abbrev pub key_caps : ℕ
key_caps = 6

abbrev pub key_backspace : ℕ
key_backspace = 8

abbrev pub key_tab : ℕ
key_tab = 9

abbrev pub key_enter : ℕ
key_enter = 10

abbrev pub key_f1 : ℕ
key_f1 = 128

abbrev pub key_f12 : ℕ
key_f12 = 139

abbrev pub key_home : ℕ
key_home = 140

abbrev pub key_end : ℕ
key_end = 141

abbrev pub key_pgup : ℕ
key_pgup = 142

abbrev pub key_pgdown : ℕ
key_pgdown = 143

abbrev pub key_up : ℕ
key_up = 144

abbrev pub key_down : ℕ
key_down = 145

abbrev pub key_left : ℕ
key_left = 146

abbrev pub key_right : ℕ
key_right = 147

abbrev pub key_insert : ℕ
key_insert = 148

abbrev pub key_delete : ℕ
key_delete = 149

-- The entries that the source gives; the rest of the array is 0.
unfoldable pub scancode_map : ℕ → ℕ
scancode_map code =
    get_or
      (0 ∷ 1 ∷ b'1' ∷ b'2' ∷ b'3' ∷ b'4' ∷ b'5' ∷ b'6' ∷ b'7' ∷ b'8' ∷ b'9' ∷ b'0' ∷ b'-' ∷ b'=' ∷ 8
        ∷ 9 ∷ b'q' ∷ b'w' ∷ b'e' ∷ b'r' ∷ b't' ∷ b'y' ∷ b'u' ∷ b'i' ∷ b'o' ∷ b'p' ∷ b'[' ∷ b']' ∷ 10
        ∷ 2 ∷ b'a' ∷ b's' ∷ b'd' ∷ b'f' ∷ b'g' ∷ b'h' ∷ b'j' ∷ b'k' ∷ b'l' ∷ b';' ∷ 39 ∷ b'`' ∷ 3
        ∷ 92 ∷ b'z' ∷ b'x' ∷ b'c' ∷ b'v' ∷ b'b' ∷ b'n' ∷ b'm' ∷ b',' ∷ b'.' ∷ b'/' ∷ 4 ∷ b'*' ∷ 5
        ∷ b' ' ∷ 6 ∷ 128 ∷ 129 ∷ 130 ∷ 131 ∷ 132 ∷ 133 ∷ 134 ∷ 135 ∷ 136 ∷ 137 ∷ 0 ∷ 0 ∷ 140 ∷ 144
        ∷ 142 ∷ b'-' ∷ 146 ∷ 0 ∷ 147 ∷ b'+' ∷ 141 ∷ 145 ∷ 143 ∷ 148 ∷ 149 ∷ 0 ∷ 0 ∷ 0 ∷ 138 ∷ 139
        ∷ [])
      code 0

-- `[index] = value`
abbrev pub entry : List (ℕ × ℕ) → ℕ → ℕ
entry [] i = 0
entry ((index, value) ∷ rest) i = if index == i then value else entry rest i

unfoldable pub extended_scancode_map : ℕ → ℕ
extended_scancode_map = entry (
    (0x48, key_up)
    ∷ (0x50, key_down)
    ∷ (0x4b, key_left)
    ∷ (0x4d, key_right)
    ∷ (0x47, key_home)
    ∷ (0x4f, key_end)
    ∷ (0x49, key_pgup)
    ∷ (0x51, key_pgdown)
    ∷ (0x52, key_insert)
    ∷ (0x53, key_delete)
    ∷ (0x1c, key_enter)
    ∷ (0x1d, key_ctrl)
    ∷ (0x38, key_alt)
    ∷ [])

unfoldable pub shift_map : ℕ → ℕ
shift_map = entry (
    (b'1', b'!')
    ∷ (b'2', b'@')
    ∷ (b'3', b'#')
    ∷ (b'4', b'$')
    ∷ (b'5', b'%')
    ∷ (b'6', b'^')
    ∷ (b'7', b'&')
    ∷ (b'8', b'*')
    ∷ (b'9', b'(')
    ∷ (b'0', b')')
    ∷ (b'-', b'_')
    ∷ (b'=', b'+')
    ∷ (b'[', b'{')
    ∷ (b']', b'}')
    ∷ (92, b'|')
    ∷ (b';', b':')
    ∷ (39, 34)
    ∷ (b'`', b'~')
    ∷ (b',', b'<')
    ∷ (b'.', b'>')
    ∷ (b'/', b'?')
    ∷ [])

pub record Keyboard : Type 0 where
  pub caps_lock_on : Bool
  pub shift_pressed : Bool
  pub ctrl_pressed : Bool
  pub alt_pressed : Bool
  pub extended_scancode : Bool

abbrev pub xor : Bool → Bool → Bool
xor true b = not b
xor false b = b

unfoldable pub get_character : Keyboard → ℕ → ℕ
get_character kb key =
    if key == 0 || leb 128 key
    then 0
    else if leb b'a' key && leb key b'z'
    then (if xor kb.caps_lock_on kb.shift_pressed then key - b'a' + b'A' else key)
    else if kb.shift_pressed && not (shift_map key == 0)
    then shift_map key
    else key

-- The static variables of the three parts.
pub record Machine (D : Type 0) : Type 0 where
  pub keyboard : Keyboard
  pub shell : Shell
  pub ports : D

abbrev pub with_ports : {D A : Type 0} → Machine D → Option (A × D) → Option (A × Machine D)
with_ports m none = none
with_ports m (some (a, d)) = some (a, record m { ports = d })

abbrev pub with_shell : {D A : Type 0} → Machine D → Option (A × Shell) → Option (A × Machine D)
with_shell m none = none
with_shell m (some (a, s)) = some (a, record m { shell = s })

-- A step of the devices, of the shell, and of the keyboard's variables.
abbrev pub on_ports : {D A : Type 0} → M D A → M (Machine D) A
on_ports k m = with_ports m (k m.ports)

abbrev pub on_shell : {D A : Type 0} → Shell.M A → M (Machine D) A
on_shell k m = with_shell m (k m.shell)

abbrev pub on_keyboard : {D : Type 0} → (Keyboard → Keyboard) → M (Machine D) (Unit {0})
on_keyboard f m = some (tt, record m { keyboard = f m.keyboard })

abbrev pub keyboard_of : {D : Type 0} → M (Machine D) Keyboard
keyboard_of m = some (m.keyboard, m)

abbrev pub is_modifier : ℕ → Bool
is_modifier key =
    key == key_lshift || key == key_rshift || key == key_ctrl || key == key_alt || key == key_caps

-- `uint8_t mask = inb(0x21); mask &= ~(1 << 1); outb(0x21, mask);`
unfoldable pub unmask_keyboard : {D : Type 0} → Ports D → M D (Unit {0})
unmask_keyboard io = do mask ← inb io 0x21; outb io 0x21 (bit_and mask (2 ^ 8 - 1 - 2 ^ 1))

-- `while (inb(KB_STATUS_PORT) & KB_STATUS_INPUT_FULL);`
unfoldable pub keyboard_wait_input : {D : Type 0} → Ports D → ℕ → M D (Unit {0})
keyboard_wait_input io zero = fault
keyboard_wait_input io (suc k) = do
  status ← inb io kb_status_port
  if bit_and status 0x02 == 0 then pure tt else keyboard_wait_input io k

-- `while (inb(KB_STATUS_PORT) & KB_STATUS_OUTPUT_FULL) inb(KB_DATA_PORT);`
unfoldable pub drain_output : {D : Type 0} → Ports D → ℕ → M D (Unit {0})
drain_output io zero = fault
drain_output io (suc k) = do
  status ← inb io kb_status_port
  if bit_and status 0x01 == 0 then pure tt else do inb io kb_data_port; drain_output io k

-- `args` and `stack` are what the stack holds where the arguments of a command and the digits of a
-- number go; `patience` bounds the rounds of the loops that poll a port.
module _ {D : Type 0} (io : Ports D) (patience : ℕ) (args : Args) (stack : Buffer) where
  abbrev pub printf : List ℕ → List Arg → M (Machine D) (Unit {0})
  printf format values = on_ports (serial_printf io patience (literal format) values stack)

  unfoldable pub enable_keyboard_irq : M (Machine D) (Unit {0})
  enable_keyboard_irq = do
    on_ports (unmask_keyboard io)
    printf (codes "Keyboard: IRQ1 enabled in PIC\r\n") []

  unfoldable pub init_keyboard : M (Machine D) (Unit {0})
  init_keyboard = do
    on_keyboard (λ kb. record {
      caps_lock_on = false;
      shift_pressed = false;
      ctrl_pressed = false;
      alt_pressed = false;
      extended_scancode = false;
    })
    on_ports (drain_output io patience)
    on_ports (keyboard_wait_input io patience)
    on_ports (outb io kb_command_port 0xae)
    on_ports (keyboard_wait_input io patience)
    printf (codes "Keyboard initialized\r\n") []
    enable_keyboard_irq

  unfoldable pub handle_special_key : ℕ → Bool → M (Machine D) (Unit {0})
  handle_special_key key pressed =
      if not pressed
      then pure tt
      else if key == key_esc
      then printf (codes "[ESC]\r\n") []
      else if leb key_f1 key && leb key key_f12
      then printf (codes "[F%d]\r\n") (int (pos (key - key_f1 + 1)) ∷ [])
      else if key == key_home
      then printf (codes "[HOME]\r\n") []
      else if key == key_end
      then printf (codes "[END]\r\n") []
      else if key == key_up
      then printf (codes "[UP]\r\n") []
      else if key == key_down
      then printf (codes "[DOWN]\r\n") []
      else if key == key_left
      then on_shell shell_move_cursor_left
      else if key == key_right
      then on_shell shell_move_cursor_right
      else if key == key_insert
      then printf (codes "[INSERT]\r\n") []
      else if key == key_delete
      then printf (codes "[DELETE]\r\n") []
      else if key == key_pgup
      then printf (codes "[PGUP]\r\n") []
      else if key == key_pgdown
      then printf (codes "[PGDOWN]\r\n") []
      else if key == key_tab
      then printf (codes "[TAB]\r\n") []
      else pure tt

  unfoldable pub handle_modifier_key : ℕ → Bool → M (Machine D) (Unit {0})
  handle_modifier_key key pressed =
      if key == key_lshift || key == key_rshift
      then on_keyboard (λ kb. record kb { shift_pressed = pressed })
      else if key == key_ctrl
      then on_keyboard (λ kb. record kb { ctrl_pressed = pressed })
      else if key == key_alt
      then on_keyboard (λ kb. record kb { alt_pressed = pressed })
      else if key == key_caps && pressed
      then (do
        on_keyboard (λ kb. record kb { caps_lock_on = not kb.caps_lock_on })
        kb ← keyboard_of
        printf (codes "[CAPS LOCK %s]\r\n")
            (string (some (literal (if kb.caps_lock_on then codes "ON" else codes "OFF"))) ∷ []))
      else pure tt

  unfoldable pub control_character : ℕ → M (Machine D) (Unit {0})
  control_character c =
      if c == b'c' || c == b'C'
      then on_shell shell_cancel_input
      else if c == b'l' || c == b'L'
      then (do
        on_shell shell_cancel_input
        on_shell cmd_clear
        on_shell (display shell_print_prompt))
      else pure tt

  unfoldable pub handle_printable_key : ℕ → Bool → M (Machine D) (Unit {0})
  handle_printable_key key pressed = if not pressed then pure tt else do
    kb ← keyboard_of
    let c = get_character kb key
    if c == 0
        then pure tt
        else if kb.ctrl_pressed
        then control_character c
        else if kb.alt_pressed
        then printf (codes "[ALT+%c]\r\n") (int (pos c) ∷ [])
        else (do on_shell (type_key args c); printf (codes "%c") (int (pos c) ∷ []))

  -- `input(c)`, `parse_command()` and a message.
  unfoldable pub type_and_report : ℕ → List ℕ → Bool → M (Machine D) (Unit {0})
  type_and_report c message pressed =
      if pressed then (do on_shell (type_key args c); printf message []) else pure tt

  unfoldable pub handle_key : ℕ → Bool → M (Machine D) (Unit {0})
  handle_key key pressed =
      if key == 0
      then pure tt
      else if is_modifier key
      then handle_modifier_key key pressed
      else if key == key_backspace
      then type_and_report 8 (codes "[BACKSPACE]\r\n") pressed
      else if key == key_enter
      then type_and_report 10 (codes "\r\n") pressed
      else if leb key_f1 key && leb key key_delete
      then handle_special_key key pressed
      else if leb 32 key && leb key 126
      then handle_printable_key key pressed
      else pure tt

  -- What follows the read of the data port.
  unfoldable pub handle_scancode : ℕ → M (Machine D) (Unit {0})
  handle_scancode scancode_raw =
      if scancode_raw == 0xe0
      then on_keyboard (λ kb. record kb { extended_scancode = true })
      else (do
        kb ← keyboard_of
        let scancode = bit_and scancode_raw 0x7f
        let key_pressed = bit_and scancode_raw 0x80 == 0
        on_keyboard (λ kb₁. record kb₁ { extended_scancode = false })
        if leb 128 scancode
            then pure tt
            else handle_key
                (if kb.extended_scancode
                  then extended_scancode_map scancode
                  else scancode_map scancode)
                key_pressed)

  unfoldable pub keyboard_handler : M (Machine D) (Unit {0})
  keyboard_handler = do
    status ← on_ports (inb io kb_status_port)
    if bit_and status 0x01 == 0
        then pure tt
        else (do scancode_raw ← on_ports (inb io kb_data_port); handle_scancode scancode_raw)

  -- That many interrupts.
  unfoldable pub interrupts : ℕ → M (Machine D) (Unit {0})
  interrupts zero = pure tt
  interrupts (suc n) = do keyboard_handler; interrupts n
