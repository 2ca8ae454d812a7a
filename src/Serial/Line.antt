-- ===== src/Serial/Line.antt =====
-- What goes over the line of kernel/src/serial/serial.c.
use bin_os_c.Base.{
  ℕ, zero, suc, ◌+◌, ◌<◌, ◌≡◌, refl, sym, ap, ◌∙◌, bit_and, Bool, true, false, not, Option, some,
  List, [], ◌∷◌, ◌++◌, arith, ◌==◌, inl, inr, Bool-cases,
}
use mathlib.Core.List.{append-nil, append_assoc}
use bin_os_c.CString.{Buffer}
use bin_os_c.CString.Laws.{StringFrom, IsString, tail, load-inside}
use bin_os_c.Io.{Ports}
use bin_os_c.Serial.{
  port, wait_transmit, is_transmit_empty, write_serial_char, write_loop, write_serial,
}

-- The device after `k` reads of the line status.
abbrev pub polled : {D : Type 0} → Ports D → ℕ → D → D
polled io zero d = d
polled io (suc k) d = polled io k (io.inb (port + 5) d).1

abbrev pub is_empty : {D : Type 0} → Ports D → D → Bool
is_empty io d = not (bit_and (io.inb (port + 5) d).0 0x20 == 0)

-- A port that is set up and a line that takes what is written: the holding register is empty after
-- less than `patience` reads of the status, a read of the status changes neither that nor what was
-- sent, and a write into the empty register sends its byte.
pub record Uart {D : Type 0} (io : Ports D) (patience : ℕ) : Type 1 where
  pub Online : D → Type 0
  pub sent : D → List ℕ
  pub answers : (d : D) → Online d → (k : ℕ) × (k < patience) × (is_empty io (polled io k d) ≡ true)
  pub read_keeps :
      (d : D) → Online d → Online (io.inb (port + 5) d).1 × (sent (io.inb (port + 5) d).1 ≡ sent d)
  pub stays_empty : (d : D) → is_empty io d ≡ true → is_empty io (io.inb (port + 5) d).1 ≡ true
  pub write_sends :
      (c : ℕ) (d : D)
      → Online d
      → is_empty io d ≡ true
      → Online (io.outb port c d) × (sent (io.outb port c d) ≡ sent d ++ c ∷ [])

-- The bytes of an array from `i` on.
abbrev pub bytes : Buffer → ℕ → ℕ → List ℕ
bytes b i zero = []
bytes b i (suc n) = b.at i ∷ bytes b (i + 1) n

-- What `write_serial` makes of a text.
abbrev pub line : List ℕ → List ℕ
line text = text ++ 13 ∷ 10 ∷ []

module _ {D : Type 0} {io : Ports D} {patience : ℕ} (u : Uart io patience) where
  -- The step sends the text, and nothing else.
  abbrev pub Sent : List ℕ → D → {A : Type 0} → A → Option (A × D) → Type 0
  Sent text d a o = (d' : D) × (o ≡ some (a, d')) × u.Online d' × (u.sent d' ≡ u.sent d ++ text)

  wait-Waits :
      (k fuel : ℕ) (d : D)
      → k < fuel
      → u.Online d
      → is_empty io (polled io k d) ≡ true
      → (d' : D) × (wait_transmit io patience fuel d ≡ some (tt, d'))
        × u.Online d'
        × (u.sent d' ≡ u.sent d)
        × (is_empty io d' ≡ true)
  unfolding wait_transmit is_transmit_empty
  wait-Waits k zero d lt online empty = absurd (omega arith)
  wait-Waits zero (suc fuel) d lt online empty =
      let off : (bit_and (io.inb (port + 5) d).0 0x20 == 0) ≡ false = ground arith in
      let keeps = u.read_keeps d online in
      ((io.inb (port + 5) d).1, rw off refl, keeps.0, keeps.1, u.stays_empty d empty)
  wait-Waits (suc k) (suc fuel) d lt online empty =
      let keeps = u.read_keeps d online in
      elim (Bool-cases (bit_and (io.inb (port + 5) d).0 0x20 == 0)) [
        | inr off ↦
            ((io.inb (port + 5) d).1, rw off refl, keeps.0, keeps.1, u.stays_empty d (rw off refl))
        | inl full ↦
            let (d', run, online', sent, empty') =
              wait-Waits k fuel (io.inb (port + 5) d).1 (omega arith) keeps.0 empty in
            (d', rw full run, online', sent ∙ keeps.1, empty')
      ]

  pub char-Sent :
      (c : ℕ) (d : D) → u.Online d → Sent (c ∷ []) d tt (write_serial_char io patience c d)
  unfolding write_serial_char
  char-Sent c d online =
      let (k, lt, empty) = u.answers d online in
      let (d₁, run, online₁, sent, empty₁) = wait-Waits k patience d lt online empty in
      let writes = u.write_sends c d₁ online₁ empty₁ in
      (io.outb port c d₁, rw run refl, writes.0, rw (sym sent) writes.1)

  -- A step behind another.
  pub Sent-then :
      {A : Type 0} (a : A) (text text' : List ℕ) (d d₁ : D) (o : Option (A × D))
      → u.sent d₁ ≡ u.sent d ++ text
      → Sent text' d₁ a o
      → Sent (text ++ text') d a o
  Sent-then a text text' d d₁ o sent (d₂, run, online, sent') = (
    d₂,
    run,
    online,
    sent' ∙ ap (λ (l : List ℕ). l ++ text') sent ∙ append_assoc (u.sent d) text text',
  )

  pub Sent-nothing : {A : Type 0} (a : A) (d : D) → u.Online d → Sent [] d a (some (a, d))
  Sent-nothing a d online = (d, refl, online, sym (append-nil (u.sent d)))

  write_loop-Sent :
      (n k i : ℕ) (b : Buffer) (d : D)
      → StringFrom b i n
      → n < k
      → u.Online d
      → Sent (bytes b i n) d tt (write_loop io patience k b i d)
  unfolding write_loop
  write_loop-Sent n zero i b d s lt online = absurd (omega arith)
  write_loop-Sent zero (suc k) i b d s lt online =
      let nul : (b.at i == 0) ≡ true = ground (arith, s.ends) in
      rw (load-inside b i (omega (arith, s.inside)), nul) (Sent-nothing tt d online)
  write_loop-Sent (suc n) (suc k) i b d s lt online =
      let more : (b.at i == 0) ≡ false = ground (arith, s.chars 0) in
      let (d₁, run, online₁, sent) = char-Sent (b.at i) d online in
      rw (load-inside b i (omega (arith, s.inside)), more, run)
        (Sent-then tt (b.at i ∷ []) (bytes b (i + 1) n) d d₁ (write_loop io patience k b (i + 1) d₁)
          sent (write_loop-Sent n k (i + 1) b d₁ (tail b i n s) (omega arith) online₁))

  -- `write_serial` sends the string and two more bytes.
  pub write_serial-Sent :
      (str : Buffer) (n : ℕ) (d : D)
      → IsString str n
      → u.Online d
      → Sent (line (bytes str 0 n)) d tt (write_serial io patience str d)
  unfolding write_serial
  write_serial-Sent str n d s online =
      let (d₁, run₁, online₁, sent₁) =
        write_loop-Sent n (str.size + 1) 0 str d s (omega (arith, s.inside)) online in
      let (d₂, run₂, online₂, sent₂) = char-Sent 13 d₁ online₁ in
      rw (run₁, run₂)
        (Sent-then tt (bytes str 0 n) (13 ∷ 10 ∷ []) d d₁ (write_serial_char io patience 10 d₂)
          sent₁
          (Sent-then tt (13 ∷ []) (10 ∷ []) d₁ d₂ (write_serial_char io patience 10 d₂) sent₂
            (char-Sent 10 d₂ online₂)))
