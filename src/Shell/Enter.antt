-- ===== src/Shell/Enter.antt =====
-- The Enter key of kernel/src/shell/shell.c.
use bin_os_c.Base.{ℕ, ◌-◌, ◌<◌, ◌≡◌, refl, sym, subst, ◌∙◌, some, arith, ltb, Bool-cases, inl, inr}
use bin_os_c.CString.{Buffer, strncpy}
use bin_os_c.CString.Laws.{IsString, SameFrom, strlen-IsString}
use bin_os_c.CString.Copy.{strncpy-Padded}
use bin_os_c.Terminal.Laws.{newline-Prints}
use bin_os_c.Shell.{Shell, max_input_length}
use bin_os_c.Shell.History.{Remembers, Appended, SameLine, Unchanged, add_to_history-Remembers}
use bin_os_c.Shell.Input.{remember, take_line}
use bin_os_c.Shell.Line.{Ends, SameRest, screen-IsShell}
use bin_os_c.Shell.Move.{clear_input-Cut}
use bin_os_c.Shell.Shift.{written, store-inside}
use bin_os_c.Shell.State.{IsShell}

Appended-rest :
    (command : Buffer) (n : ℕ) (s s' s'' : Shell)
    → SameRest s' s''
    → Appended command n s s'
    → Appended command n s s''
Appended-rest command n s s' s'' same app = record {
  newest = subst (λ h. IsString (h s.history_index) n) (sym same.history) app.newest;
  same = subst (λ h. SameFrom (h s.history_index) command 0 n n) (sym same.history) app.same;
  others = λ j ne. subst (λ h. h j ≡ s.history j) (sym same.history) (app.others j ne);
  index = same.history_index ∙ app.index;
  current = same.history_current ∙ app.current ∙ sym same.history_index;
}

Unchanged-rest : (s s' s'' : Shell) → SameRest s' s'' → Unchanged s s' → Unchanged s s''
Unchanged-rest s s' s'' same un = record {
  history = same.history ∙ un.history;
  index = same.history_index ∙ un.index;
  current = elim un.current [
    | inl e ↦ inl (same.history_current ∙ e)
    | inr e ↦ inr (same.history_current ∙ e)
  ];
}

-- The command is the line, the line is empty, and the history remembers the command.
pub record Taken (s s' : Shell) : Type 0 where
  pub command : IsString s'.command_buffer s.input_index
  pub same : SameFrom s'.command_buffer s.input_buffer 0 s.input_index s.input_index
  pub empty : s'.input_index ≡ 0
  pub cursor : s'.cursor_pos ≡ 0
  pub remembers : Remembers s'.command_buffer s.input_index s s'

-- The command buffer after Enter.
command_of :
    (line command : Buffer) (n : ℕ)
    → IsString line n
    → n < max_input_length
    → command.size ≡ max_input_length
    → (d : Buffer) × (strncpy (some command) (some line) (max_input_length - 1) ≡ some (some d))
      × (d.size ≡ max_input_length)
      × IsString (written d (max_input_length - 1) 0) n
      × SameFrom (written d (max_input_length - 1) 0) line 0 n n
command_of line command n is fits size =
    let (d, run, (same_size, at)) =
      strncpy-Padded command line n (max_input_length - 1) is (omega arith) in
    let chars : (j : ℕ) → j < n → d.at j ≡ line.at j = λ j lt. ground (arith, at j) in
    let d' = written d (max_input_length - 1) 0 in
    let same : (j : ℕ) → j < n → d'.at j ≡ line.at j = λ j lt. ground (arith, chars j lt) in
    (
      d,
      run,
      same_size ∙ size,
      record {
        chars = λ j lt. ground (arith, same j lt, is.chars j lt);
        ends = ground (arith, at n);
        inside = omega (arith, same_size);
      },
      (refl, λ j lt. ground (arith, same j lt)),
    )

remember-Remembers :
    (command : Buffer) (n : ℕ) (s : Shell)
    → IsShell s
    → IsString command n
    → n < max_input_length
    → Ends (λ s'. Remembers command n s s' × SameLine s s') (remember command s)
unfolding remember
remember-Remembers command n s is str fits = elim (Bool-cases (ltb 0 n)) [
  | inl full ↦
      rw (strlen-IsString command n str, full) (add_to_history-Remembers command n s is str fits)
  | inr empty ↦ (
    s,
    rw (strlen-IsString command n str, empty),
    is,
    (
      inl (inl (ground arith), record { history = refl; index = refl; current = inl refl }),
      record { line = refl; length = refl; cursor = refl; command = refl },
    ),
  )
]

Remembers-rest :
    (command : Buffer) (n : ℕ) (s s' s'' : Shell)
    → SameRest s' s''
    → Remembers command n s s'
    → Remembers command n s s''
Remembers-rest command n s s' s'' same (inl (why, un)) = inl (why, Unchanged-rest s s' s'' same un)
Remembers-rest command n s s' s'' same (inr (full, new, app)) =
    inr (full, new, Appended-rest command n s s' s'' same app)

-- The history does not depend on the line and the command.
Remembers-before :
    (command b d : Buffer) (n : ℕ) (s s' : Shell)
    → Remembers command n (record s { input_buffer = b; command_buffer = d }) s'
    → Remembers command n s s'
Remembers-before command b d n s s' (inl (why, un)) =
    inl (why, record { history = un.history; index = un.index; current = un.current })
Remembers-before command b d n s s' (inr (full, new, app)) = inr (
  full,
  new,
  record {
    newest = app.newest;
    same = app.same;
    others = app.others;
    index = app.index;
    current = app.current;
  },
)

-- In a well-formed shell, Enter makes the line the command, empties the line, and leaves the
-- history as it was if the command is empty or repeats the newest entry, and with the command
-- behind the newest entry otherwise.
pub take_line-Taken : (s : Shell) → IsShell s → Ends (Taken s) (take_line s)
unfolding take_line
take_line-Taken s is =
    let n = s.input_index in
    let b = written s.input_buffer n 0 in
    let line : IsString b n = record {
      chars = λ j lt. ground (arith, is.line.chars j);
      ends = ground arith;
      inside = omega (arith, is.line.inside);
    } in
    let fits : n < max_input_length = omega (arith, is.line.inside, is.input_size) in
    let (d, run₁, size, str, same) = command_of b s.command_buffer n line fits is.command.0 in
    let d' = written d (max_input_length - 1) 0 in
    let s₁ = record s { input_buffer = b; command_buffer = d' } in
    let is₁ : IsShell s₁ = record {
      input_size = is.input_size;
      line = line;
      cursor_fits = is.cursor_fits;
      command = (size, (n, str));
      index_fits = is.index_fits;
      current_fits = is.current_fits;
      entries = is.entries;
      ready = is.ready;
    } in
    let (s₂, run₂, is₂, (rem, kept)) = remember-Remembers d' n s₁ is₁ str fits in
    let (sc, run₃, r₃) = newline-Prints s₂.screen is₂.ready in
    let s₃ = record s₂ { screen = sc } in
    let (s₄, run₄, is₄, cut) = clear_input-Cut s₃ (screen-IsShell sc s₂ r₃ is₂) in
    let path : s₄.command_buffer ≡ d' = cut.rest.command ∙ kept.command in
    (
      s₄,
      rw
          (
            store-inside s.input_buffer n 0 (omega (arith, is.line.inside)),
            run₁,
            store-inside d (max_input_length - 1) 0 (omega (arith, size)),
            run₂,
            run₃,
          )
          run₄,
      is₄,
      record {
        command = subst (λ c. IsString c n) (sym path) str;
        same =
            subst (λ c. SameFrom c s.input_buffer 0 n n) (sym path)
              (refl, λ j lt. ground (arith, same.1 j));
        empty = cut.length;
        cursor = cut.cursor;
        remembers =
            subst (λ c. Remembers c n s s₄) (sym path)
              (Remembers-rest d' n s s₂ s₄
                (record {
                  history = cut.rest.history;
                  history_index = cut.rest.history_index;
                  history_current = cut.rest.history_current;
                  command = cut.rest.command;
                })
                (Remembers-before d' b d' n s s₂ rem));
      },
    )
