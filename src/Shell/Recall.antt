-- ===== src/Shell/Recall.antt =====
-- Going back and forth in the history of kernel/src/shell/shell.c.
use bin_os_c.Base.{
  ℕ, ◌+◌, ◌-◌, ◌%◌, ◌<◌, ◌≡◌, ◌≢◌, refl, subst, ◌∙◌, arith, ltb, ◌==◌, Bool-cases, ◌⊎◌, inl, inr,
}
use bin_os_c.CString.Laws.{IsString, strlen-IsString}
use bin_os_c.Shell.{Shell, max_history_entries, max_input_length}
use bin_os_c.Shell.Input.{recall, shell_history_up, shell_history_down}
use bin_os_c.Shell.History.{SameString, copy_string-SameString, history-IsShell}
use bin_os_c.Shell.Line.{with_line, with_line-IsShell, Ends, draw-Drawn}
use bin_os_c.Shell.Move.{clear_input-Cut}
use bin_os_c.Shell.State.{IsShell}

-- The line is the history's entry `i`, with the cursor at its end.
pub record Recalled (i : ℕ) (s s' : Shell) : Type 0 where
  pub same : SameString s'.input_buffer (s.history i)
  pub length : IsString s'.input_buffer s'.input_index
  pub cursor : s'.cursor_pos ≡ s'.input_index
  pub current : s'.history_current ≡ i
  pub history : s'.history ≡ s.history
  pub index : s'.history_index ≡ s.history_index

recall-Recalled :
    (i : ℕ) (s : Shell) → IsShell s → i < max_history_entries → Ends (Recalled i s) (recall i s)
unfolding recall
recall-Recalled i s is lt =
    let (size, (n, entry)) = is.entries i lt in
    let fits : n < max_input_length = omega (arith, entry.inside, size) in
    let (d, run₁, same_size, line, same) =
      copy_string-SameString s.input_buffer (s.history i) n s entry
        (omega (arith, is.input_size)) in
    let s₁ = with_line d n n (record s { history_current = i }) in
    let (sc, run₂, is₂) = draw-Drawn s₁ (
      with_line-IsShell d n n (record s { history_current = i }) (same_size ∙ is.input_size) line
        (omega arith)
        (history-IsShell s.history s.history_index i s is.entries is.index_fits lt is)) in
    (
      record s₁ { screen = sc },
      rw (run₁, strlen-IsString d n line) run₂,
      is₂,
      record {
        same = (n, n, line, entry, same);
        length = line;
        cursor = refl;
        current = refl;
        history = refl;
        index = refl;
      },
    )

abbrev pub previous : Shell → ℕ
previous s = (s.history_current + max_history_entries - 1) % max_history_entries

-- In a well-formed shell, going up makes the entry before the current one the line and the
-- current entry, with the cursor at its end, and does nothing if that entry is empty.
history_up-Recalled :
    (s : Shell)
    → IsShell s
    → Ends
        (λ s'.
          Recalled (previous s) s s' × ¬ IsString (s.history (previous s)) 0
          ⊎ IsString (s.history (previous s)) 0 × (s' ≡ s))
        (shell_history_up s)
unfolding shell_history_up
history_up-Recalled s is =
    let lt : previous s < max_history_entries = omega arith in
    let (size, (n, entry)) = is.entries (previous s) lt in
    let len = strlen-IsString (s.history (previous s)) n entry in
    elim (Bool-cases (ltb 0 n)) [
      | inr empty ↦ (
        s,
        rw (len, empty),
        is,
        inr (subst (λ m. IsString (s.history (previous s)) m) (ground arith) entry, refl),
      )
      | inl full ↦
          let (s', run, is', rec) = recall-Recalled (previous s) s is lt in
          (s', rw (len, full) run, is', inl (rec, λ e. ground (arith, e.ends, entry.chars 0)))
    ]

abbrev pub following : Shell → ℕ
following s = (s.history_current + 1) % max_history_entries

-- In a well-formed shell, going down makes the entry behind the current one the line and the
-- current entry, and empties the line where that entry would be the next to be written.
history_down-Recalled :
    (s : Shell)
    → IsShell s
    → Ends
        (λ s'.
          (following s ≢ s.history_index) × Recalled (following s) s s'
          ⊎ (following s ≡ s.history_index)
            × (s'.input_index ≡ 0)
            × (s'.cursor_pos ≡ 0)
            × (s'.history_current ≡ s.history_index)
            × (s'.history ≡ s.history))
        (shell_history_down s)
unfolding shell_history_down
history_down-Recalled s is = elim (Bool-cases (following s == s.history_index)) [
  | inr inside ↦
      let (s', run, is', rec) = recall-Recalled (following s) s is (omega arith) in
      (s', rw inside run, is', inl (ground arith, rec))
  | inl last ↦
      let (s₁, run, is₁, cut) = clear_input-Cut s is in
      (
        record s₁ { history_current = s₁.history_index },
        rw (last, run),
        history-IsShell s₁.history s₁.history_index s₁.history_index s₁ is₁.entries is₁.index_fits
            is₁.index_fits is₁,
        inr (ground arith, cut.length, cut.cursor, cut.rest.history_index, cut.rest.history),
      )
]

-- In a well-formed shell, going up makes the entry before the current one the line and the
-- current entry, with the cursor at its end, and does nothing if that entry is empty; going down
-- does so with the entry behind the current one, and empties the line where that entry would be
-- the next to be written.
pub history_keys-Recalled :
    (s : Shell)
    → IsShell s
    → Ends
        (λ s'.
          Recalled (previous s) s s' × ¬ IsString (s.history (previous s)) 0
          ⊎ IsString (s.history (previous s)) 0 × (s' ≡ s))
        (shell_history_up s)
      × Ends
          (λ s'.
            (following s ≢ s.history_index) × Recalled (following s) s s'
            ⊎ (following s ≡ s.history_index)
              × (s'.input_index ≡ 0)
              × (s'.cursor_pos ≡ 0)
              × (s'.history_current ≡ s.history_index)
              × (s'.history ≡ s.history))
          (shell_history_down s)
history_keys-Recalled s is = (history_up-Recalled s is, history_down-Recalled s is)
