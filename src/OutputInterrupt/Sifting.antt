-- ===== src/OutputInterrupt/Sifting.antt =====
-- The order of what the filter of crates/et-core/src/output_interrupt.rs keeps and drops, and which
-- lines these are.
use et_rs.Prelude.{ℕ, ◌≡◌, Bool, true, ◌&&◌, ◌||◌, not, List, [], ◌∷◌, ◌++◌}
use et_rs.OutputInterrupt.{
  has_prefix, escape_byte, is_tmux_control_token, line_first_token, TerminalStream, observe,
}
use et_rs.OutputInterrupt.Partition.{starts_line, is_pane}

-- A line that may be dropped: none of a reply, no rest of one that was partly sent, no notification
-- but a pane's output, and not the end of control mode.
abbrev pub may_drop : TerminalStream → List ℕ → Bool
may_drop s line =
    let token = line_first_token line in
    not s.block
    && (not (s.control && s.midline)
        && ((is_pane token || not (is_tmux_control_token token))
            && not (s.control && has_prefix (escape_byte ∷ b'\\' ∷ []) token)))

-- A line that may be kept: any but a pane's output that begins a line outside of a reply.
abbrev pub may_keep : TerminalStream → List ℕ → Bool
may_keep s line =
    s.block
    || ((s.control && s.midline)
        || (s.escape || (not (is_pane (line_first_token line)) || not (starts_line line))))

-- The lines, each seen in the state behind the ones before it, go to one of two sides in their order.
pub data Sifted : TerminalStream → List (List ℕ) → List ℕ → List ℕ → Type 0 where
  nothing : {s : TerminalStream} → Sifted s [] [] []
  keeps :
      {s : TerminalStream} {line : List ℕ} {lines : List (List ℕ)} {kept dropped : List ℕ}
      → may_keep s line ≡ true
      → Sifted (observe s line) lines kept dropped
      → Sifted s (line ∷ lines) (line ++ kept) dropped
  drops :
      {s : TerminalStream} {line : List ℕ} {lines : List (List ℕ)} {kept dropped : List ℕ}
      → may_drop s line ≡ true
      → Sifted (observe s line) lines kept dropped
      → Sifted s (line ∷ lines) kept (line ++ dropped)
