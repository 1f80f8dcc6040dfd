-- ===== src/OutputInterrupt/Partition.antt =====
-- Which lines of the unsent output crates/et-core/src/output_interrupt.rs keeps: `partition`, and the
-- filter and the promotion that use it. Bytes are cut into lines first; a line holds its newline.
use et_rs.Prelude.{
  ◌==◌, if◌then◌else◌, bytes_eq, length, take, drop, ℕ, ◌+◌, ◌-◌, Bool, true, false, ◌&&◌, ◌||◌,
  not, Option, none, some, List, [], ◌∷◌, ◌++◌,
}
use et_rs.FlowControl.{FilteredOutput, Stream}
use et_rs.OutputInterrupt.{
  has_prefix, newline, escape_byte, is_tmux_control_token, line_first_token, TerminalStream, fresh,
  may_contain_control, observe,
}
use et_rs.Crypto.Proof.{codes}

abbrev pub attach : ℕ → List (List ℕ) → List (List ℕ)
attach b [] = (b ∷ []) ∷ []
attach b (line ∷ lines) = (b ∷ line) ∷ lines

-- `split_inclusive` at newlines.
unfoldable pub split_inclusive : List ℕ → List (List ℕ)
split_inclusive [] = []
split_inclusive (b ∷ bs) =
    let rest = split_inclusive bs in if b == newline then (b ∷ []) ∷ rest else attach b rest

abbrev pub starts_line : List ℕ → Bool
starts_line [] = true
starts_line (b ∷ bs) = b == b'%' || b == newline

abbrev pub ends_line : List ℕ → Bool
ends_line [] = false
ends_line (b ∷ []) = b == newline
ends_line (b ∷ c ∷ bs) = ends_line (c ∷ bs)

pub record Parts : Type 0 where
  pub kept : List ℕ
  pub droppable : List ℕ
  pub skip_until_newline : Bool

abbrev pub is_pane : List ℕ → Bool
is_pane token = bytes_eq token (codes "%output") || bytes_eq token (codes "%extended-output")

unfoldable pub keeps_line : TerminalStream → List ℕ → Bool
keeps_line s line =
    let token = line_first_token line in
    let control_token =
      is_tmux_control_token token || (s.control && has_prefix (codes "%") token) in
    let dcs_terminator =
      s.control
      && (not s.block
          && (has_prefix (escape_byte ∷ b'\\' ∷ []) token
              || (s.escape && has_prefix (b'\\' ∷ []) line))) in
    s.block
    || ((s.control && s.midline)
        || ((control_token && not (is_pane token))
            || (dcs_terminator || (s.control && length token == 0))))

abbrev pub keep : List ℕ → Parts → Parts
keep line parts = record parts { kept = line ++ parts.kept }

abbrev pub let_go : List ℕ → Parts → Parts
let_go line parts = record parts {
  droppable = line ++ parts.droppable;
  skip_until_newline =
      (is_pane (line_first_token line) && not (ends_line line)) || parts.skip_until_newline;
}

-- The lines after any that was partly sent.
unfoldable pub partition_lines : TerminalStream → List (List ℕ) → Parts
partition_lines s [] = record { kept = []; droppable = []; skip_until_newline = false }
partition_lines s (line ∷ lines) =
    let rest = partition_lines (observe s line) lines in
    if keeps_line s line then keep line rest else let_go line rest

-- The lines that finish one which was partly sent are kept.
unfoldable pub partition_started : TerminalStream → List (List ℕ) → Parts
partition_started s [] = partition_lines s []
partition_started s (line ∷ lines) = elim (starts_line line) [
  | true ↦ partition_lines s (line ∷ lines)
  | false ↦ keep line (partition_started (observe s line) lines)
]

unfoldable pub partition : TerminalStream → List ℕ → Parts
partition s bytes =
    if s.control && s.midline
    then partition_started s (split_inclusive bytes)
    else partition_lines s (split_inclusive bytes)

unfoldable pub filter : TerminalStream → List ℕ → FilteredOutput
filter s bytes =
    let parts = partition s bytes in
    record {
      kept = parts.kept;
      dropped = length bytes - length parts.kept;
      skip_until_newline = parts.skip_until_newline;
    }

abbrev pub any_control_line : List (List ℕ) → Bool
any_control_line [] = false
any_control_line (line ∷ lines) =
    is_tmux_control_token (line_first_token line) || any_control_line lines

-- The offset behind the last whole line outside a response block.
unfoldable pub complete_offset : TerminalStream → List (List ℕ) → ℕ → ℕ → ℕ
complete_offset observed [] offset complete = complete
complete_offset observed (line ∷ lines) offset complete =
    let observed' = observe observed line in
    let offset' = offset + length line in
    complete_offset observed' lines offset'
      (if ends_line line && not observed'.block then offset' else complete)

unfoldable pub promote_parts : Parts → List ℕ → Option (List ℕ)
promote_parts parts rest =
    if length parts.kept == 0 || length parts.droppable == 0
    then none
    else some (parts.kept ++ (parts.droppable ++ rest))

unfoldable pub promote_control : TerminalStream → List ℕ → Option (List ℕ)
promote_control s bytes =
    if not s.control && not (any_control_line (split_inclusive bytes))
    then none
    else (let complete = complete_offset s (split_inclusive bytes) 0 0 in
        promote_parts (partition s (take complete bytes)) (drop complete bytes))

-- What the output queue asks of the stream.
abbrev pub terminal_stream : Stream TerminalStream
terminal_stream = record {
  fresh = fresh;
  may_contain_control = may_contain_control;
  observe = observe;
  filter = filter;
  promote_control = promote_control;
}
