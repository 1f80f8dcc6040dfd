-- ===== src/OutputInterrupt.antt =====
-- crates/et-core/src/output_interrupt.rs: which terminal output may be dropped on an interrupt. A
-- tmux client in control mode must get every line of tmux's own replies, and no fragment of a line.
pub mod Partition
pub mod Input
pub mod Command
pub mod Lossless
pub mod Sifting
use et_rs.Prelude.{
  ltb, leb, ◌==◌, if◌then◌else◌, bytes_eq, length, drop, ℕ, ◌-◌, Bool, true, false, ◌&&◌, ◌||◌, not,
  Option, none, some, List, [], ◌∷◌, ◌++◌, map,
}
use et_rs.Crypto.Proof.{codes}

-- The prefix tests of slices.
abbrev pub strip_prefix : List ℕ → List ℕ → Option (List ℕ)
strip_prefix [] bytes = some bytes
strip_prefix (p ∷ ps) [] = none
strip_prefix (p ∷ ps) (b ∷ bs) = let rest = strip_prefix ps bs in if p == b then rest else none

abbrev pub has_prefix : List ℕ → List ℕ → Bool
has_prefix [] bytes = true
has_prefix (p ∷ ps) [] = false
has_prefix (p ∷ ps) (b ∷ bs) = p == b && has_prefix ps bs

abbrev pub any : (ℕ → Bool) → List ℕ → Bool
any test [] = false
any test (b ∷ bs) = test b || any test bs

abbrev pub newline : ℕ
newline = 10

abbrev pub escape_byte : ℕ
escape_byte = 27

abbrev pub is_ascii_whitespace : ℕ → Bool
is_ascii_whitespace b = b == 32 || (b == 9 || (b == 10 || (b == 12 || b == 13)))

abbrev pub is_ascii_lowercase : ℕ → Bool
is_ascii_lowercase b = leb 97 b && leb b 122

abbrev pub tmux_dcs : List ℕ
tmux_dcs = escape_byte ∷ codes "P1000p"

abbrev pub unwrap_or : Option (List ℕ) → List ℕ → List ℕ
unwrap_or none d = d
unwrap_or (some bytes) d = bytes

abbrev pub strip_dcs : List ℕ → List ℕ
strip_dcs token = unwrap_or (strip_prefix tmux_dcs token) token

abbrev pub member : List ℕ → List (List ℕ) → Bool
member token [] = false
member token (t ∷ ts) = bytes_eq token t || member token ts

abbrev pub control_tokens : List (List ℕ)
control_tokens = map codes (
    "%begin" ∷ "%end" ∷ "%error" ∷ "%output" ∷ "%extended-output" ∷ "%exit" ∷ "%layout-change"
    ∷ "%window-add" ∷ "%window-close" ∷ "%window-renamed" ∷ "%pane-mode-changed"
    ∷ "%window-pane-changed" ∷ "%unlinked-window-add" ∷ "%unlinked-window-close"
    ∷ "%unlinked-window-renamed" ∷ "%session-changed" ∷ "%session-renamed"
    ∷ "%session-window-changed" ∷ "%sessions-changed" ∷ "%client-detached"
    ∷ "%client-session-changed" ∷ "%subscription-changed" ∷ "%message" ∷ "%config-error"
    ∷ "%continue" ∷ "%pause" ∷ "%paste-buffer-changed" ∷ "%paste-buffer-deleted" ∷ [])

unfoldable pub is_tmux_control_token : List ℕ → Bool
is_tmux_control_token token = member (strip_dcs token) control_tokens

unfoldable pub arms_control_mode : List ℕ → Bool
arms_control_mode token =
    not (bytes_eq (strip_dcs token) (codes "%exit")) && is_tmux_control_token (strip_dcs token)

-- The bytes before the first whitespace.
unfoldable pub until_whitespace : List ℕ → List ℕ
until_whitespace [] = []
until_whitespace (b ∷ bs) =
    let rest = b ∷ until_whitespace bs in if is_ascii_whitespace b then [] else rest

unfoldable pub line_first_token : List ℕ → List ℕ
line_first_token line = strip_dcs (until_whitespace line)

pub record TerminalStream : Type 0 where
  pub token : List ℕ
  pub token_done : Bool
  pub midline : Bool
  pub control : Bool
  pub block : Bool
  pub escape : Bool

unfoldable pub fresh : TerminalStream
fresh = record {
  token = [];
  token_done = false;
  midline = false;
  control = false;
  block = false;
  escape = false;
}

-- `%`, alone or before a lowercase letter, at the front.
unfoldable pub starts_control : List ℕ → Bool
starts_control [] = false
starts_control (b ∷ []) = b == b'%'
starts_control (b ∷ c ∷ bs) = b == b'%' && is_ascii_lowercase c

unfoldable pub token_may_be_control : TerminalStream → Bool
token_may_be_control s =
    not (length s.token == 0) && (has_prefix s.token tmux_dcs || starts_control (strip_dcs s.token))

-- A `%` before a lowercase letter or an escape before a `P`, anywhere.
unfoldable pub has_marker : List ℕ → Bool
has_marker [] = false
has_marker (b ∷ []) = false
has_marker (b ∷ c ∷ bs) =
    (b == b'%' && is_ascii_lowercase c) || ((b == escape_byte && c == b'P') || has_marker (c ∷ bs))

abbrev pub is_marker : ℕ → Bool
is_marker b = b == b'%' || b == escape_byte

unfoldable pub may_contain_control : TerminalStream → List ℕ → Bool
may_contain_control s bytes =
    (s.control || (not s.token_done && token_may_be_control s))
    || (any is_marker (drop (length bytes - 3) bytes) || has_marker bytes)

-- The end of a line: its token decides on control mode and on a response block.
unfoldable pub observe_newline : TerminalStream → TerminalStream
observe_newline s =
    let token = strip_dcs s.token in
    record s {
      control = s.control || arms_control_mode token;
      block =
          if bytes_eq token (codes "%begin")
          then true
          else (if bytes_eq token (codes "%end") || bytes_eq token (codes "%error")
              then false
              else s.block);
      token = [];
      token_done = false;
      midline = false;
      escape = false;
    }

-- One more byte of the token, while it is short.
unfoldable pub observe_token : TerminalStream → ℕ → TerminalStream
observe_token s byte =
    if not s.token_done && ltb (length s.token) 32
    then (if bytes_eq (s.token ++ (byte ∷ [])) tmux_dcs
        then record s { control = true; token = []; midline = false }
        else record s { token = s.token ++ (byte ∷ []) })
    else s

unfoldable pub observe_whitespace : TerminalStream → ℕ → TerminalStream
observe_whitespace s byte =
    if is_ascii_whitespace byte
    then record s {
      control = s.control || (not s.token_done && arms_control_mode s.token);
      token_done = true;
    }
    else s

unfoldable pub observe_byte : TerminalStream → ℕ → TerminalStream
observe_byte s byte =
    if s.control && (not s.block && (s.escape && byte == b'\\'))
    then record s {
      control = false;
      token = [];
      token_done = false;
      midline = false;
      escape = false;
    }
    else (if byte == newline
        then observe_newline s
        else observe_token
            (observe_whitespace (record s { escape = byte == escape_byte; midline = true }) byte)
            byte)

-- Outside control mode nothing of the line matters once its token is complete.
abbrev pub skips : TerminalStream → Bool
skips s = not s.control && (s.token_done || leb 32 (length s.token))

abbrev pub ends_escaped : List ℕ → Bool
ends_escaped [] = false
ends_escaped (b ∷ []) = b == escape_byte
ends_escaped (b ∷ c ∷ bs) = ends_escaped (c ∷ bs)

abbrev pub is_newline : ℕ → Bool
is_newline b = b == newline

-- The loop over the bytes. Where the rest of the line does not matter it jumps to the newline, here
-- byte by byte, or to the end where there is none.
unfoldable pub observe_loop : List ℕ → TerminalStream → TerminalStream
observe_loop [] s = s
observe_loop (b ∷ bs) s = elim (skips s && not (is_newline b)) [
  | false ↦ observe_loop bs (observe_byte s b)
  | true ↦ elim (any is_newline bs) [
    | true ↦ observe_loop bs s
    | false ↦ record s { midline = true; escape = ends_escaped (b ∷ bs) }
  ]
]

unfoldable pub after_last_newline : List ℕ → Option (List ℕ)
after_last_newline [] = none
after_last_newline (b ∷ bs) = elim (after_last_newline bs) [
  | some rest ↦ some rest
  | none ↦ if b == newline then some bs else none
]

-- Bytes without a marker. The second argument is what follows their last newline.
unfoldable pub observe_quiet : TerminalStream → Option (List ℕ) → List ℕ → TerminalStream
observe_quiet s (some rest) bytes =
    observe_loop rest (record s { token = []; token_done = false; midline = false; escape = false })
observe_quiet s none bytes =
    if s.token_done || leb 32 (length s.token)
    then (if length bytes == 0 then s else record s { midline = true; escape = false })
    else observe_loop bytes s

unfoldable pub observe : TerminalStream → List ℕ → TerminalStream
observe s bytes =
    if not s.control
      && ((s.token_done || not (token_may_be_control s)) && not (any is_marker bytes))
    then observe_quiet s (after_last_newline bytes) bytes
    else observe_loop bytes s
