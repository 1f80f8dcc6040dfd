-- ===== src/ControlLines.antt =====
-- crates/et-htm/src/framing.rs: the command lines that a client of the multiplexer sends, and the
-- escapes in what it gets back.
pub mod Cutting
pub mod Escapes
use et_rs.Prelude.{
  ltb, ◌==◌, if◌then◌else◌, length, Result, ok, err, ℕ, ◌+◌, ◌*◌, ◌/◌, ◌^◌, bit_and, Bool, false,
  ◌&&◌, ◌||◌, List, [], ◌∷◌, ◌++◌,
}
use et_rs.OutputInterrupt.Command.{is_utf8}

abbrev pub max_command : ℕ
max_command = 64 * 1024

pub data LineError : Type 0 where
  not_utf8 too_long : LineError

pub record Lines : Type 0 where
  pub pending : List ℕ
  pub cr : Bool

-- What a call leaves, and its result: the lines that have ended.
abbrev pub Fed : Type 0
Fed = Lines × Result (List (List ℕ)) LineError

abbrev pub prepend : List (List ℕ) → Fed → Fed
prepend lines (s, err e) = (s, err e)
prepend lines (s, ok more) = (s, ok (lines ++ more))

-- `?` in the loop: the lines so far are lost with an error, and the state stays.
abbrev pub resume : Fed → (Lines → Fed) → Fed
resume (s, err e) next = (s, err e)
resume (s, ok lines) next = prepend lines (next s)

unfoldable pub end_line : List ℕ → Bool → Fed
end_line pending cr =
    if is_utf8 pending
    then (record { pending = []; cr = cr }, ok (pending ∷ []))
    else (record { pending = []; cr = cr }, err not_utf8)

unfoldable pub push_byte : List ℕ → Bool → ℕ → Fed
push_byte pending cr byte =
    if length pending == max_command
    then (record { pending = pending; cr = cr }, err too_long)
    else (record { pending = pending ++ (byte ∷ []); cr = cr }, ok [])

abbrev pub is_line_end : ℕ → Bool
is_line_end byte = byte == 13 || byte == 10

-- A newline behind a carriage return ends no line.
unfoldable pub feed_byte : Lines → ℕ → Fed
unfolding end_line push_byte
feed_byte s byte =
    if byte == 10 && s.cr
    then (record s { cr = false }, ok [])
    else (if is_line_end byte
        then end_line s.pending (byte == 13)
        else push_byte s.pending (byte == 13) byte)

unfoldable pub feed : List ℕ → Lines → Fed
unfolding feed_byte
feed [] s = (s, ok [])
feed (byte ∷ bytes) s = resume (feed_byte s byte) (λ s'. feed bytes s')

-- The octal escape of a control byte or a backslash.
unfoldable pub escape_one : ℕ → List ℕ
escape_one byte =
    if ltb byte 32 || byte == b'\\'
    then b'\\'
      ∷ (b'0' + byte / 2 ^ 6)
      ∷ (b'0' + bit_and (byte / 2 ^ 3) 7)
      ∷ (b'0' + bit_and byte 7)
      ∷ []
    else byte ∷ []

unfoldable pub escape : List ℕ → List ℕ
unfolding escape_one
escape [] = []
escape (byte ∷ bytes) = escape_one byte ++ escape bytes
