-- ===== src/FlowControl/Admission.antt =====
-- Admission to the lanes of crates/et-core/src/flow_control.rs: `push` and what it calls.
use et_rs.Prelude.{
  ltb, leb, ◌==◌, if◌then◌else◌, length, drop, Result, ok, err, ℕ, zero, suc, ◌+◌, ◌-◌, ◌/◌, Bool,
  true, false, ◌||◌, not, Option, none, some, List, [], ◌∷◌, ◌++◌,
}
use et_rs.FlowControl.{
  frame_bytes, max_packets_per_lane, coalesced_terminal_bytes, TerminalBuffer, Codec, Stream,
  FlowControlMode, backpressure, discard, full, oversized, Pushed, OutputQueue, packet_cost,
  is_terminal_output, exceeds, body_bytes,
}
use et_rs.Packet.{header_len, Packet, new, decode_terminal_buffer, append_terminal_buffer}

-- What follows the first newline.
unfoldable pub after_newline : List ℕ → Option (List ℕ)
after_newline [] = none
after_newline (b ∷ bs) = let rest = after_newline bs in if b == b'\n' then some bs else rest

-- The last packet of a lane, and those before it.
unfoldable pub split_back : List Packet → Option (List Packet × Packet)
split_back [] = none
split_back (p ∷ []) = some ([], p)
split_back (p ∷ q ∷ ps) = elim (split_back (q ∷ ps)) [
  | none ↦ none
  | some (rest, back) ↦ some (p ∷ rest, back)
]

-- The loop that evicts the oldest packets while `over` holds: what is left of the lane and its
-- counters, and whether the packet fits now.
unfoldable pub evict : (ℕ → ℕ → Bool) → List Packet → ℕ → ℕ → List Packet × ℕ × ℕ × Bool
evict over [] bytes packets = ([], bytes, packets, not (over bytes packets))
evict over (p ∷ ps) bytes packets = elim (over bytes packets) [
  | true ↦ evict over ps (bytes - packet_cost p) (packets - 1)
  | false ↦ (p ∷ ps, bytes, packets, true)
]

abbrev pub over_lane : ℕ → ℕ → ℕ → ℕ → Bool
over_lane wanted limit bytes packets =
    exceeds bytes wanted limit || leb max_packets_per_lane packets

module _ {S : Type 0} (stream : Stream S) (codec : Codec) where
  -- The bytes after the newline go on, where there are any.
  unfoldable pub skip_rest :
      OutputQueue S → Packet → TerminalBuffer → Option (List ℕ) → OutputQueue S × Option Packet
  skip_rest q p message none = (q, none)
  skip_rest q p message (some []) = (record q { skip_until_newline = false }, none)
  skip_rest q p message (some (b ∷ bs)) = (
    record q { skip_until_newline = false },
    some (new p.header (codec.encode (record message { buffer = some (b ∷ bs) }))),
  )

  unfoldable pub skip_buffer :
      OutputQueue S → Packet → TerminalBuffer → Option (List ℕ) → OutputQueue S × Option Packet
  skip_buffer q p message none = (q, some p)
  skip_buffer q p message (some bytes) = skip_rest q p message (after_newline bytes)

  unfoldable pub skip_message :
      OutputQueue S → Packet → Option TerminalBuffer → OutputQueue S × Option Packet
  skip_message q p none = (q, some p)
  skip_message q p (some message) = skip_buffer q p message message.buffer

  unfoldable pub skip_through_newline : OutputQueue S → Packet → OutputQueue S × Option Packet
  skip_through_newline q p =
      if q.skip_until_newline then skip_message q p (codec.decode p.payload) else (q, some p)

  -- The encoding of the last `count` bytes.
  abbrev pub encode_tail : List ℕ → Option Bool → ℕ → List ℕ
  encode_tail bytes is_stderr count =
      codec.encode
        (record { buffer = some (drop (length bytes - count) bytes); is_stderr = is_stderr })

  -- The binary search; each round makes the interval smaller, so the bytes' number of rounds is
  -- enough.
  unfoldable pub truncate_loop : ℕ → List ℕ → Option Bool → ℕ → ℕ → ℕ → ℕ
  truncate_loop zero bytes is_stderr limit low high = low
  truncate_loop (suc rounds) bytes is_stderr limit low high =
      let middle = low + (high - low + 1) / 2 in
      let size = length (encode_tail bytes is_stderr middle) in
      elim (ltb low high) [
        | false ↦ low
        | true ↦ elim (exceeds size (header_len + frame_bytes) limit) [
          | false ↦ truncate_loop rounds bytes is_stderr limit middle high
          | true ↦ truncate_loop rounds bytes is_stderr limit low (middle - 1)
        ]
      ]

  unfoldable pub truncate_buffer :
      Packet → ℕ → TerminalBuffer → Option (List ℕ) → Result Packet Packet
  truncate_buffer p limit message none = err p
  truncate_buffer p limit message (some bytes) =
      let low = truncate_loop (length bytes) bytes message.is_stderr limit 0 (length bytes) in
      ok (new p.header (encode_tail bytes message.is_stderr low))

  unfoldable pub truncate_message : Packet → ℕ → Option TerminalBuffer → Result Packet Packet
  truncate_message p limit none = err p
  truncate_message p limit (some message) = truncate_buffer p limit message message.buffer

  unfoldable pub truncate_terminal : Packet → ℕ → Result Packet Packet
  truncate_terminal p limit = truncate_message p limit (codec.decode p.payload)

  -- What the stream says of a packet's bytes; an opaque packet may hold anything.
  unfoldable pub may_promote : OutputQueue S → Packet → Bool
  may_promote q p = elim (decode_terminal_buffer p.payload) [
    | some (bytes, is_stderr) ↦ stream.may_contain_control q.stream bytes
    | none ↦ elim (codec.decode p.payload) [
      | some message ↦ stream.may_contain_control q.stream (body_bytes message)
      | none ↦ true
    ]
  ]

  unfoldable pub note_promotion : OutputQueue S → Packet → OutputQueue S
  note_promotion q p = if may_promote q p then record q { promotion_pending = true } else q

  unfoldable pub push_back : OutputQueue S → Packet → OutputQueue S
  push_back q p = record q {
    terminal_bytes = q.terminal_bytes + packet_cost p;
    terminal_packets = q.terminal_packets + 1;
    terminal = q.terminal ++ (p ∷ []);
  }

  -- The packet `back` is the last of the lane, behind `rest`.
  unfoldable pub merge_back :
      OutputQueue S → Packet → List Packet → Packet → List ℕ → Bool → OutputQueue S
  merge_back q p rest back bytes is_stderr =
      let (back', merged) = append_terminal_buffer back bytes is_stderr coalesced_terminal_bytes in
      if merged
      then record q {
        terminal_bytes = q.terminal_bytes - packet_cost back + packet_cost back';
        terminal = rest ++ (back' ∷ []);
      }
      else push_back q p

  -- The last packet of the lane, and the bytes of the new one, where there are any.
  unfoldable pub merge_or_push :
      OutputQueue S
      → Packet
      → Option (List Packet × Packet)
      → Option (List ℕ × Bool)
      → OutputQueue S
  merge_or_push q p none body = push_back q p
  merge_or_push q p (some last) none = push_back q p
  merge_or_push q p (some (rest, back)) (some (bytes, is_stderr)) =
      merge_back q p rest back bytes is_stderr

  unfoldable pub append_terminal : OutputQueue S → Packet → OutputQueue S
  append_terminal q p =
      merge_or_push (note_promotion q p) p (split_back q.terminal)
        (decode_terminal_buffer p.payload)

  unfoldable pub admit_discarding : OutputQueue S → Packet → OutputQueue S × Pushed
  admit_discarding q p =
      let (terminal, bytes, packets, fits) =
        evict (over_lane (packet_cost p) q.limit) q.terminal q.terminal_bytes q.terminal_packets in
      let q' = record q {
        terminal = terminal;
        terminal_bytes = bytes;
        terminal_packets = packets;
      } in
      if fits then (append_terminal q' p, ok tt) else (q', err (full p))

  -- The first argument is `self.mode`.
  unfoldable pub admit_terminal : FlowControlMode → OutputQueue S → Packet → OutputQueue S × Pushed
  admit_terminal backpressure q p =
      if over_lane (packet_cost p) q.limit q.terminal_bytes q.terminal_packets
      then (q, err (full p))
      else (append_terminal q p, ok tt)
  admit_terminal discard q p = admit_discarding q p

  -- What `truncate_terminal` gives is admitted.
  unfoldable pub push_truncated : OutputQueue S → Result Packet Packet → OutputQueue S × Pushed
  push_truncated q (err p) = (q, err (oversized p))
  push_truncated q (ok p) = admit_terminal q.mode q p

  unfoldable pub push_oversized : FlowControlMode → OutputQueue S → Packet → OutputQueue S × Pushed
  push_oversized backpressure q p = (q, err (oversized p))
  push_oversized discard q p = push_truncated q (truncate_terminal p q.limit)

  unfoldable pub push_left : OutputQueue S → Option Packet → OutputQueue S × Pushed
  push_left q none = (q, ok tt)
  push_left q (some p) =
      if ltb q.limit (packet_cost p) then push_oversized q.mode q p else admit_terminal q.mode q p

  -- What `skip_through_newline` leaves is admitted.
  unfoldable pub push_terminal : OutputQueue S → Packet → OutputQueue S × Pushed
  push_terminal q p = let (q', left) = skip_through_newline q p in push_left q' left

  unfoldable pub push_control : OutputQueue S → Packet → OutputQueue S × Pushed
  push_control q p =
      if ltb q.limit (packet_cost p)
      then (q, err (oversized p))
      else (if over_lane (packet_cost p) q.limit q.control_bytes q.control_packets
          then (q, err (full p))
          else (
            record q {
              control_bytes = q.control_bytes + packet_cost p;
              control_packets = q.control_packets + 1;
              control = q.control ++ (p ∷ []);
            },
            ok tt,
          ))

  unfoldable pub push : OutputQueue S → Packet → OutputQueue S × Pushed
  push q p = if is_terminal_output p then push_terminal q p else push_control q p
