-- ===== src/FlowControl/Rewrite.antt =====
-- How crates/et-core/src/flow_control.rs rewrites the queued terminal packets: the filter on an
-- interrupt, and the promotion of tmux control lines.
use et_rs.Prelude.{
  ltb, ◌==◌, if◌then◌else◌, length, take, drop, ℕ, ◌+◌, ◌-◌, min, Bool, true, false, ◌||◌, not,
  Option, none, some, List, [], ◌∷◌, ◌++◌,
}
use et_rs.FlowControl.{flush_threshold, Codec, Stream, OutputQueue, packet_cost}
use et_rs.FlowControl.Admission.{skip_through_newline, append_terminal}
use et_rs.Packet.{Packet, new}

-- `lengths` and `stderr_flags`, in one list, and `bytes`; nothing where a packet is opaque.
unfoldable pub collect : Codec → List Packet → Option (List (ℕ × Option Bool) × List ℕ)
collect codec [] = some ([], [])
collect codec (p ∷ ps) = elim (codec.decode p.payload) [
  | none ↦ none
  | some message ↦ elim message.buffer [
    | none ↦ none
    | some body ↦ elim (collect codec ps) [
      | none ↦ none
      | some (spans, bytes) ↦ some ((length body, message.is_stderr) ∷ spans, body ++ bytes)
    ]
  ]
]

-- The packet with the body replaced.
abbrev pub with_body : Codec → Packet → List ℕ → Option Bool → Packet
with_body codec p body is_stderr =
    new p.header (codec.encode (record { buffer = some body; is_stderr = is_stderr }))

-- The kept bytes are poured into the packets from the front; a packet left empty goes. The counters
-- move with each packet.
unfoldable pub refill :
    Codec → List Packet → List (ℕ × Option Bool) → List ℕ → ℕ → ℕ → List Packet × ℕ × ℕ
refill codec [] spans remaining bytes packets = ([], bytes, packets)
refill codec (p ∷ ps) [] remaining bytes packets = ([], bytes, packets)
refill codec (p ∷ ps) ((size, is_stderr) ∷ spans) remaining bytes packets =
    let count = min (length remaining) size in
    elim (count == 0) [
      | true ↦ refill codec ps spans remaining (bytes - packet_cost p) (packets - 1)
      | false ↦
          let p' = with_body codec p (take count remaining) is_stderr in
          let (ps', bytes', packets') =
            refill codec ps spans (drop count remaining) (bytes - packet_cost p + packet_cost p')
              (packets - 1 + 1) in
          (p' ∷ ps', bytes', packets')
    ]

-- The promoted bytes are as many as before, so that each packet keeps its length.
unfoldable pub repack : Codec → List Packet → List (ℕ × Option Bool) → List ℕ → ℕ → List Packet × ℕ
repack codec [] spans remaining bytes = ([], bytes)
repack codec (p ∷ ps) [] remaining bytes = (p ∷ ps, bytes)
repack codec (p ∷ ps) ((size, is_stderr) ∷ spans) remaining bytes =
    let p' = with_body codec p (take size remaining) is_stderr in
    let (ps', bytes') =
      repack codec ps spans (drop size remaining) (bytes - packet_cost p + packet_cost p') in
    (p' ∷ ps', bytes')

module _ {S : Type 0} (stream : Stream S) (codec : Codec) where
  unfoldable pub filter_collected :
      OutputQueue S → List (ℕ × Option Bool) → List ℕ → OutputQueue S × ℕ
  filter_collected q spans bytes =
      let result = stream.filter q.stream bytes in
      let (terminal, bytes', packets') =
        refill codec q.terminal spans result.kept q.terminal_bytes q.terminal_packets in
      (
        record q {
          skip_until_newline = q.skip_until_newline || result.skip_until_newline;
          terminal = terminal;
          terminal_bytes = bytes';
          terminal_packets = packets';
        },
        result.dropped,
      )

  unfoldable pub filter_terminal : OutputQueue S → ℕ → OutputQueue S × ℕ
  filter_terminal q threshold = elim (collect codec q.terminal) [
    | none ↦ (q, 0)
    | some (spans, bytes) ↦
        if length bytes == 0 || ltb (length bytes) threshold
        then (q, 0)
        else filter_collected q spans bytes
  ]

  unfoldable pub flush_terminal_on_interrupt : OutputQueue S → OutputQueue S × ℕ
  flush_terminal_on_interrupt q = filter_terminal q flush_threshold

  unfoldable pub append_drained : OutputQueue S → List Packet → OutputQueue S
  append_drained q [] = q
  append_drained q (p ∷ ps) =
      let (q', left) = skip_through_newline stream codec q p in
      elim left [
        | none ↦ append_drained q' ps
        | some p' ↦ append_drained (append_terminal stream codec q' p') ps
      ]

  unfoldable pub discard_drained_terminal : OutputQueue S → List Packet → OutputQueue S × ℕ
  discard_drained_terminal q [] = (q, 0)
  discard_drained_terminal q (p ∷ ps) = filter_terminal (append_drained q (p ∷ ps)) 0

  unfoldable pub promote_bytes :
      OutputQueue S → List (ℕ × Option Bool) → Option (List ℕ) → OutputQueue S
  promote_bytes q spans none = q
  promote_bytes q spans (some promoted) =
      let (terminal, bytes') = repack codec q.terminal spans promoted q.terminal_bytes in
      record q { terminal = terminal; terminal_bytes = bytes' }

  -- Nothing is promoted past an opaque packet.
  unfoldable pub promote_collected :
      OutputQueue S → Option (List (ℕ × Option Bool) × List ℕ) → OutputQueue S
  promote_collected q none = q
  promote_collected q (some (spans, bytes)) =
      promote_bytes q spans (stream.promote_control q.stream bytes)

  unfoldable pub promote_terminal_control : OutputQueue S → OutputQueue S
  promote_terminal_control q =
      if not q.promotion_pending || ltb q.terminal_bytes flush_threshold
      then q
      else promote_collected (record q { promotion_pending = false }) (collect codec q.terminal)
