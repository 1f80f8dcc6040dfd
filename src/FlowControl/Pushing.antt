-- ===== src/FlowControl/Pushing.antt =====
-- The counters of the lanes under `push` of crates/et-core/src/flow_control.rs.
use et_rs.Prelude.{
  ltb, Bool-cases, Result, ok, err, ℕ, ◌≡◌, refl, inl, inr, true, false, Option, none, some, List,
  [], ◌∷◌, arith,
}
use et_rs.FlowControl.{
  TerminalBuffer, Codec, Stream, FlowControlMode, backpressure, discard, OutputQueue, packet_cost,
  is_terminal_output,
}
use et_rs.FlowControl.Admission.{
  after_newline, over_lane, skip_rest, skip_buffer, skip_message, skip_through_newline,
  truncate_buffer, truncate_message, truncate_terminal, push_truncated, push_oversized, push_left,
  push_terminal, push_control, push,
}
use et_rs.FlowControl.Accounting.{IsAccounted, pushed-IsLane}
use et_rs.FlowControl.Merging.{own_header, admit_terminal-IsAccounted}
use et_rs.Packet.{Packet}

-- What is left of a packet is terminal output again.
abbrev OwnLeft : Option Packet → Type 0
OwnLeft none = Unit
OwnLeft (some p) = is_terminal_output p ≡ true

module _ {S : Type 0} (stream : Stream S) (codec : Codec) where
  truncate_buffer_header :
      (p p' : Packet) (limit : ℕ) (message : TerminalBuffer) (buffer : Option (List ℕ))
      → truncate_buffer stream codec p limit message buffer ≡ ok p'
      → p'.header ≡ p.header
  unfolding truncate_buffer
  truncate_buffer_header p p' limit message none e = absurd (ground arith)
  truncate_buffer_header p p' limit message (some bytes) e = ground arith

  truncate_message_header :
      (p p' : Packet) (limit : ℕ) (decoded : Option TerminalBuffer)
      → truncate_message stream codec p limit decoded ≡ ok p'
      → p'.header ≡ p.header
  unfolding truncate_message
  truncate_message_header p p' limit none e = absurd (ground arith)
  truncate_message_header p p' limit (some message) e =
      truncate_buffer_header p p' limit message message.buffer e

  push_truncated-IsAccounted :
      (q : OutputQueue S) (p : Packet) (r : Result Packet Packet) (t c : List Packet)
      → truncate_terminal stream codec p q.limit ≡ r
      → is_terminal_output p ≡ true
      → IsAccounted q t c
      → IsAccounted (push_truncated stream codec q r).0 t c
  unfolding push_truncated truncate_terminal
  push_truncated-IsAccounted q p (err p') t c e own a = a
  push_truncated-IsAccounted q p (ok p') t c e own a =
      admit_terminal-IsAccounted stream codec q.mode q p' t c
        (own_header p p' (truncate_message_header p p' q.limit (codec.decode p.payload) e) own) a

  oversized-IsAccounted :
      (mode : FlowControlMode) (q : OutputQueue S) (p : Packet) (t c : List Packet)
      → is_terminal_output p ≡ true
      → IsAccounted q t c
      → IsAccounted (push_oversized stream codec mode q p).0 t c
  unfolding push_oversized
  oversized-IsAccounted backpressure q p t c own a = a
  oversized-IsAccounted discard q p t c own a =
      push_truncated-IsAccounted q p (truncate_terminal stream codec p q.limit) t c refl own a

  push_left-IsAccounted :
      (q : OutputQueue S) (left : Option Packet) (t c : List Packet)
      → OwnLeft left
      → IsAccounted q t c
      → IsAccounted (push_left stream codec q left).0 t c
  unfolding push_left
  push_left-IsAccounted q none t c own a = a
  push_left-IsAccounted q (some p) t c own a = elim (Bool-cases (ltb q.limit (packet_cost p))) [
    | inl over ↦ simp over (oversized-IsAccounted q.mode q p t c own a)
    | inr fits ↦ simp fits (admit_terminal-IsAccounted stream codec q.mode q p t c own a)
  ]

  skip_rest-IsAccounted :
      (q : OutputQueue S) (p : Packet) (message : TerminalBuffer) (rest : Option (List ℕ))
      (t c : List Packet)
      → is_terminal_output p ≡ true
      → IsAccounted q t c
      → IsAccounted (skip_rest stream codec q p message rest).0 t c
        × OwnLeft (skip_rest stream codec q p message rest).1
  unfolding skip_rest
  skip_rest-IsAccounted q p message none t c own a = (a, tt)
  skip_rest-IsAccounted q p message (some []) t c own a = (
    record { terminal_counters = a.terminal_counters; control_counters = a.control_counters },
    tt,
  )
  skip_rest-IsAccounted q p message (some (b ∷ bs)) t c own a = (
    record { terminal_counters = a.terminal_counters; control_counters = a.control_counters },
    own_header p _ refl own,
  )

  skip_buffer-IsAccounted :
      (q : OutputQueue S) (p : Packet) (message : TerminalBuffer) (buffer : Option (List ℕ))
      (t c : List Packet)
      → is_terminal_output p ≡ true
      → IsAccounted q t c
      → IsAccounted (skip_buffer stream codec q p message buffer).0 t c
        × OwnLeft (skip_buffer stream codec q p message buffer).1
  unfolding skip_buffer
  skip_buffer-IsAccounted q p message none t c own a = (a, own)
  skip_buffer-IsAccounted q p message (some bytes) t c own a =
      skip_rest-IsAccounted q p message (after_newline bytes) t c own a

  skip_message-IsAccounted :
      (q : OutputQueue S) (p : Packet) (decoded : Option TerminalBuffer) (t c : List Packet)
      → is_terminal_output p ≡ true
      → IsAccounted q t c
      → IsAccounted (skip_message stream codec q p decoded).0 t c
        × OwnLeft (skip_message stream codec q p decoded).1
  unfolding skip_message
  skip_message-IsAccounted q p none t c own a = (a, own)
  skip_message-IsAccounted q p (some message) t c own a =
      skip_buffer-IsAccounted q p message message.buffer t c own a

  skip_through_newline-IsAccounted :
      (q : OutputQueue S) (p : Packet) (t c : List Packet)
      → is_terminal_output p ≡ true
      → IsAccounted q t c
      → IsAccounted (skip_through_newline stream codec q p).0 t c
        × OwnLeft (skip_through_newline stream codec q p).1
  unfolding skip_through_newline
  skip_through_newline-IsAccounted q p t c own a = elim (Bool-cases q.skip_until_newline) [
    | inl skipping ↦ simp skipping (skip_message-IsAccounted q p (codec.decode p.payload) t c own a)
    | inr whole ↦ simp whole (a, own)
  ]

  push_control-IsAccounted :
      (q : OutputQueue S) (p : Packet) (t c : List Packet)
      → is_terminal_output p ≡ false
      → IsAccounted q t c
      → IsAccounted (push_control stream codec q p).0 t c
  unfolding push_control
  push_control-IsAccounted q p t c own a = elim (Bool-cases (ltb q.limit (packet_cost p))) [
    | inl big ↦ simp big a
    | inr small ↦
        elim (Bool-cases (over_lane (packet_cost p) q.limit q.control_bytes q.control_packets)) [
          | inl over ↦ simp (small, over) a
          | inr fits ↦
              simp (small, fits)
                (record {
                  terminal_counters = a.terminal_counters;
                  control_counters =
                      pushed-IsLane false q.control c q.control_bytes q.control_packets p own
                        a.control_counters;
                })
        ]
  ]

  push_terminal-IsAccounted :
      (q : OutputQueue S) (p : Packet) (t c : List Packet)
      → is_terminal_output p ≡ true
      → IsAccounted q t c
      → IsAccounted (push_terminal stream codec q p).0 t c
  unfolding push_terminal
  push_terminal-IsAccounted q p t c own a =
      let skipped = skip_through_newline-IsAccounted q p t c own a in
      push_left-IsAccounted _ _ t c skipped.1 skipped.0

  -- Pushing a packet, admitted or refused, merged, truncated or with older ones evicted for it,
  -- keeps both lanes' counters equal to what is queued and in flight, and every packet in its lane.
  pub push-IsAccounted :
      (q : OutputQueue S) (p : Packet) (t c : List Packet)
      → IsAccounted q t c
      → IsAccounted (push stream codec q p).0 t c
  unfolding push
  push-IsAccounted q p t c a = elim (Bool-cases (is_terminal_output p)) [
    | inl own ↦ simp own (push_terminal-IsAccounted q p t c own a)
    | inr own ↦ simp own (push_control-IsAccounted q p t c own a)
  ]
