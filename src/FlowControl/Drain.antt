-- ===== src/FlowControl/Drain.antt =====
-- How the writer drains the lanes of crates/et-core/src/flow_control.rs: `take`, `complete` and what
-- belongs to them.
use et_rs.Prelude.{if◌then◌else◌, ◌-◌, Bool, true, false, not, Option, none, some, List, [], ◌∷◌}
use et_rs.FlowControl.{Codec, Stream, OutputQueue, packet_cost, is_terminal_output, body_bytes}
use et_rs.FlowControl.Rewrite.{promote_terminal_control}
use et_rs.Packet.{Packet, decode_terminal_buffer}

module _ {S : Type 0} (stream : Stream S) (codec : Codec) where
  -- The stream sees the bytes of a terminal packet that is taken.
  unfoldable pub observe_taken : S → Packet → S
  observe_taken seen p = elim (decode_terminal_buffer p.payload) [
    | some (bytes, is_stderr) ↦ stream.observe seen bytes
    | none ↦ elim (codec.decode p.payload) [
      | some message ↦ stream.observe seen (body_bytes message)
      | none ↦ seen
    ]
  ]

  unfoldable pub taken : OutputQueue S → Packet → OutputQueue S × Option Packet
  taken q p =
      let q' = record q { prefer_terminal = not q.prefer_terminal } in
      if is_terminal_output p
      then (record q' { before_take = some q.stream; stream = observe_taken q.stream p }, some p)
      else (q', some p)

  -- The two lanes, the preferred one first.
  unfoldable pub take_lanes :
      Bool → List Packet → List Packet → OutputQueue S → OutputQueue S × Option Packet
  take_lanes prefer_terminal [] [] q = (q, none)
  take_lanes prefer_terminal (t ∷ ts) [] q = taken (record q { terminal = ts }) t
  take_lanes prefer_terminal [] (c ∷ cs) q = taken (record q { control = cs }) c
  take_lanes true (t ∷ ts) (c ∷ cs) q = taken (record q { terminal = ts }) t
  take_lanes false (t ∷ ts) (c ∷ cs) q = taken (record q { control = cs }) c

  unfoldable pub take_packet : OutputQueue S → OutputQueue S × Option Packet
  take_packet q =
      let q' = promote_terminal_control stream codec q in
      take_lanes q'.prefer_terminal q'.terminal q'.control q'

  -- The first argument is `self.control`.
  unfoldable pub take_control : List Packet → OutputQueue S → OutputQueue S × Option Packet
  take_control [] q = (q, none)
  take_control (p ∷ ps) q = (record q { control = ps; prefer_terminal = true }, some p)

  unfoldable pub complete : OutputQueue S → Packet → OutputQueue S
  complete q p =
      if is_terminal_output p
      then record q {
        terminal_bytes = q.terminal_bytes - packet_cost p;
        terminal_packets = q.terminal_packets - 1;
      }
      else record q {
        control_bytes = q.control_bytes - packet_cost p;
        control_packets = q.control_packets - 1;
      }

  unfoldable pub restore_stream : OutputQueue S → OutputQueue S
  restore_stream q = elim q.before_take [
    | none ↦ q
    | some seen ↦ record q { stream = seen; before_take = none }
  ]

  unfoldable pub restore_front : OutputQueue S → Packet → OutputQueue S
  restore_front q p =
      if is_terminal_output p
      then (let q' = restore_stream q in record q' { terminal = p ∷ q'.terminal })
      else record q { control = p ∷ q.control }

  unfoldable pub complete_taken : OutputQueue S × Option Packet → OutputQueue S × Option Packet
  complete_taken (q, none) = (q, none)
  complete_taken (q, some p) = (complete q p, some p)

  unfoldable pub pop : OutputQueue S → OutputQueue S × Option Packet
  pop q = complete_taken (take_packet q)
