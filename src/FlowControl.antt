-- ===== src/FlowControl.antt =====
-- crates/et-core/src/flow_control.rs: the two output lanes of a session, their counters, and
-- admission. prost's codec of the `TerminalBuffer` message is the argument `codec`; what the queue
-- asks of crates/et-core/src/output_interrupt.rs is the interface `Stream`.
pub mod Admission
pub mod Drain
pub mod Rewrite
pub mod Accounting
pub mod Merging
pub mod Pushing
pub mod Flight
use et_rs.Prelude.{
  ltb, leb, ◌==◌, length, Result, ℕ, ◌+◌, ◌*◌, ◌/◌, min, Bool, true, false, ◌&&◌, not, Option, none,
  some, List, [],
}
use et_rs.Packet.{header_len, Packet, wire_len}
use et_rs.Writer.{usize_max}

abbrev pub frame_bytes : ℕ
frame_bytes = 4

abbrev pub max_packets_per_lane : ℕ
max_packets_per_lane = 4096

abbrev pub coalesced_terminal_bytes : ℕ
coalesced_terminal_bytes = 16 * 1024

abbrev pub flush_threshold : ℕ
flush_threshold = 64 * 1024

abbrev pub terminal_buffer_header : ℕ
terminal_buffer_header = 1

pub record TerminalBuffer : Type 0 where
  pub buffer : Option (List ℕ)
  pub is_stderr : Option Bool

pub record Codec : Type 0 where
  pub decode : List ℕ → Option TerminalBuffer
  pub encode : TerminalBuffer → List ℕ

pub record FilteredOutput : Type 0 where
  pub kept : List ℕ
  pub dropped : ℕ
  pub skip_until_newline : Bool

-- The state of a `TerminalStream` and its operations.
pub record Stream (S : Type 0) : Type 0 where
  pub fresh : S
  pub may_contain_control : S → List ℕ → Bool
  pub observe : S → List ℕ → S
  pub filter : S → List ℕ → FilteredOutput
  pub promote_control : S → List ℕ → Option (List ℕ)

pub data FlowControlMode : Type 0 where
  backpressure discard : FlowControlMode

pub data QueuePushError : Type 0 where
  full oversized : Packet → QueuePushError

abbrev pub Pushed : Type 0
Pushed = Result (Unit {0}) QueuePushError

pub data OutputLane : Type 0 where
  terminal_lane control_lane : OutputLane

pub record OutputQueue (S : Type 0) : Type 0 where
  pub mode : FlowControlMode
  pub limit : ℕ
  pub terminal_bytes : ℕ
  pub control_bytes : ℕ
  pub terminal_packets : ℕ
  pub control_packets : ℕ
  pub terminal : List Packet
  pub control : List Packet
  pub prefer_terminal : Bool
  pub stream : S
  pub before_take : Option S
  pub skip_until_newline : Bool
  pub promotion_pending : Bool

unfoldable pub new : {S : Type 0} → Stream S → FlowControlMode → ℕ → OutputQueue S
new stream mode limit = record {
  mode = mode;
  limit = limit;
  terminal_bytes = 0;
  control_bytes = 0;
  terminal_packets = 0;
  control_packets = 0;
  terminal = [];
  control = [];
  prefer_terminal = true;
  stream = stream.fresh;
  before_take = none;
  skip_until_newline = false;
  promotion_pending = false;
}

unfoldable pub packet_cost : Packet → ℕ
packet_cost p = min (wire_len p + frame_bytes) usize_max

unfoldable pub is_terminal_output : Packet → Bool
is_terminal_output p = p.header == terminal_buffer_header

-- `a.saturating_add(b) > limit`.
abbrev pub exceeds : ℕ → ℕ → ℕ → Bool
exceeds a b limit = ltb limit (min (a + b) usize_max)

-- `message.buffer.as_deref().unwrap_or_default()`.
abbrev pub body_bytes : TerminalBuffer → List ℕ
body_bytes message = elim message.buffer [ none ↦ [] | some bytes ↦ bytes ]

abbrev pub may_resume : ℕ → ℕ → ℕ → ℕ → Bool
may_resume bytes packets free_bytes limit =
    leb packets (max_packets_per_lane / 2) && not (exceeds bytes free_bytes limit)

module _ {S : Type 0} where
  unfoldable pub can_accept_terminal : OutputQueue S → ℕ → Bool
  can_accept_terminal q payload_bytes =
      let wanted = min (payload_bytes + (header_len + frame_bytes)) usize_max in
      elim q.mode [
        | backpressure ↦
            ltb q.terminal_packets max_packets_per_lane
            && not (exceeds q.terminal_bytes wanted q.limit)
        | discard ↦ leb wanted q.limit
      ]

  unfoldable pub can_resume : OutputQueue S → OutputLane → ℕ → Bool
  can_resume q control_lane free_bytes =
      may_resume q.control_bytes q.control_packets free_bytes q.limit
  can_resume q terminal_lane free_bytes = elim q.mode [
    | discard ↦ leb free_bytes q.limit
    | backpressure ↦ may_resume q.terminal_bytes q.terminal_packets free_bytes q.limit
  ]

  unfoldable pub is_empty : OutputQueue S → Bool
  is_empty q = length q.terminal == 0 && length q.control == 0

  unfoldable pub queued_bytes : OutputQueue S → ℕ
  queued_bytes q = q.terminal_bytes + q.control_bytes

  unfoldable pub set_limit : OutputQueue S → ℕ → OutputQueue S
  set_limit q limit = record q { limit = limit }
