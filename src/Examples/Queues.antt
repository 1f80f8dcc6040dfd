-- ===== src/Examples/Queues.antt =====
-- The output queue with packets in its lanes, and a filter that keeps everything.
use et_rs.Prelude.{refl, Bool, true, false, none, some, [], ◌∷◌}
use et_rs.FlowControl.{
  Codec, Stream, backpressure, OutputQueue, packet_cost, is_terminal_output, body_bytes,
}
use et_rs.FlowControl.Admission.{push}
use et_rs.FlowControl.Drain.{take_packet}
use et_rs.FlowControl.Accounting.{IsAccounted}
use et_rs.FlowControl.Pushing.{push-IsAccounted}
use et_rs.FlowControl.Flight.{IsTaken, take_packet-IsTaken}
use et_rs.Packet.{Packet, wire_len}

abbrev toy_stream : Stream Bool
toy_stream = record {
  fresh = false;
  may_contain_control = λ seen bytes. seen;
  observe = λ seen bytes. seen;
  filter = λ seen bytes. record { kept = bytes; dropped = 0; skip_until_newline = false };
  promote_control = λ seen bytes. none;
}

abbrev toy_codec : Codec
toy_codec = record {
  decode = λ bytes. some (record { buffer = some bytes; is_stderr = none });
  encode = λ message. body_bytes message;
}

abbrev output : Packet
output = record { encrypted = false; header = 1; payload = 10 ∷ 2 ∷ 104 ∷ 105 ∷ [] }

abbrev control_packet : Packet
control_packet = record { encrypted = false; header = 7; payload = [] }

-- One packet in each lane, and one control packet in flight.
abbrev queue : OutputQueue Bool
queue = record {
  mode = backpressure;
  limit = 100000;
  terminal_bytes = 10;
  control_bytes = 12;
  terminal_packets = 1;
  control_packets = 2;
  terminal = output ∷ [];
  control = control_packet ∷ [];
  prefer_terminal = true;
  stream = false;
  before_take = none;
  skip_until_newline = false;
  promotion_pending = false;
}

queue-IsAccounted : IsAccounted queue [] (control_packet ∷ [])
unfolding packet_cost wire_len is_terminal_output
queue-IsAccounted = record {
  terminal_counters = record { bytes_sum = refl; count = refl; own = (refl, tt); own_flying = tt };
  control_counters = record {
    bytes_sum = refl;
    count = refl;
    own = (refl, tt);
    own_flying = (refl, tt);
  };
}

push-IsAccounted_example :
    IsAccounted (push toy_stream toy_codec queue output).0 [] (control_packet ∷ [])
push-IsAccounted_example =
    push-IsAccounted toy_stream toy_codec queue output [] (control_packet ∷ []) queue-IsAccounted

take_packet-IsTaken_example :
    IsTaken (take_packet toy_stream toy_codec queue) [] (control_packet ∷ [])
take_packet-IsTaken_example =
    take_packet-IsTaken toy_stream toy_codec queue [] (control_packet ∷ []) queue-IsAccounted
