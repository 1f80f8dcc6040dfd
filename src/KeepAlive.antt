-- ===== src/KeepAlive.antt =====
-- crates/et-core/src/keepalive.rs: acknowledgements that ride on keep-alive packets.
pub mod Payload
pub mod Schedule
use et_rs.Prelude.{
  ltb, leb, ◌==◌, if◌then◌else◌, length, ℤ, pos, negsuc, be_bytes, from_be, to_i64, ℕ, ◌-◌, ◌*◌,
  ◌%◌, ◌^◌, Bool, true, false, ◌&&◌, ◌||◌, Option, none, some, List,
}
use et_rs.Backup.{ack_retain_floor_packets}

abbrev pub ack_payload_len : ℕ
ack_payload_len = 8

abbrev pub ack_interval_bytes : ℕ
ack_interval_bytes = 512 * 1024

-- `sequence.max(0).to_be_bytes()`.
unfoldable pub encode_ack : ℤ → List ℕ
encode_ack (pos n) = be_bytes ack_payload_len (n % 2 ^ 64)
encode_ack (negsuc n) = be_bytes ack_payload_len 0

unfoldable pub decode_ack : List ℕ → Option ℤ
decode_ack payload =
    if length payload == ack_payload_len
    then elim (to_i64 (from_be payload)) [ negsuc n ↦ none | pos n ↦ some (pos n) ]
    else none

pub data AckSide : Type 0 where
  initiator responder : AckSide

abbrev pub is_initiator : AckSide → Bool
is_initiator initiator = true
is_initiator responder = false

pub record AckSchedule : Type 0 where
  pub attached : Option ℕ

-- Reader sequences are not negative; where `sequence` is below `attached` the difference of the
-- source is negative, and here 0: neither reaches the floor.
unfoldable pub attaches : Option ℕ → AckSide → ℕ → ℕ → Bool → Bool → Bool
attaches none side sequence data_sequence peer_acknowledges volume =
    peer_acknowledges || is_initiator side
attaches (some attached) side sequence data_sequence peer_acknowledges volume =
    peer_acknowledges
    && (volume
        || (ltb attached data_sequence || leb ack_retain_floor_packets (sequence - attached)))

unfoldable pub next : AckSchedule → AckSide → ℕ → ℕ → Bool → Bool → AckSchedule × Option (List ℕ)
unfolding attaches encode_ack
next a side sequence data_sequence peer_acknowledges volume =
    if attaches a.attached side sequence data_sequence peer_acknowledges volume
    then (record { attached = some sequence }, some (encode_ack (pos sequence)))
    else (a, none)
