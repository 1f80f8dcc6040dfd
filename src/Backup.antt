-- ===== src/Backup.antt =====
-- The replay buffer of crates/et-core/src/backed_writer.rs: sealed frames, the newest first, the
-- caps on them, and the loops that drop the oldest.
pub mod Trim
use et_rs.Prelude.{
  ltb, leb, if◌then◌else◌, length, ℕ, zero, suc, ◌+◌, ◌-◌, ◌*◌, Bool, true, false, ◌&&◌, ◌||◌,
  Option, none, some, List, [], ◌∷◌,
}

abbrev pub max_backup_bytes : ℕ
max_backup_bytes = 64 * 1024 * 1024

abbrev pub disconnect_buffer_bytes : ℕ
disconnect_buffer_bytes = 64 * 1024 * 1024

abbrev pub max_recovery_backup_bytes : ℕ
max_recovery_backup_bytes = 76 * 1024 * 1024

abbrev pub max_backup_packets : ℕ
max_backup_packets = 262144

abbrev pub max_disconnect_packets : ℕ
max_disconnect_packets = 262144

abbrev pub connected_backup_bytes : ℕ
connected_backup_bytes = 8 * 1024 * 1024

abbrev pub connected_backup_packets : ℕ
connected_backup_packets = 32768

abbrev pub ack_retain_slack_packets : ℕ
ack_retain_slack_packets = 1024

abbrev pub ack_retain_slack_bytes : ℕ
ack_retain_slack_bytes = 256 * 1024

abbrev pub ack_retain_floor_packets : ℕ
ack_retain_floor_packets = 16

abbrev pub Frame : Type 0
Frame = List ℕ

-- `frame.len() - 4`, the bytes behind the length prefix.
abbrev pub frame_wire_len : Frame → ℕ
frame_wire_len frame = length frame - 4

abbrev pub wire_sum : List Frame → ℕ
wire_sum [] = 0
wire_sum (f ∷ fs) = frame_wire_len f + wire_sum fs

-- `VecDeque::pop_back`: the rest and the oldest frame.
unfoldable pub pop_back : List Frame → Option (List Frame × Frame)
pop_back [] = none
pop_back (f ∷ []) = some ([], f)
pop_back (f ∷ g ∷ fs) = elim (pop_back (g ∷ fs)) [
  | none ↦ none
  | some (rest, old) ↦ some (f ∷ rest, old)
]

-- `while test(backup_size, backup.len()) { pop_back; backup_size -= .. }`. A round drops a frame,
-- so as many rounds as there are frames are enough.
unfoldable pub trim_loop : ℕ → (ℕ → ℕ → Bool) → List Frame → ℕ → List Frame × ℕ
trim_loop zero test backup size = (backup, size)
trim_loop (suc rounds) test backup size = elim (test size (length backup)) [
  | false ↦ (backup, size)
  | true ↦ elim (pop_back backup) [
    | none ↦ (backup, size)
    | some (rest, old) ↦ trim_loop rounds test rest (size - frame_wire_len old)
  ]
]

abbrev pub over_connected_cap : ℕ → ℕ → ℕ → Bool
over_connected_cap unacknowledged size len =
    (ltb connected_backup_bytes size || ltb connected_backup_packets len) && ltb unacknowledged len

abbrev pub over_hard_cap : ℕ → ℕ → Bool
over_hard_cap size len = ltb max_backup_bytes size || ltb max_backup_packets len

abbrev pub over_hard_bytes : ℕ → ℕ → Bool
over_hard_bytes size len = ltb max_backup_bytes size

-- The loop over the acknowledged frames, the newest first: how many of them are kept.
unfoldable pub slack_keep : ℕ → ℕ → List Frame → ℕ
slack_keep slack_packets slack_bytes [] = 0
slack_keep slack_packets slack_bytes (frame ∷ rest) =
    let keep = 1 + slack_keep (slack_packets + 1) (slack_bytes + frame_wire_len frame) rest in
    if leb ack_retain_slack_packets slack_packets
      || (leb ack_retain_floor_packets slack_packets
          && ltb ack_retain_slack_bytes (slack_bytes + frame_wire_len frame))
    then 0
    else keep

abbrev pub over_keep : ℕ → ℕ → ℕ → Bool
over_keep keep size len = ltb keep len
