-- ===== src/Recovery/Catchup.antt =====
-- The check of a catchup frame in crates/et-net/src/connection_recovery.rs, before it is decoded.
pub mod Encoding
use et_rs.Prelude.{
  ltb, leb, ◌==◌, if◌then◌else◌, length, drop, ℕ, zero, suc, ◌+◌, ◌*◌, ◌%◌, ◌^◌, bit_and, bit_or,
  Bool, true, false, ◌&&◌, ◌||◌, not, Option, none, some, List, [], ◌∷◌,
}
use et_rs.Backup.{max_backup_packets, max_disconnect_packets}

pub data CatchupError : Type 0 where
  unsupported_field invalid_length empty_entry too_many_entries exceeds_frame : CatchupError

-- From the byte `index` of the varint on: the value, and how many bytes it takes.
unfoldable pub varint_from : List ℕ → ℕ → ℕ → Option (ℕ × ℕ)
varint_from [] index value = none
varint_from (byte ∷ bytes) index value =
    let value' = bit_or value (bit_and byte 0x7f * 2 ^ (index * 7) % 2 ^ 64) in
    let rest = varint_from bytes (index + 1) value' in
    if leb 10 index || (index == 9 && ltb 1 byte)
    then none
    else if bit_and byte 0x80 == 0
    then some (value', index + 1)
    else rest

unfoldable pub decode_varint : List ℕ → Option (ℕ × ℕ)
unfolding varint_from
decode_varint bytes = varint_from bytes 0 0

abbrev pub max_entries : ℕ
max_entries = max_backup_packets + max_disconnect_packets

-- What is left of the frame is given in place of the offset. A round takes at least two bytes.
unfoldable pub validate_loop : ℕ → List ℕ → ℕ → Option CatchupError
unfolding decode_varint
validate_loop zero bytes entries = none
validate_loop (suc rounds) [] entries = none
validate_loop (suc rounds) (tag ∷ bytes) entries =
    if not (tag == 0x0a) then some unsupported_field else elim (decode_varint bytes) [
      | none ↦ some invalid_length
      | some (len, consumed) ↦
          let body = drop consumed bytes in
          if len == 0
          then some empty_entry
          else if ltb max_entries (entries + 1)
          then some too_many_entries
          else if ltb (length body) len
          then some exceeds_frame
          else validate_loop rounds (drop len body) (entries + 1)
    ]

unfoldable pub validate_catchup_encoding : List ℕ → Option CatchupError
unfolding validate_loop
validate_catchup_encoding encoded = validate_loop (length encoded) encoded 0

abbrev pub is_valid : Option CatchupError → Bool
is_valid none = true
is_valid (some e) = false

unfoldable pub accepts : List ℕ → Bool
unfolding validate_catchup_encoding
accepts encoded = is_valid (validate_catchup_encoding encoded)
