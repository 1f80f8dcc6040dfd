-- ===== src/Recovery/Handshake.antt =====
-- What the two ends of a broken connection say to each other on a new socket: `exchange_recovery` of
-- crates/et-net/src/connection_recovery.rs.
use et_rs.Prelude.{
  leb, ◌==◌, if◌then◌else◌, bytes_eq, length, Result, ok, err, ℤ, pos, negsuc, ℕ, Bool, true, false,
  ◌&&◌, ◌||◌, not, Option, none, some, List, [],
}
use et_rs.Writer.{RecoverError, BackedWriter}
use et_rs.ReadBuffer.{BackedReader}
use et_rs.Recovery.Calls.{
  invalid_data, io, recover_error, sequence_out_of_range, invalid_recovery_sequence, Dialog, finish,
  max_handshake_proto_len, max_recovery_proto_len, i32_max, try_call, write_limited, received,
  read_limited,
}
use et_rs.Recovery.Catchup.{accepts}
use et_rs.Writer

pub record SequenceHeader : Type 0 where
  pub sequence_number : Option ℤ
  pub reset : Option Bool
  pub reset_salt : Option (List ℕ)

-- What prost generates for the two messages.
pub record Codec : Type 0 where
  pub header_bytes : SequenceHeader → List ℕ
  pub header_of : List ℕ → Option SequenceHeader
  pub catchup_bytes : List (List ℕ) → List ℕ
  pub catchup_of : List ℕ → Option (List (List ℕ))

pub record RecoveryExchange : Type 0 where
  pub read_peer_catchup_first : Bool
  pub reset_salt : Option (List ℕ)

-- `RecoveryExchange::client` and `RecoveryExchange::default`.
abbrev pub client_exchange : Option (List ℕ) → RecoveryExchange
client_exchange reset_salt = record { read_peer_catchup_first = true; reset_salt = reset_salt }

abbrev pub default_exchange : RecoveryExchange
default_exchange = record { read_peer_catchup_first = false; reset_salt = none }

abbrev pub asks_reset : Option Bool → Bool
asks_reset none = false
asks_reset (some reset) = reset

abbrev pub carries_salt : Option (List ℕ) → Bool
carries_salt none = false
carries_salt (some salt) = not (length salt == 0)

abbrev pub is_salt : Option (List ℕ) → List ℕ → Bool
is_salt none salt = false
is_salt (some theirs) salt = bytes_eq theirs salt

module _ {A : Type 0} where
  -- A frame of catchups that is checked before prost decodes it.
  unfoldable pub decoded : (List (List ℕ) → Dialog A) → Option (List (List ℕ)) → Dialog A
  decoded next none = finish (err (io invalid_data))
  decoded next (some catchup) = next catchup

  unfoldable pub decode_catchup : Codec → (List (List ℕ) → Dialog A) → List ℕ → Dialog A
  unfolding decoded
  decode_catchup codec next encoded =
      if accepts encoded
      then decoded next (codec.catchup_of encoded)
      else finish (err (io invalid_data))

  -- The client reads the peer's catchup before it writes its own.
  unfoldable pub swap_catchups : Bool → List ℕ → (List ℕ → Dialog A) → Dialog A
  unfolding write_limited received
  swap_catchups true ours next =
      read_limited max_recovery_proto_len
        (λ theirs. write_limited ours max_recovery_proto_len (next theirs))
  swap_catchups false ours next =
      write_limited ours max_recovery_proto_len (read_limited max_recovery_proto_len next)

  unfoldable pub send_recovered :
      Codec → Bool → (List (List ℕ) → Dialog A) → Result (List (List ℕ)) RecoverError → Dialog A
  unfolding swap_catchups decode_catchup
  send_recovered codec first next (err e) = finish (err (recover_error e))
  send_recovered codec first next (ok catchup) =
      swap_catchups first (codec.catchup_bytes catchup) (decode_catchup codec next)

  -- Without a reset the catchup is built before either side sends one.
  unfoldable pub serve_catchup :
      Codec → BackedWriter → Bool → Option ℤ → (List (List ℕ) → Dialog A) → Dialog A
  unfolding send_recovered
  serve_catchup codec w first (some (pos sequence)) next =
      send_recovered codec first next (Writer.recover w (pos sequence))
  serve_catchup codec w first (some (negsuc n)) next =
      finish (err (invalid_recovery_sequence (some (negsuc n))))
  serve_catchup codec w first none next = finish (err (invalid_recovery_sequence none))

  -- After a reset both sides send an empty catchup.
  unfoldable pub reset_catchup : Codec → (List (List ℕ) → Dialog A) → List ℕ → Dialog A
  unfolding decode_catchup
  reset_catchup codec next encoded =
      if length encoded == 0 then next [] else decode_catchup codec next encoded

  unfoldable pub exchange_catchups :
      Codec
      → BackedWriter
      → Bool
      → Option (List ℕ)
      → (List (List ℕ) → Dialog A)
      → SequenceHeader
      → Dialog A
  unfolding swap_catchups reset_catchup serve_catchup
  exchange_catchups codec w first (some salt) next remote =
      if asks_reset remote.reset && is_salt remote.reset_salt salt
      then swap_catchups first (codec.catchup_bytes []) (reset_catchup codec next)
      else finish (err (io invalid_data))
  exchange_catchups codec w first none next remote =
      if asks_reset remote.reset || carries_salt remote.reset_salt
      then finish (err (io invalid_data))
      else serve_catchup codec w first remote.sequence_number next

  unfoldable pub with_header : (SequenceHeader → Dialog A) → Option SequenceHeader → Dialog A
  with_header next none = finish (err (io invalid_data))
  with_header next (some remote) = next remote

  unfoldable pub read_header : Codec → (SequenceHeader → Dialog A) → Dialog A
  unfolding received with_header
  read_header codec next =
      read_limited max_handshake_proto_len (λ frame. with_header next (codec.header_of frame))

abbrev pub is_resetting : Option (List ℕ) → Bool
is_resetting none = false
is_resetting (some salt) = true

abbrev pub local_sequence : RecoveryExchange → BackedReader → ℕ
local_sequence x r = if is_resetting x.reset_salt then 0 else r.sequence

unfoldable pub local_header : ℕ → Option (List ℕ) → SequenceHeader
local_header sequence reset_salt = record {
  sequence_number = some (pos sequence);
  reset = if is_resetting reset_salt then some true else none;
  reset_salt = reset_salt;
}

-- The rest of the dialogue is `next`, which gets the peer's catchup.
unfoldable pub exchange_recovery :
    {A : Type 0}
    → Codec
    → BackedWriter
    → BackedReader
    → RecoveryExchange
    → (List (List ℕ) → Dialog A)
    → Dialog A
unfolding write_limited read_header exchange_catchups
exchange_recovery codec w r x next =
    if leb (local_sequence x r) i32_max
    then try_call (
        write_limited (codec.header_bytes (local_header (local_sequence x r) x.reset_salt))
          max_handshake_proto_len
          (read_header codec
            (exchange_catchups codec w x.read_peer_catchup_first x.reset_salt next)))
    else finish (err (sequence_out_of_range (local_sequence x r)))
