-- ===== src/Packet.antt =====
-- crates/et-core/src/packet.rs: packets on the wire, and the in-place codec of terminal buffers.
pub mod RoundTrip
pub mod Varint
pub mod Terminal
use et_rs.Prelude.{
  ltb, leb, ◌==◌, if◌then◌else◌, bool_eq, length, take, drop, replicate, Result, ok, err, ◌>>=◌, ℕ,
  zero, suc, ◌+◌, ◌-◌, ◌*◌, ◌/◌, ◌%◌, ◌^◌, bit_and, bit_or, Bool, true, false, ◌||◌, not, Option,
  none, some, List, [], ◌∷◌, ◌++◌,
}
use et_rs.Crypto.{Sodium, DecryptError, EncryptError, CryptoHandler, encrypt, decrypt}

abbrev pub header_len : ℕ
header_len = 2

pub record Packet : Type 0 where
  pub encrypted : Bool
  pub header : ℕ
  pub payload : List ℕ

pub data PacketError : Type 0 where
  short : PacketError

abbrev pub new : ℕ → List ℕ → Packet
new header payload = record { encrypted = false; header = header; payload = payload }

abbrev pub raw : Bool → ℕ → List ℕ → Packet
raw encrypted header payload = record { encrypted = encrypted; header = header; payload = payload }

unfoldable pub from_serialized : List ℕ → Result Packet PacketError
from_serialized [] = err short
from_serialized (flag ∷ []) = err short
from_serialized (flag ∷ header ∷ payload) = ok (raw (not (flag == 0)) header payload)

unfoldable pub wire_len : Packet → ℕ
wire_len p = header_len + length p.payload

unfoldable pub serialize : Packet → List ℕ
serialize p = (if p.encrypted then 1 else 0) ∷ p.header ∷ p.payload

-- The handler changes also where the packet does not.
unfoldable pub encrypt_packet :
    Sodium → Packet → CryptoHandler → CryptoHandler × Result Packet EncryptError
encrypt_packet s p crypto =
    let (crypto', sealed) = encrypt s crypto p.payload in
    (crypto', sealed >>= λ bytes. ok (record p { payload = bytes; encrypted = true }))

unfoldable pub decrypt_packet :
    Sodium → Packet → CryptoHandler → CryptoHandler × Result Packet DecryptError
decrypt_packet s p crypto =
    if p.encrypted
    then (let (crypto', plain) = decrypt s crypto p.payload in
        (crypto', plain >>= λ bytes. ok (record p { payload = bytes; encrypted = false })))
    else (crypto, ok p)

-- `while value >= 0x80`, over the ten bytes of `out`: `usize` has 64 bits and each round takes 7.
unfoldable pub varint_bytes : ℕ → ℕ → List ℕ
varint_bytes zero value = []
varint_bytes (suc room) value =
    let more = bit_or (value % 256) 0x80 ∷ varint_bytes room (value / 2 ^ 7) in
    if leb 0x80 value then more else value % 256 ∷ []

unfoldable pub encode_varint : ℕ → List ℕ
unfolding varint_bytes
encode_varint value = varint_bytes 10 value

-- The loop over the length: the value, and the bytes behind it. `checked_shl` refuses a shift of
-- 64 or more, and drops the bits that leave the word.
unfoldable pub decode_length : List ℕ → ℕ → ℕ → Option (ℕ × List ℕ)
decode_length [] shift len = none
decode_length (b ∷ rest) shift len =
    let len' = bit_or len (bit_and b 0x7f * 2 ^ shift % 2 ^ 64) in
    let again = if leb 35 (shift + 7) then none else decode_length rest (shift + 7) len' in
    if leb 64 shift then none else if bit_and b 0x80 == 0 then some (len', rest) else again

-- What may stand behind the buffer.
unfoldable pub stderr_suffix : List ℕ → Option Bool
stderr_suffix [] = some false
stderr_suffix (tag ∷ []) = none
stderr_suffix (tag ∷ value ∷ []) =
    if tag == 0x10
    then if value == 0 then some false else if value == 1 then some true else none
    else none
stderr_suffix (tag ∷ value ∷ x ∷ rest) = none

-- `idx.checked_add(len)?` and `payload.get(idx..end)?` both refuse a length past the end.
unfoldable pub split_buffer : ℕ → List ℕ → Option (List ℕ × Bool)
unfolding stderr_suffix
split_buffer len rest =
    if leb len (length rest)
    then elim (stderr_suffix (drop len rest)) [
      | none ↦ none
      | some is_stderr ↦ some (take len rest, is_stderr)
    ]
    else none

unfoldable pub decode_terminal_buffer : List ℕ → Option (List ℕ × Bool)
unfolding decode_length split_buffer
decode_terminal_buffer [] = none
decode_terminal_buffer (tag ∷ bytes) =
    if tag == 0x0a
    then elim (decode_length bytes 0 0) [ none ↦ none | some (len, rest) ↦ split_buffer len rest ]
    else none

abbrev pub stderr_field : Bool → List ℕ
stderr_field is_stderr = if is_stderr then 0x10 ∷ 0x01 ∷ [] else []

unfoldable pub encode_terminal_buffer : List ℕ → Bool → List ℕ
unfolding encode_varint
encode_terminal_buffer bytes is_stderr =
    0x0a ∷ (encode_varint (length bytes) ++ (bytes ++ stderr_field is_stderr))

-- `splice(1..1, ..)` opens a gap of zeros behind the tag where the new prefix is wider.
unfoldable pub widen : ℕ → ℕ → List ℕ → List ℕ
widen old_prefix new_prefix payload =
    if ltb old_prefix new_prefix
    then take 1 payload ++ (replicate (new_prefix - old_prefix) 0 ++ drop 1 payload)
    else payload

-- `payload[1..new_prefix].copy_from_slice(..)`.
unfoldable pub overwrite_length : ℕ → List ℕ → List ℕ → List ℕ
overwrite_length new_prefix varint payload = take 1 payload ++ (varint ++ drop new_prefix payload)

unfoldable pub append_terminal_buffer : Packet → List ℕ → Bool → ℕ → Packet × Bool
unfolding encode_varint widen overwrite_length
append_terminal_buffer p bytes is_stderr limit =
    if p.encrypted then (p, false) else elim (decode_terminal_buffer p.payload) [
      | none ↦ (p, false)
      | some (body, stderr) ↦
          let old_len = length body in
          let new_len = old_len + length bytes in
          if not (bool_eq stderr is_stderr) || ltb limit new_len
          then (p, false)
          else let old_prefix = 1 + length (encode_varint old_len) in
            let varint = encode_varint new_len in
            let new_prefix = 1 + length varint in
            let kept = take (old_prefix + old_len) p.payload in
            let prefixed = overwrite_length new_prefix varint (widen old_prefix new_prefix kept) in
            (record p { payload = prefixed ++ (bytes ++ stderr_field is_stderr) }, true)
    ]
