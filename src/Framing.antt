-- ===== src/Framing.antt =====
-- crates/et-core/src/framing.rs: the length prefixes of handshake messages (a little-endian `i64`)
-- and of encrypted stream packets (a big-endian `u32`). A byte string is a list of numbers below 256.
pub mod RoundTrip
use et_rs.Prelude.{
  ltb, if◌then◌else◌, length, take, Result, ok, err, pos, negsuc, le_bytes, from_le, be_bytes,
  from_be, to_i64, ℕ, ◌*◌, ◌%◌, ◌^◌, List, ◌++◌,
}

abbrev pub max_proto_len : ℕ
max_proto_len = 128 * 1024 * 1024

pub data FrameError : Type 0 where
  short negative too_large too_small : FrameError

-- `payload.len() as i64` is not negative: a slice has at most `isize::MAX` bytes.
unfoldable pub frame_native_i64 : List ℕ → List ℕ
frame_native_i64 payload = le_bytes 8 (length payload % 2 ^ 64) ++ payload

unfoldable pub parse_native_i64_len : List ℕ → Result ℕ FrameError
parse_native_i64_len buf =
    if ltb (length buf) 8 then err short else elim (to_i64 (from_le (take 8 buf))) [
      | negsuc n ↦ err negative
      | pos n ↦ if ltb max_proto_len n then err too_large else ok n
    ]

-- `as u32` keeps the low 32 bits of the length.
unfoldable pub frame_be_u32 : List ℕ → List ℕ
frame_be_u32 payload = be_bytes 4 (length payload % 2 ^ 32) ++ payload

unfoldable pub parse_be_u32_len : List ℕ → Result ℕ FrameError
parse_be_u32_len buf =
    if ltb (length buf) 4
    then err short
    else let len = from_be (take 4 buf) in if ltb max_proto_len len then err too_large else ok len
