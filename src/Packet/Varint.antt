-- ===== src/Packet/Varint.antt =====
-- The varint of crates/et-core/src/packet.rs and the loop that reads it back.
use native.Mathlib.Nat.{pow-suc, pow-le-pow_right}
use native.Mathlib.Numerals.{towards_suc}
use et_rs.Prelude.{
  ◌==◌, length, holds_below, holds_below_lem, bit_or_fields, ℕ, zero, suc, ◌+◌, ◌*◌, ◌/◌, ◌%◌, ◌^◌,
  ◌≤◌, ◌<◌, bit_and, bit_or, ◌≡◌, refl, ap, true, ◌&&◌, some, List, ◌++◌, arith, dec_lt,
}
use et_rs.Packet.{varint_bytes, encode_varint, decode_length}

-- Bytes, checked one by one.
continuation_table :
    holds_below
      (λ b.
        (bit_or b 0x80 == b % 128 + 128)
        && (bit_and (b % 128 + 128) 0x7f == b % 128)
        && (bit_and (b % 128 + 128) 0x80 == 128))
      256
    ≡ true
unfolding holds_below
continuation_table = refl

last_table : holds_below (λ b. (bit_and b 0x7f == b) && (bit_and b 0x80 == 0)) 128 ≡ true
unfolding holds_below
last_table = refl

pub continuation_byte :
    (b : ℕ)
    → b < 256
    → (bit_or b 0x80 ≡ b % 128 + 128)
      × (bit_and (b % 128 + 128) 0x7f ≡ b % 128)
      × (bit_and (b % 128 + 128) 0x80 ≡ 128)
continuation_byte b h =
    let found =
      holds_below_lem
        (λ b.
          (bit_or b 0x80 == b % 128 + 128)
          && (bit_and (b % 128 + 128) 0x7f == b % 128)
          && (bit_and (b % 128 + 128) 0x80 == 128))
        256 b h continuation_table in
    (ground arith, ground arith, ground arith)

pub last_byte : (b : ℕ) → b < 128 → (bit_and b 0x7f ≡ b) × (bit_and b 0x80 ≡ 0)
last_byte b h =
    let found =
      holds_below_lem (λ b. (bit_and b 0x7f == b) && (bit_and b 0x80 == 0)) 128 b h last_table in
    (ground arith, ground arith)

-- A group of seven bits lands above the bits that are there already.
pub add_group :
    (shift acc group : ℕ)
    → shift ≤ 28
    → acc < 2 ^ shift
    → group < 128
    → (bit_or acc (group * 2 ^ shift % 2 ^ 64) ≡ acc + group * 2 ^ shift)
      × (acc + group * 2 ^ shift < 2 ^ (shift + 7))
add_group shift acc group low fits small =
    let bound : 2 ^ shift ≤ 2 ^ 28 = pow-le-pow_right (omega arith) low in
    let wide : 2 ^ (shift + 7) ≡ 128 * 2 ^ shift = simp towards_suc (omega arith) in
    let word : group * 2 ^ shift < 2 ^ 64 = grind arith in
    let same : group * 2 ^ shift % 2 ^ 64 ≡ group * 2 ^ shift = omega arith in
    (rw same (bit_or_fields shift acc group fits), grind arith)

-- `k` groups are left, and `room` bytes.
decode_length-varint_bytes :
    (k room shift acc v : ℕ) (rest : List ℕ)
    → shift + 7 * k ≡ 35
    → k ≤ room
    → v < 128 ^ k
    → acc < 2 ^ shift
    → 0 < k
    → decode_length (varint_bytes room v ++ rest) shift acc ≡ some (acc + v * 2 ^ shift, rest)
unfolding decode_length varint_bytes
decode_length-varint_bytes zero room shift acc v rest e r b f p = absurd (omega arith)
decode_length-varint_bytes (suc k) zero shift acc v rest e r b f p = absurd (omega arith)
decode_length-varint_bytes (suc zero) (suc room) shift acc v rest e r b f p =
    let small : v < 128 = omega arith in
    let same : v % 256 ≡ v = omega arith in
    ground (arith, last_byte v small, add_group shift acc v (omega arith) f small)
decode_length-varint_bytes (suc (suc k)) (suc room) shift acc v rest e r b f p =
    let again : decode_length (varint_bytes room (v / 2 ^ 7) ++ rest) (shift + 7)
          (acc + v % 128 * 2 ^ shift)
        ≡ some (acc + v % 128 * 2 ^ shift + v / 2 ^ 7 * 2 ^ (shift + 7), rest) =
      decode_length-varint_bytes (suc k) room (shift + 7) (acc + v % 128 * 2 ^ shift) (v / 2 ^ 7)
        rest (omega arith) (omega arith) (omega (arith, pow-suc 128 (suc k)))
        (add_group shift acc (v % 128) (omega arith) f (omega arith)).1 (omega arith) in
    let wide : 2 ^ (shift + 7) ≡ 128 * 2 ^ shift = simp towards_suc (omega arith) in
    let total : acc + v % 128 * 2 ^ shift + v / 2 ^ 7 * 2 ^ (shift + 7) ≡ acc + v * 2 ^ shift =
      let parts : v ≡ v / 128 * 128 + v % 128 = omega arith in
      rw wide (omega (arith, ap (λ (t : ℕ). t * 2 ^ shift) parts)) in
    elim (dec_lt v 128) [
      | yes small ↦
          let same : v % 256 ≡ v = omega arith in
          ground (arith, last_byte v small, add_group shift acc v (omega arith) f small)
      | no large ↦
          let low : v % 256 % 128 ≡ v % 128 = omega arith in
          ground (
            arith,
            continuation_byte (v % 256) (omega arith),
            add_group shift acc (v % 128) (omega arith) f (omega arith),
          )
    ]

-- A length below 2 ^ 35 is read back from its varint, whatever follows.
pub decode_length-encode_varint :
    (v : ℕ) (rest : List ℕ)
    → v < 2 ^ 35
    → decode_length (encode_varint v ++ rest) 0 0 ≡ some (v, rest)
unfolding encode_varint
decode_length-encode_varint v rest h =
    let read : decode_length (varint_bytes 10 v ++ rest) 0 0 ≡ some (0 + v * 2 ^ 0, rest) =
      decode_length-varint_bytes 5 10 0 0 v rest refl (omega arith) (omega arith) (omega arith)
        (omega arith) in
    let same : 0 + v * 2 ^ 0 ≡ v = omega arith in rw same at read

-- A longer number takes no fewer bytes.
length-varint_bytes_mono :
    (room v w : ℕ) → v ≤ w → length (varint_bytes room v) ≤ length (varint_bytes room w)
unfolding varint_bytes
length-varint_bytes_mono zero v w h = omega arith
length-varint_bytes_mono (suc room) v w h =
    ground (arith, length-varint_bytes_mono room (v / 2 ^ 7) (w / 2 ^ 7) (omega arith))

pub length-encode_varint_mono :
    (v w : ℕ) → v ≤ w → length (encode_varint v) ≤ length (encode_varint w)
unfolding encode_varint
length-encode_varint_mono v w h = length-varint_bytes_mono 10 v w h
