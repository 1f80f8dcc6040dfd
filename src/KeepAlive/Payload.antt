-- ===== src/KeepAlive/Payload.antt =====
-- The acknowledgement payload of crates/et-core/src/keepalive.rs.
use et_rs.Prelude.{
  length, All, ℤ, pos, negsuc, IsByte, be_bytes, from_be, to_i64, length-be_bytes, from_be-be_bytes,
  be_bytes-from_be, ℕ, ◌%◌, ◌^◌, ◌<◌, ◌≡◌, sym, ap, ◌∙◌, some, List, arith,
}
use et_rs.KeepAlive.{encode_ack, decode_ack}

-- A sequence number survives the payload, and a negative one arrives as 0.
pub decode_ack-encode_ack :
    (n : ℕ)
    → n < 2 ^ 63
    → (decode_ack (encode_ack (pos n)) ≡ some (pos n))
      × (decode_ack (encode_ack (negsuc n)) ≡ some (pos 0))
unfolding decode_ack encode_ack to_i64
decode_ack-encode_ack n h =
    let same : n % 2 ^ 64 ≡ n = omega arith in
    let value : from_be (be_bytes 8 n) ≡ n = from_be-be_bytes 8 n (omega arith) in
    let zero_value : from_be (be_bytes 8 0) ≡ 0 = from_be-be_bytes 8 0 (omega arith) in
    (
      rw same (ground (arith, value, length-be_bytes 8 n)),
      ground (arith, zero_value, length-be_bytes 8 0),
    )

-- Only encodings of sequence numbers decode: a payload of any other length, the empty payload of
-- a legacy peer included, and a negative value are ignored.
pub encode_ack-decode_ack :
    (payload : List ℕ) (v : ℤ)
    → All IsByte payload
    → decode_ack payload ≡ some v
    → encode_ack v ≡ payload
unfolding decode_ack to_i64
encode_ack-decode_ack payload v bytes h =
    let size : length payload ≡ 8 = ground arith in
    let small : from_be payload < 2 ^ 63 = ground arith in
    let value : v ≡ pos (from_be payload) = ground arith in
    let same : from_be payload % 2 ^ 64 ≡ from_be payload = omega arith in
    rw value (
      unfold encode_ack in
      (ap (be_bytes 8) same
        ∙ ap (λ k. be_bytes k (from_be payload)) (sym size)
        ∙ be_bytes-from_be payload bytes))
