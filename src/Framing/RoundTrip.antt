-- ===== src/Framing/RoundTrip.antt =====
-- Both framings of crates/et-core/src/framing.rs, written and read.
use et_rs.Prelude.{
  length, drop, length-append, take-append_exact, drop-append_exact, ok, le_bytes, from_le,
  be_bytes, from_be, to_i64, length-le_bytes, length-be_bytes, from_le-le_bytes, from_be-be_bytes,
  ℕ, ◌+◌, ◌%◌, ◌^◌, ◌≤◌, ◌≡◌, ap, ◌∙◌, List, ◌++◌, append_assoc, arith,
}
use et_rs.Framing.{
  max_proto_len, frame_native_i64, parse_native_i64_len, frame_be_u32, parse_be_u32_len,
}

-- A framed message of at most 128 MiB, with anything behind it, parses to the length of the
-- message, and the message starts right behind the eight bytes of the prefix.
pub parse_native_i64_len-frame_native_i64 :
    (payload rest : List ℕ)
    → length payload ≤ max_proto_len
    → (parse_native_i64_len (frame_native_i64 payload ++ rest) ≡ ok (length payload))
      × (drop 8 (frame_native_i64 payload ++ rest) ≡ payload ++ rest)
unfolding frame_native_i64 parse_native_i64_len to_i64
parse_native_i64_len-frame_native_i64 payload rest fits =
    let prefix : List ℕ = le_bytes 8 (length payload % 2 ^ 64) in
    let width : length prefix ≡ 8 = length-le_bytes 8 (length payload % 2 ^ 64) in
    let shape : (prefix ++ payload) ++ rest ≡ prefix ++ (payload ++ rest) =
      append_assoc prefix payload rest in
    let size : length payload % 2 ^ 64 ≡ length payload = omega arith in
    let value : from_le prefix ≡ length payload =
      from_le-le_bytes 8 (length payload % 2 ^ 64) (omega arith) ∙ size in
    let room : length (prefix ++ (payload ++ rest)) ≡ 8 + length (payload ++ rest) =
      length-append prefix (payload ++ rest) ∙ ap (λ k. k + length (payload ++ rest)) width in
    (
      rw (shape, take-append_exact 8 prefix (payload ++ rest) width, value) (ground (arith, room)),
      rw shape (drop-append_exact 8 prefix (payload ++ rest) width),
    )

-- A framed packet of at most 128 MiB, with anything behind it, parses to the length of the packet,
-- and the packet starts right behind the four bytes of the prefix.
pub parse_be_u32_len-frame_be_u32 :
    (payload rest : List ℕ)
    → length payload ≤ max_proto_len
    → (parse_be_u32_len (frame_be_u32 payload ++ rest) ≡ ok (length payload))
      × (drop 4 (frame_be_u32 payload ++ rest) ≡ payload ++ rest)
unfolding frame_be_u32 parse_be_u32_len
parse_be_u32_len-frame_be_u32 payload rest fits =
    let prefix : List ℕ = be_bytes 4 (length payload % 2 ^ 32) in
    let width : length prefix ≡ 4 = length-be_bytes 4 (length payload % 2 ^ 32) in
    let shape : (prefix ++ payload) ++ rest ≡ prefix ++ (payload ++ rest) =
      append_assoc prefix payload rest in
    let size : length payload % 2 ^ 32 ≡ length payload = omega arith in
    let value : from_be prefix ≡ length payload =
      from_be-be_bytes 4 (length payload % 2 ^ 32) (omega arith) ∙ size in
    let room : length (prefix ++ (payload ++ rest)) ≡ 4 + length (payload ++ rest) =
      length-append prefix (payload ++ rest) ∙ ap (λ k. k + length (payload ++ rest)) width in
    (
      rw (shape, take-append_exact 4 prefix (payload ++ rest) width, value) (ground (arith, room)),
      rw shape (drop-append_exact 4 prefix (payload ++ rest) width),
    )
