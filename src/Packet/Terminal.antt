-- ===== src/Packet/Terminal.antt =====
-- The terminal buffers of crates/et-core/src/packet.rs: the hand-written codec, and growing a
-- packet in place.
use et_rs.Prelude.{
  leb, if◌then◌else◌, bool_eq, length, take, drop, replicate, length-append, length-replicate,
  take-append_exact, drop-append_exact, ℕ, suc, ◌+◌, ◌-◌, ◌^◌, ◌≤◌, ◌<◌, ◌≡◌, refl, sym, ap, ◌∙◌,
  Bool, true, false, ◌&&◌, some, List, ◌∷◌, ◌++◌, append_assoc, arith, dec_lt,
}
use et_rs.Packet.{
  new, encode_varint, decode_terminal_buffer, stderr_field, encode_terminal_buffer, widen,
  overwrite_length, append_terminal_buffer,
}
use et_rs.Packet.Varint.{decode_length-encode_varint, length-encode_varint_mono}

-- An encoded buffer shorter than 2 ^ 35 bytes decodes to its bytes and its stream.
pub decode_terminal_buffer-encode_terminal_buffer :
    (bytes : List ℕ) (is_stderr : Bool)
    → length bytes < 2 ^ 35
    → decode_terminal_buffer (encode_terminal_buffer bytes is_stderr) ≡ some (bytes, is_stderr)
unfolding decode_terminal_buffer encode_terminal_buffer
decode_terminal_buffer-encode_terminal_buffer bytes is_stderr h =
    rw (decode_length-encode_varint (length bytes) (bytes ++ stderr_field is_stderr) h) (
      ground (
        arith,
        length-append bytes (stderr_field is_stderr),
        take-append_exact (length bytes) bytes (stderr_field is_stderr) refl,
        drop-append_exact (length bytes) bytes (stderr_field is_stderr) refl,
      ))

-- The prefix is widened and overwritten; the body stays.
relabel :
    (older newer body : List ℕ)
    → length older ≤ length newer
    → overwrite_length
        (1 + length newer)
        newer
        (widen (1 + length older) (1 + length newer) (0x0a ∷ (older ++ body)))
      ≡ 0x0a ∷ (newer ++ body)
unfolding overwrite_length widen
relabel older newer body h =
    let one : 1 + length newer ≡ suc (length newer) = omega arith in
    elim (dec_lt (length older) (length newer)) [
      | yes wider ↦
          let gap : List ℕ = replicate (1 + length newer - (1 + length older)) 0 in
          let size : length (gap ++ older) ≡ length newer = omega (
            arith,
            length-append gap older,
            length-replicate {A = ℕ} (1 + length newer - (1 + length older)) 0,
          ) in
          let shape : gap ++ (older ++ body) ≡ (gap ++ older) ++ body =
            sym (append_assoc gap older body) in
          let cut : drop (length newer) (gap ++ (older ++ body)) ≡ body =
            rw shape (drop-append_exact (length newer) (gap ++ older) body size) in
          let dropped : drop (1 + length newer) (0x0a ∷ (gap ++ (older ++ body))) ≡ body =
            ap (λ k. drop k (0x0a ∷ (gap ++ (older ++ body)))) one ∙ cut in
          ground (arith, dropped)
      | no same ↦
          let dropped : drop (1 + length newer) (0x0a ∷ (older ++ body)) ≡ body =
            rw one (drop-append_exact (length newer) older body (omega arith)) in
          ground (arith, dropped)
    ]

-- What is left of an encoded buffer when its stream's suffix is cut off.
take-encode_terminal_buffer :
    (body : List ℕ) (stream : Bool)
    → take
        (1 + length (encode_varint (length body)) + length body)
        (encode_terminal_buffer body stream)
      ≡ 0x0a ∷ (encode_varint (length body) ++ body)
unfolding encode_terminal_buffer
take-encode_terminal_buffer body stream =
    let prefix : List ℕ = encode_varint (length body) in
    let one : 1 + length prefix + length body ≡ suc (length prefix + length body) = omega arith in
    let shape : prefix ++ (body ++ stderr_field stream) ≡ (prefix ++ body) ++ stderr_field stream =
      sym (append_assoc prefix body (stderr_field stream)) in
    rw (one, shape)
      (ap (◌∷◌ 0x0a) (
        take-append_exact (length prefix + length body) (prefix ++ body) (stderr_field stream)
          (length-append prefix body)))

encode_terminal_buffer-append :
    (body bytes : List ℕ) (is_stderr : Bool)
    → (0x0a ∷ (encode_varint (length body + length bytes) ++ body))
        ++ (bytes ++ stderr_field is_stderr)
      ≡ encode_terminal_buffer (body ++ bytes) is_stderr
unfolding encode_terminal_buffer
encode_terminal_buffer-append body bytes is_stderr =
    rw (length-append body bytes) (simp append_assoc)

-- Appending to the packet of an encoded buffer of the same stream gives the packet of the longer
-- buffer exactly when that fits the limit; otherwise, and for the other stream, the packet is
-- left alone.
pub append_terminal_buffer-encode_terminal_buffer :
    (header : ℕ) (body bytes : List ℕ) (stream is_stderr : Bool) (limit : ℕ)
    → length body + length bytes < 2 ^ 35
    → append_terminal_buffer (new header (encode_terminal_buffer body stream)) bytes is_stderr limit
      ≡ (if bool_eq stream is_stderr && leb (length body + length bytes) limit
          then (new header (encode_terminal_buffer (body ++ bytes) is_stderr), true)
          else (new header (encode_terminal_buffer body stream), false))
unfolding append_terminal_buffer
append_terminal_buffer-encode_terminal_buffer header body bytes stream is_stderr limit h =
    rw
      (
        decode_terminal_buffer-encode_terminal_buffer body stream (omega arith),
        take-encode_terminal_buffer body stream,
        relabel (encode_varint (length body)) (encode_varint (length body + length bytes)) body
            (length-encode_varint_mono (length body) (length body + length bytes) (omega arith)),
      )
      (ground (arith, encode_terminal_buffer-append body bytes is_stderr))
