-- ===== src/Reader/Pop.antt =====
-- Popping live packets off the buffer of crates/et-core/src/backed_reader.rs.
use et_rs.Prelude.{
  ◌==◌, Bool-cases, length, take, drop, length-append, length-take, take-append_exact,
  drop-append_exact, take-take, drop-drop, nil_of_length, ok, be_bytes, length-be_bytes, ℕ, ◌+◌,
  ◌-◌, ◌%◌, ◌^◌, ◌≤◌, ◌≡◌, refl, sym, ap, ◌∙◌, inl, inr, true, List, [], ◌∷◌, ◌++◌, arith,
}
use et_rs.Framing.{max_proto_len, frame_be_u32, parse_be_u32_len}
use et_rs.Framing.RoundTrip.{parse_be_u32_len-frame_be_u32}
use et_rs.Crypto.{Sodium, CryptoHandler}
use et_rs.Packet.{Packet}
use et_rs.ReadBuffer.{BackedReader, pending}
use et_rs.ReadBuffer.Pending.{IsBuffer, length-pending, drop-pending}
use et_rs.Reader.{
  keep_alive, packet, decode_packet, note_data, take_frame, deliver, decode_frame, pop_live,
}

-- The body of the frame at the front of the pending bytes.
body_bytes :
    (r : BackedReader) (body rest : List ℕ)
    → IsBuffer r
    → pending r ≡ frame_be_u32 body ++ rest
    → length body ≤ max_proto_len
    → take (length body) (drop (r.offset + 4) r.partial) ≡ body
body_bytes r body rest b e fits =
    let tail : drop 4 (pending r) ≡ body ++ rest =
      ap (drop 4) e ∙ (parse_be_u32_len-frame_be_u32 body rest fits).1 in
    let inner : take (r.filled - r.offset - 4) (drop (r.offset + 4) r.partial) ≡ body ++ rest =
      sym (drop-pending r 4) ∙ tail in
    let size : length (body ++ rest) ≡ length body + length rest = length-append body rest in
    let enough : length body ≤ r.filled - r.offset - 4 = omega (
      arith,
      size,
      ap length inner,
      length-take (r.filled - r.offset - 4) (drop (r.offset + 4) r.partial),
    ) in
    sym (take-take (length body) (r.filled - r.offset - 4) (drop (r.offset + 4) r.partial) enough)
    ∙ ap (take (length body)) inner
    ∙ take-append_exact (length body) body rest refl

pub length-frame :
    (body rest : List ℕ) → length (frame_be_u32 body ++ rest) ≡ 4 + length body + length rest
unfolding frame_be_u32
length-frame body rest = omega (
  arith,
  length-append (be_bytes 4 (length body % 2 ^ 32) ++ body) rest,
  length-append (be_bytes 4 (length body % 2 ^ 32)) body,
  length-be_bytes 4 (length body % 2 ^ 32),
)

-- Taking the frame off leaves the bytes behind it.
take_frame_lem :
    (r : BackedReader) (body rest : List ℕ) (crypto : CryptoHandler)
    → IsBuffer r
    → pending r ≡ frame_be_u32 body ++ rest
    → length body ≤ max_proto_len
    → IsBuffer (take_frame r (length body) crypto)
      × (pending (take_frame r (length body) crypto) ≡ rest)
unfolding take_frame
take_frame_lem r body rest crypto b e fits =
    let total : r.filled - r.offset ≡ 4 + length body + length rest =
      sym (length-pending r b) ∙ ap length e ∙ length-frame body rest in
    let behind : drop (length body) (drop 4 (pending r)) ≡ rest =
      ap (drop (length body)) (ap (drop 4) e ∙ (parse_be_u32_len-frame_be_u32 body rest fits).1)
      ∙ drop-append_exact (length body) body rest refl in
    elim (Bool-cases (r.offset + 4 + length body == r.filled)) [
      | inl drained ↦
          let nothing : rest ≡ [] = nil_of_length rest (ground arith) in
          rw drained
            (record { ordered = omega arith; room = omega arith }, unfold pending in rw nothing)
      | inr more ↦
          let left : r.filled - (r.offset + 4 + length body)
              ≡ r.filled - r.offset - (4 + length body) =
            omega arith in
          let place : r.offset + 4 + length body ≡ r.offset + (4 + length body) = omega arith in
          let within : r.offset + 4 + length body ≤ r.filled = omega (arith, b.ordered) in
          rw more (
            record { ordered = within; room = b.room },
            unfold pending in
                (rw (left, place)
                  (sym (drop-pending r (4 + length body))
                    ∙ sym (drop-drop (length body) 4 (pending r))
                    ∙ behind)),
          )
    ]

decoded_long :
    (s : Sodium) (crypto crypto' : CryptoHandler) (body : List ℕ) (p : Packet)
    → decode_packet s crypto body ≡ (crypto', ok p)
    → 2 ≤ length body
unfolding decode_packet
decoded_long s crypto crypto' [] p h = absurd (ground arith)
decoded_long s crypto crypto' (flag ∷ []) p h = absurd (ground arith)
decoded_long s crypto crypto' (flag ∷ header ∷ ciphertext) p h = omega arith

-- The reader after a packet: `sequence` counts it, and `data_sequence` only if it is no keep-alive.
abbrev counted : BackedReader → Packet → BackedReader
counted r p = note_data (record r { sequence = r.sequence + 1 }) p

counted_lem :
    (r : BackedReader) (p : Packet)
    → IsBuffer r
    → IsBuffer (counted r p)
      × (pending (counted r p) ≡ pending r)
      × ((counted r p).crypto ≡ r.crypto)
      × ((counted r p).sequence ≡ r.sequence + 1)
      × ((counted r p).connected ≡ r.connected)
      × ((counted r p).replay ≡ r.replay)
unfolding note_data pending
counted_lem r p b = elim (Bool-cases (p.header == keep_alive)) [
  | inl alive ↦
      rw alive (record { ordered = b.ordered; room = b.room }, refl, refl, refl, refl, refl)
  | inr data_packet ↦
      rw data_packet (record { ordered = b.ordered; room = b.room }, refl, refl, refl, refl, refl)
]

decode_frame_lem :
    (s : Sodium) (r : BackedReader) (len : ℕ) (crypto : CryptoHandler) (p : Packet)
    → decode_packet s r.crypto (take len (drop (r.offset + 4) r.partial)) ≡ (crypto, ok p)
    → decode_frame s r len ≡ (counted (take_frame r len crypto) p, ok (packet p))
unfolding decode_frame deliver
decode_frame_lem s r len crypto p h = ap (deliver r len) h

-- When the frame of `body` stands at the front of the bytes that are pending at a connected
-- reader, and its body decodes to the packet `p`, that packet is popped: the frame leaves the
-- buffer, the bytes behind it stay, and the handler and the sequence move on.
pub pop_live-frame :
    (s : Sodium) (r : BackedReader) (body rest : List ℕ) (crypto : CryptoHandler) (p : Packet)
    → IsBuffer r
    → r.connected ≡ true
    → pending r ≡ frame_be_u32 body ++ rest
    → length body ≤ max_proto_len
    → decode_packet s r.crypto body ≡ (crypto, ok p)
    → (r' : BackedReader) × (pop_live s r ≡ (r', ok (packet p)))
      × IsBuffer r'
      × (pending r' ≡ rest)
      × (r'.crypto ≡ crypto)
      × (r'.sequence ≡ r.sequence + 1)
      × (r'.connected ≡ true)
      × (r'.replay ≡ r.replay)
pop_live-frame s r body rest crypto p b on e fits decoded =
    let taken : BackedReader = take_frame r (length body) crypto in
    let after = take_frame_lem r body rest crypto b e fits in
    let done = counted_lem taken p after.0 in
    (
      counted taken p,
      pop_live_runs,
      done.0,
      done.1 ∙ after.1,
      done.2 ∙ unfold take_frame in refl,
      done.3 ∙ unfold take_frame in refl,
      done.4 ∙ unfold take_frame in on,
      done.5 ∙ unfold take_frame in refl,
    )
  where
    parsed : parse_be_u32_len (pending r) ≡ ok (length body)
    parsed = ap parse_be_u32_len e ∙ (parse_be_u32_len-frame_be_u32 body rest fits).0

    size : length (pending r) ≡ 4 + length body + length rest
    size = ap length e ∙ length-frame body rest

    framed :
        decode_frame s r (length body)
        ≡ (counted (take_frame r (length body) crypto) p, ok (packet p))
    framed =
        decode_frame_lem s r (length body) crypto p
          (ap (decode_packet s r.crypto) (body_bytes r body rest b e fits) ∙ decoded)

    pop_live_runs : pop_live s r ≡ (counted (take_frame r (length body) crypto) p, ok (packet p))
    pop_live_runs =
        unfold pop_live in
        ground (arith, parsed, size, framed, decoded_long s r.crypto crypto body p decoded)
