-- ===== src/Reader/Pieces.antt =====
-- Popping off the buffer of crates/et-core/src/backed_reader.rs while a frame has only partly arrived.
use et_rs.Prelude.{
  ltb, Bool-cases, length, take, drop, length-append, take-append-drop, take-append_exact,
  drop-append_exact, take-append_le, drop-append_le, ok, ℕ, ◌+◌, ◌≤◌, ◌<◌, ◌≡◌, refl, sym, ap, ◌∙◌,
  inl, inr, true, false, List, [], ◌++◌, arith,
}
use et_rs.Framing.{max_proto_len, frame_be_u32, parse_be_u32_len}
use et_rs.Framing.RoundTrip.{parse_be_u32_len-frame_be_u32}
use et_rs.Crypto.{Sodium}
use et_rs.Packet.{header_len}
use et_rs.ReadBuffer.{BackedReader, pending}
use et_rs.Reader.{need_more, pop_live, pop_replay, pop}

-- Two ways to cut the same list.
pub longer_cut {ℓ} :
    {A : Type ℓ} (xs ys zs ws : List A)
    → xs ++ ys ≡ zs ++ ws
    → length zs ≤ length xs
    → (xs ≡ zs ++ drop (length zs) xs) × (drop (length zs) xs ++ ys ≡ ws)
longer_cut xs ys zs ws e h =
    let front : take (length zs) xs ≡ zs =
      sym (take-append_le (length zs) xs ys h)
      ∙ ap (take (length zs)) e
      ∙ take-append_exact (length zs) zs ws refl in
    (
      sym (take-append-drop (length zs) xs) ∙ ap (λ f. f ++ drop (length zs) xs) front,
      sym (drop-append_le (length zs) xs ys h)
          ∙ ap (drop (length zs)) e
          ∙ drop-append_exact (length zs) zs ws refl,
    )

parse_be_u32_len-append :
    (xs ys : List ℕ) → 4 ≤ length xs → parse_be_u32_len (xs ++ ys) ≡ parse_be_u32_len xs
unfolding parse_be_u32_len
parse_be_u32_len-append xs ys h =
    let long : ltb (length xs) 4 ≡ false = ground arith in
    let longer : ltb (length (xs ++ ys)) 4 ≡ false = ground (arith, length-append xs ys) in
    rw (long, longer, take-append_le 4 xs ys h) refl

-- While only a part of the frame of `body` has arrived, nothing is popped.
pub pop_live-part :
    (s : Sodium) (r : BackedReader) (body rest future : List ℕ)
    → r.connected ≡ true
    → pending r ++ future ≡ frame_be_u32 body ++ rest
    → length body ≤ max_proto_len
    → header_len ≤ length body
    → length (pending r) < 4 + length body
    → pop_live s r ≡ (r, ok need_more)
unfolding pop_live
pop_live-part s r body rest future on e fits long part =
    elim (Bool-cases (ltb (length (pending r)) 4)) [
      | inl tiny ↦ ground arith
      | inr prefixed ↦
          let parsed : parse_be_u32_len (pending r) ≡ ok (length body) =
            sym (parse_be_u32_len-append (pending r) future (ground arith))
            ∙ ap parse_be_u32_len e
            ∙ (parse_be_u32_len-frame_be_u32 body rest fits).0 in
          ground (arith, parsed)
    ]

pub pop-pop_live :
    (s : Sodium) (r : BackedReader) → r.connected ≡ true → r.replay ≡ [] → pop s r ≡ pop_live s r
unfolding pop pop_replay
pop-pop_live s r on empty = ground arith
