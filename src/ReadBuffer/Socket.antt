-- ===== src/ReadBuffer/Socket.antt =====
-- The sizes of socket reads in crates/et-core/src/backed_reader.rs.
use et_rs.Prelude.{
  ltb, Bool-cases, length, ℕ, ◌+◌, ◌-◌, ◌*◌, ◌/◌, ◌≤◌, ◌<◌, max, inl, inr, arith, dec_le,
}
use et_rs.ReadBuffer.{
  min_socket_read, BackedReader, pending, align, aligned_read_len, commit_socket_read,
}

align_bounds :
    (limit frame rest : ℕ)
    → 0 < limit
    → 4096 ≤ frame
    → (0 < align limit frame rest) × (align limit frame rest ≤ max limit rest)
unfolding align
align_bounds limit frame rest h big = elim (dec_le limit rest) [
  | yes over ↦ (ground arith, ground arith)
  | no under ↦
      let n : ℕ = (limit - rest) / frame in
      let whole : n * frame ≤ limit - rest = grind arith in
      let some_whole : 0 < n → 4096 ≤ n * frame = λ h. grind arith in
      (ground (arith, some_whole), ground (arith, whole))
]

-- A read asks for at least one byte, so that a read of no bytes means the end of the stream.
pub aligned_read_len_pos : (r : BackedReader) (limit : ℕ) → 0 < limit → 0 < aligned_read_len r limit
unfolding aligned_read_len
aligned_read_len_pos r limit h = elim (Bool-cases (ltb r.last_frame_len (min_socket_read / 4))) [
  | inl small ↦ rw small h
  | inr big ↦
      let large : 4096 ≤ r.last_frame_len = ground arith in
      ground (
        arith,
        align_bounds limit r.last_frame_len 0 h large,
        (λ (len : ℕ). align_bounds limit r.last_frame_len (4 + len - length (pending r)) h large),
      )
]

-- The adaptive size stays between the smallest read and the connection's cap, whatever is read.
pub commit_socket_read_hint :
    (r : BackedReader) (count : ℕ)
    → min_socket_read ≤ r.read_hint
    → r.read_hint ≤ r.read_cap
    → (min_socket_read ≤ (commit_socket_read r count).read_hint)
      × ((commit_socket_read r count).read_hint ≤ r.read_cap)
unfolding commit_socket_read
commit_socket_read_hint r count low high = (ground arith, ground arith)
