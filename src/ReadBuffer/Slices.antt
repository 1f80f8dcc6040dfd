-- ===== src/ReadBuffer/Slices.antt =====
-- The slices that crates/et-core/src/backed_reader.rs hands to the socket.
use et_rs.Prelude.{
  ltb, ◌==◌, if◌then◌else◌, Bool-cases, length, take, drop, ℕ, ◌+◌, ◌-◌, ◌*◌, ◌≤◌, ◌≡◌, refl, sym,
  ap, subst, ◌∙◌, inl, inr, Bool, true, ◌&&◌, List, [], ◌++◌, arith,
}
use et_rs.ReadBuffer.{
  min_socket_read, BackedReader, pending, prepare_read_slice, write_slice, aligned_read_len,
  prepare_socket_read, commit_socket_read,
}
use et_rs.ReadBuffer.Pending.{IsBuffer, prepare_read_slice-Keeps, write_slice_lem}

-- Only the buffer and the hints of reading change.
pub record SameStream (r r' : BackedReader) : Type 0 where
  pub crypto : r'.crypto ≡ r.crypto
  pub connected : r'.connected ≡ r.connected
  pub replay : r'.replay ≡ r.replay
  pub sequence : r'.sequence ≡ r.sequence

pub record IsReady (r r' : BackedReader) : Type 0 where
  pub buffer : IsBuffer r'
  pub same_bytes : pending r' ≡ pending r
  pub room : r'.filled + r'.read_requested ≤ length r'.partial
  pub same : SameStream r r'

prepare_read_slice_same :
    (r : BackedReader) (n : ℕ)
    → SameStream r (prepare_read_slice r n)
      × ((prepare_read_slice r n).read_requested ≡ r.read_requested)
unfolding prepare_read_slice
prepare_read_slice_same r n = ground arith

requested-IsReady :
    (r : BackedReader) (size : ℕ)
    → IsBuffer r
    → IsReady r (prepare_read_slice (record r { read_requested = size }) size)
unfolding pending
requested-IsReady r size b =
    let r' : BackedReader = record r { read_requested = size } in
    let keeps = prepare_read_slice-Keeps r' size (record { ordered = b.ordered; room = b.room }) in
    let same = prepare_read_slice_same r' size in
    record {
      buffer = (keeps.0).0;
      same_bytes = (keeps.0).1;
      room = omega (arith, keeps.1, same.1);
      same = record {
        crypto = same.0.crypto;
        connected = same.0.connected;
        replay = same.0.replay;
        sequence = same.0.sequence;
      };
    }

-- A buffer in which nothing waits may give its memory back.
abbrev emptied : BackedReader → BackedReader
emptied r = record r { partial = []; offset = 0; filled = 0 }

abbrev asked : BackedReader → BackedReader
asked r =
    prepare_read_slice (record r { read_requested = aligned_read_len r r.read_hint })
      (aligned_read_len r r.read_hint)

abbrev gives_back : BackedReader → ℕ → Bool
gives_back r capacity =
    (r.offset == r.filled && r.read_hint == min_socket_read) && ltb (4 * min_socket_read) capacity

emptied-IsReady :
    (r : BackedReader) (capacity : ℕ)
    → gives_back r capacity ≡ true
    → IsBuffer r
    → IsReady r (asked (emptied r))
unfolding pending
emptied-IsReady r capacity h b =
    let nothing : r.filled - r.offset ≡ 0 = ground arith in
    let one =
      requested-IsReady (emptied r) (aligned_read_len (emptied r) r.read_hint)
        (record { ordered = omega arith; room = omega arith }) in
    record {
      buffer = one.buffer;
      same_bytes = one.same_bytes ∙ ap (λ n. take n (drop r.offset r.partial)) (sym nothing);
      room = one.room;
      same = record {
        crypto = one.same.crypto;
        connected = one.same.connected;
        replay = one.same.replay;
        sequence = one.same.sequence;
      };
    }

-- Handing a slice to the socket keeps the pending bytes and has room for what is asked for.
pub prepare_socket_read-IsReady :
    (r : BackedReader) (capacity : ℕ) → IsBuffer r → IsReady r (prepare_socket_read r capacity)
unfolding prepare_socket_read
prepare_socket_read-IsReady r capacity b = elim (Bool-cases (gives_back r capacity)) [
  | inl gives ↦
      subst (λ x. IsReady r (asked (if x then emptied r else r))) (sym gives)
        (emptied-IsReady r capacity gives b)
  | inr keeps ↦
      subst (λ x. IsReady r (asked (if x then emptied r else r))) (sym keeps)
        (requested-IsReady r (aligned_read_len r r.read_hint) b)
]

-- What the socket has written into the slice is pending then.
pub commit_socket_read_lem :
    (r : BackedReader) (bytes : List ℕ)
    → IsBuffer r
    → r.filled + length bytes ≤ length r.partial
    → IsBuffer (commit_socket_read (write_slice r bytes) (length bytes))
      × (pending (commit_socket_read (write_slice r bytes) (length bytes)) ≡ pending r ++ bytes)
      × SameStream r (commit_socket_read (write_slice r bytes) (length bytes))
unfolding commit_socket_read pending
commit_socket_read_lem r bytes b room =
    let stored = write_slice_lem r bytes b room in
    (
      record { ordered = stored.0.ordered; room = stored.0.room },
      stored.1,
      unfold write_slice in
          record { crypto = refl; connected = refl; replay = refl; sequence = refl },
    )
