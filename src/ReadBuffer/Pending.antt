-- ===== src/ReadBuffer/Pending.antt =====
-- The buffer of crates/et-core/src/backed_reader.rs as a queue: the bytes between `offset` and
-- `filled`.
use et_rs.Prelude.{
  ◌==◌, length, take, drop, replicate, length-append, length-take, length-drop, length-replicate,
  take-append_exact, drop-drop, take-append_le, drop-append_le, drop-take, take_both, ℕ, suc, ◌+◌,
  ◌-◌, ◌≤◌, ◌≡◌, refl, sym, ap, ◌∙◌, false, List, [], ◌∷◌, ◌++◌, append-nil, arith,
}
use et_rs.ReadBuffer.{
  BackedReader, pending, compact, rewind, grow, prepare_read_slice, write_slice, commit_read, feed,
}

pub record IsBuffer (r : BackedReader) : Type 0 where
  pub ordered : r.offset ≤ r.filled
  pub room : r.filled ≤ length r.partial

pub length-pending : (r : BackedReader) → IsBuffer r → length (pending r) ≡ r.filled - r.offset
unfolding pending
length-pending r b = omega (
  arith,
  length-take (r.filled - r.offset) (drop r.offset r.partial),
  length-drop r.offset r.partial,
  b.ordered,
  b.room,
)

-- A step that keeps the pending bytes and the well-formedness.
abbrev Keeps : BackedReader → BackedReader → Type 0
Keeps r r' = IsBuffer r' × (pending r' ≡ pending r)

compact-Keeps : (r : BackedReader) → IsBuffer r → Keeps r (compact r)
unfolding compact
compact-Keeps r b =
    let size = length-pending r b in
    (
      record {
        ordered = omega arith;
        room =
            omega (arith, length-append (pending r) (drop (r.filled - r.offset) r.partial), size);
      },
      unfold pending in
          (let none_off : r.filled - r.offset - 0 ≡ r.filled - r.offset = omega arith in
            rw none_off (
              take-append_exact (r.filled - r.offset) (pending r)
                (drop (r.filled - r.offset) r.partial) (unfold pending in size))),
    )

empty-Keeps :
    (r : BackedReader)
    → IsBuffer r
    → r.offset ≡ r.filled
    → Keeps r (record r { offset = 0; filled = 0 })
unfolding pending
empty-Keeps r b e =
    let none_left : r.filled - r.offset ≡ 0 = omega arith in
    (record { ordered = omega arith; room = omega arith }, rw none_left)

rewind-Keeps : (r : BackedReader) (n : ℕ) → IsBuffer r → Keeps r (rewind r n)
unfolding rewind
rewind-Keeps r n b = ground (arith, compact-Keeps r b, empty-Keeps r b)

grown-Keeps :
    (r : BackedReader) (zeros : List ℕ)
    → IsBuffer r
    → Keeps r (record r { partial = r.partial ++ zeros })
unfolding pending
grown-Keeps r zeros b =
    let size : length (drop r.offset r.partial) ≡ length r.partial - r.offset =
      length-drop r.offset r.partial in
    (
      record { ordered = b.ordered; room = omega (arith, length-append r.partial zeros, b.room) },
      rw (drop-append_le r.offset r.partial zeros (omega (arith, b.ordered, b.room))) (
          take-append_le (r.filled - r.offset) (drop r.offset r.partial) zeros
            (omega (arith, b.room))),
    )

grow-Keeps :
    (r : BackedReader) (n : ℕ)
    → IsBuffer r
    → Keeps r (grow r n)
      × (r.filled + n ≤ length (grow r n).partial)
      × ((grow r n).filled ≡ r.filled)
unfolding grow
grow-Keeps r n b =
    let zeros : List ℕ = replicate (r.filled + n - length r.partial) 0 in
    let size : length (r.partial ++ zeros) ≡ length r.partial + (r.filled + n - length r.partial) =
      length-append r.partial zeros
      ∙ ap (λ k. length r.partial + k) (length-replicate (r.filled + n - length r.partial) 0) in
    ground (arith, grown-Keeps r zeros b, size)

-- Handing out a slice moves no pending byte, and there is room for it behind them.
pub prepare_read_slice-Keeps :
    (r : BackedReader) (n : ℕ)
    → IsBuffer r
    → Keeps r (prepare_read_slice r n)
      × ((prepare_read_slice r n).filled + n ≤ length (prepare_read_slice r n).partial)
unfolding prepare_read_slice
prepare_read_slice-Keeps r n b =
    let moved = rewind-Keeps r n b in
    let grown = grow-Keeps (rewind r n) n moved.0 in
    (((grown.0).0, (grown.0).1 ∙ moved.1), omega (arith, grown.1, grown.2))

pub write_slice_lem :
    (r : BackedReader) (bytes : List ℕ)
    → IsBuffer r
    → r.filled + length bytes ≤ length r.partial
    → IsBuffer (commit_read (write_slice r bytes) (length bytes))
      × (pending (commit_read (write_slice r bytes) (length bytes)) ≡ pending r ++ bytes)
unfolding commit_read write_slice pending
write_slice_lem r bytes b room =
    let tail : List ℕ = drop (r.filled + length bytes) r.partial in
    let head : length (take r.filled r.partial) ≡ r.filled =
      omega (arith, length-take r.filled r.partial, b.room) in
    let cut : drop r.offset (take r.filled r.partial ++ (bytes ++ tail))
        ≡ take (r.filled - r.offset) (drop r.offset r.partial) ++ (bytes ++ tail) =
      drop-append_le r.offset (take r.filled r.partial) (bytes ++ tail) (omega (arith, b.ordered))
      ∙ ap (λ xs. xs ++ (bytes ++ tail)) (drop-take r.offset r.filled r.partial) in
    let count : r.filled + length bytes - r.offset ≡ r.filled - r.offset + length bytes =
      omega (arith, b.ordered) in
    (
      record {
        ordered = omega (arith, b.ordered);
        room = omega (
          arith,
          length-append (take r.filled r.partial) (bytes ++ tail),
          length-append bytes tail,
          head,
        );
      },
      rw (cut, count)
          (take_both (take (r.filled - r.offset) (drop r.offset r.partial)) bytes tail
            (r.filled - r.offset) (length bytes) (unfold pending in length-pending r b) refl),
    )

-- Feeding bytes appends them to the pending ones, whatever the buffer held before and however it
-- is compacted or grown for them.
pub pending-feed :
    (r : BackedReader) (bytes : List ℕ)
    → IsBuffer r
    → IsBuffer (feed r bytes) × (pending (feed r bytes) ≡ pending r ++ bytes)
unfolding feed
pending-feed r [] b = (b, sym (append-nil (pending r)))
pending-feed r (x ∷ xs) b =
    let ready = prepare_read_slice-Keeps r (length (x ∷ xs)) b in
    let written =
      write_slice_lem (prepare_read_slice r (length (x ∷ xs))) (x ∷ xs) (ready.0).0 ready.1 in
    let some_bytes : (suc (length xs) == 0) ≡ false = ground arith in
    rw some_bytes (written.0, written.1 ∙ ap (λ p. p ++ (x ∷ xs)) (ready.0).1)

-- What lies at a distance from the front of the pending bytes.
pub drop-pending :
    (r : BackedReader) (n : ℕ)
    → drop n (pending r) ≡ take (r.filled - r.offset - n) (drop (r.offset + n) r.partial)
unfolding pending
drop-pending r n =
    drop-take n (r.filled - r.offset) (drop r.offset r.partial)
    ∙ ap (take (r.filled - r.offset - n)) (drop-drop n r.offset r.partial)
