-- ===== src/LiveConnection/Reading.antt =====
-- crates/et-net/src/connection_nonblocking.rs (`try_read`) and the reads of connection.rs. Each call
-- of recv(2) is given, with the capacity that the allocator has given the buffer by then.
use et_rs.Prelude.{
  length, Result, ok, err, ℕ, ◌≤◌, ◌<◌, ◌≡◌, Option, none, some, List, [], ◌∷◌, ◌++◌,
}
use et_rs.Crypto.{Sodium}
use et_rs.Packet.{Packet}
use et_rs.ReadBuffer.{BackedReader, write_slice, prepare_socket_read, commit_socket_read}
use et_rs.Reader.{ReadItem, packet, need_more, ReadError, pop}
use et_rs.Recovery.Calls.{IoError, unexpected_eof, ConnError, io, read_error}
use et_rs.LiveConnection.{Live, disconnect}
use et_rs.Reader

-- `no_bytes` is EAGAIN or EINTR, and `closed` the end of the stream.
pub data RecvAnswer : Type 0 where
  received : List ℕ → RecvAnswer
  no_bytes : RecvAnswer
  closed : RecvAnswer
  recv_error : IoError → RecvAnswer

-- recv(2), by the size of the buffer.
pub record RecvCall : Type 0 where
  pub capacity : ℕ
  pub kernel : ℕ → RecvAnswer

-- It writes at most what the buffer holds, and no bytes only at the end of the stream.
abbrev pub IsRecv : (ℕ → RecvAnswer) → Type 0
IsRecv kernel =
    (size : ℕ) (bytes : List ℕ)
    → kernel size ≡ received bytes
    → (length bytes ≤ size) × (0 < length bytes)

-- The reader, the result, and the bytes that were received.
abbrev pub ReadStep : Type 0
ReadStep = BackedReader × Result (Option Packet) ConnError × List ℕ

abbrev pub or_popped :
    BackedReader × Result ReadItem ReadError → (BackedReader → ReadStep) → ReadStep
or_popped (r, err e) next = (r, err (read_error e), [])
or_popped (r, ok (packet p)) next = (r, ok (some p), [])
or_popped (r, ok need_more) next = next r

abbrev pub with_bytes : List ℕ → ReadStep → ReadStep
with_bytes bytes (r, result, more) = (r, result, bytes ++ more)

abbrev pub after_recv : BackedReader → RecvAnswer → (BackedReader → ReadStep) → ReadStep
after_recv r (received bytes) next =
    with_bytes bytes (next (commit_socket_read (write_slice r bytes) (length bytes)))
after_recv r no_bytes next = (r, ok none, [])
after_recv r closed next = (r, err (io unexpected_eof), [])
after_recv r (recv_error e) next = (r, err (io e), [])

unfoldable pub try_read_loop : Sodium → List RecvCall → BackedReader → ReadStep
try_read_loop s [] r = or_popped (pop s r) (λ r'. (r', ok none, []))
try_read_loop s (recv ∷ calls) r = or_popped (pop s r) (λ r1.
    let r2 = prepare_socket_read r1 recv.capacity in
    after_recv r2 (recv.kernel r2.read_requested) (λ r3. try_read_loop s calls r3))

-- `for _ in 0..4`, and a last `pop`.
unfoldable pub try_read :
    Sodium → RecvCall → RecvCall → RecvCall → RecvCall → BackedReader → ReadStep
unfolding try_read_loop
try_read s one two three four r = try_read_loop s (one ∷ two ∷ three ∷ four ∷ []) r

-- `Connection::try_read_packet`: an error disconnects both halves.
unfoldable pub end_read : Live → ReadStep → Live × Result (Option Packet) ConnError × List ℕ
unfolding disconnect
end_read l (r, ok item, bytes) =
    (record l { connection = record (l.connection) { reader = r } }, ok item, bytes)
end_read l (r, err e, bytes) =
    (disconnect (record l { connection = record (l.connection) { reader = r } }), err e, bytes)

unfoldable pub try_read_packet :
    Sodium
    → Live
    → RecvCall
    → RecvCall
    → RecvCall
    → RecvCall
    → Live × Result (Option Packet) ConnError × List ℕ
unfolding try_read end_read
try_read_packet s l one two three four =
    end_read l (try_read s one two three four l.connection.reader)

unfoldable pub invalidate_on_error : ReadStep → ReadStep
invalidate_on_error (r, ok item, bytes) = (r, ok item, bytes)
invalidate_on_error (r, err e, bytes) = (Reader.invalidate r, err e, bytes)

-- `ConnectionReader::try_read_packet`: an error invalidates the shared reader only.
unfoldable pub reader_try_read_packet :
    Sodium → BackedReader → RecvCall → RecvCall → RecvCall → RecvCall → ReadStep
unfolding try_read invalidate_on_error
reader_try_read_packet s r one two three four =
    invalidate_on_error (try_read s one two three four r)
