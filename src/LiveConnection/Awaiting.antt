-- ===== src/LiveConnection/Awaiting.antt =====
-- crates/et-net/src/connection.rs: the reads that wait for a packet, `read_packet` and
-- `read_packet_until`. That the socket's timeouts can be set is taken for granted.
use et_rs.Prelude.{
  leb, if◌then◌else◌, Result, ok, err, ℕ, ◌≡◌, refl, sym, ap, subst, ◌∙◌, Bool, true, false, Option,
  none, some, List, [], ◌∷◌, ◌++◌, append_assoc, arith,
}
use et_rs.Crypto.{Sodium, IsSodium}
use et_rs.Packet.{Packet}
use et_rs.ReadBuffer.{BackedReader, pending, prepare_read_slice, write_slice, commit_read, feed}
use et_rs.ReadBuffer.Pending.{pending-feed}
use et_rs.Reader.{pop}
use et_rs.Delivery.{InStep}
use et_rs.Delivery.Stream.{feed_keeps}
use et_rs.Writer.History.{Sent}
use et_rs.Recovery.Calls.{IoError, timed_out, unexpected_eof, ConnError, io}
use et_rs.LiveConnection.{Live}
use et_rs.LiveConnection.Reading.{
  RecvAnswer, received, no_bytes, closed, recv_error, ReadStep, or_popped, with_bytes, end_read,
}
use et_rs.LiveConnection.Receiving.{Attends, IsNext, or_popped-IsNext, pop-IsPopped}

-- A look at the clock, and what the read that follows gives: here `no_bytes` is EINTR only.
pub record ReadRound : Type 0 where
  pub now : ℕ
  pub answer : RecvAnswer

-- Without a packet and without an error the call still waits.
abbrev pub is_past : Option ℕ → ℕ → Bool
is_past none now = false
is_past (some deadline) now = leb deadline now

abbrev pub after_read : BackedReader → RecvAnswer → (BackedReader → ReadStep) → ReadStep
after_read r (received bytes) next = with_bytes bytes (next (feed r bytes))
after_read r no_bytes next = next r
after_read r closed next = (r, err (io unexpected_eof), [])
after_read r (recv_error e) next = (r, err (io e), [])

unfoldable pub await_loop : Sodium → Option ℕ → List ReadRound → BackedReader → ReadStep
await_loop s deadline [] r = or_popped (pop s r) (λ r'. (r', ok none, []))
await_loop s deadline (round ∷ rounds) r = or_popped (pop s r) (λ r'.
    let rest = after_read r' round.answer (λ r''. await_loop s deadline rounds r'') in
    if is_past deadline round.now then (r', err (io timed_out), []) else rest)

unfoldable pub read_packet :
    Sodium → Live → List ReadRound → Live × Result (Option Packet) ConnError × List ℕ
unfolding await_loop end_read
read_packet s l rounds = end_read l (await_loop s none rounds l.connection.reader)

unfoldable pub read_packet_until :
    Sodium → Live → ℕ → List ReadRound → Live × Result (Option Packet) ConnError × List ℕ
unfolding await_loop end_read
read_packet_until s l deadline rounds =
    end_read l (await_loop s (some deadline) rounds l.connection.reader)

feed_replay : (r : BackedReader) (bytes : List ℕ) → (feed r bytes).replay ≡ r.replay
unfolding feed commit_read write_slice prepare_read_slice
feed_replay r bytes = ground arith

abbrev AnyError : IoError → Type 0
AnyError x = Unit

module _ (s : Sodium) (key first : List ℕ) where
  feed-Attends :
      (n : ℕ) (ps : List Sent) (bytes future : List ℕ) (r : BackedReader)
      → Attends s key first n ps (bytes ++ future) r
      → Attends s key first n ps future (feed r bytes)
  feed-Attends n ps bytes future r a =
      let fed = pending-feed r bytes a.buffer in
      let kept = feed_keeps r bytes in
      record {
        buffer = fed.0;
        on = kept.1 ∙ a.on;
        no_replay = feed_replay r bytes ∙ a.no_replay;
        in_step = subst (InStep key first n) (sym kept.0) a.in_step;
        waits = ap (λ b. b ++ future) fed.1 ∙ append_assoc (pending r) bytes future ∙ a.waits;
        fits = a.fits;
      }

  after_read-IsNext :
      (n : ℕ) (ps : List Sent) (future : List ℕ) (r : BackedReader) (answer : RecvAnswer)
      (next : BackedReader → ReadStep)
      → Attends s key first n ps ((after_read r answer next).2 ++ future) r
      → ((r' : BackedReader)
          → Attends s key first n ps ((next r').2 ++ future) r'
          → IsNext s key first AnyError n ps future (next r').0 (next r').1)
      → IsNext s key first AnyError n ps future
          (after_read r answer next).0
          (after_read r answer next).1
  after_read-IsNext n ps future r (received bytes) next a k = k (feed r bytes) (
      feed-Attends n ps bytes ((next (feed r bytes)).2 ++ future) r (
        subst (λ b. Attends s key first n ps b r)
          (append_assoc bytes (next (feed r bytes)).2 future) a))
  after_read-IsNext n ps future r no_bytes next a k = k r a
  after_read-IsNext n ps future r closed next a k = (unexpected_eof, refl, tt)
  after_read-IsNext n ps future r (recv_error e) next a k = (e, refl, tt)

  timed-IsNext :
      (n : ℕ) (ps : List Sent) (future : List ℕ) (r : BackedReader) (late : Bool) (rest : ReadStep)
      → Attends s key first n ps
          ((if late then (r, err (io timed_out), []) else rest).2 ++ future)
          r
      → (Attends s key first n ps (rest.2 ++ future) r
          → IsNext s key first AnyError n ps future rest.0 rest.1)
      → IsNext s key first AnyError n ps future
          (if late then (r, err (io timed_out), []) else rest).0
          (if late then (r, err (io timed_out), []) else rest).1
  timed-IsNext n ps future r true rest a k = (timed_out, refl, tt)
  timed-IsNext n ps future r false rest a k = k a

  -- A read that waits gives the next packet of the peer's stream, however the socket hands it over.
  pub await_loop-IsNext :
      (n : ℕ) (ps : List Sent) (future : List ℕ) (deadline : Option ℕ) (rounds : List ReadRound)
      (r : BackedReader)
      → IsSodium s
      → Attends s key first n ps ((await_loop s deadline rounds r).2 ++ future) r
      → IsNext s key first AnyError n ps future
          (await_loop s deadline rounds r).0
          (await_loop s deadline rounds r).1
  unfolding await_loop
  await_loop-IsNext n ps future deadline [] r laws a =
      or_popped-IsNext s key first AnyError n ps future r (pop s r) (λ r'. (r', ok none, []))
        (pop-IsPopped s key first AnyError n ps ((await_loop s deadline [] r).2 ++ future) r laws a)
        a (λ b w. (b, w))
  await_loop-IsNext n ps future deadline (round ∷ rounds) r laws a =
      let rest : BackedReader → ReadStep =
        λ r'. after_read r' round.answer (λ r''. await_loop s deadline rounds r'') in
      let next : BackedReader → ReadStep =
        λ r'. if is_past deadline round.now then (r', err (io timed_out), []) else rest r' in
      or_popped-IsNext s key first AnyError n ps future r (pop s r) next
        (pop-IsPopped s key first AnyError n ps
          ((await_loop s deadline (round ∷ rounds) r).2 ++ future) r laws a)
        a
        (λ b w. timed-IsNext n ps future r (is_past deadline round.now) (rest r) b (λ c.
          after_read-IsNext n ps future r round.answer (λ r''. await_loop s deadline rounds r'') c
            (λ r'' d. await_loop-IsNext n ps future deadline rounds r'' laws d)))
