-- ===== src/LiveConnection.antt =====
-- crates/et-net/src/connection.rs and connection_pending.rs: packets go out over a live socket, on
-- Linux. What the system calls and the clock answer is given to each operation.
pub mod Blocking
pub mod Detached
pub mod Order
pub mod Runs
pub mod Accounts
pub mod Starting
pub mod Ending
pub mod Reached
pub mod Flushed
pub mod Writing
pub mod Reading
pub mod Receiving
pub mod Awaiting
use et_rs.Prelude.{
  leb, ◌==◌, if◌then◌else◌, length, Result, ok, err, ℕ, ◌+◌, Bool, true, false, ◌&&◌, Option, none,
  some, List, ◌++◌,
}
use et_rs.Crypto.{Sodium, EncryptError}
use et_rs.Writer.{WriterOutcome, skipped, buffered_only, send, BackedWriter, write_packet}
use et_rs.Reader.{keep_alive}
use et_rs.KeepAlive.{ack_payload_len}
use et_rs.FlowControl.{terminal_buffer_header}
use et_rs.OutputWindow.{OutputWindow, window, on_write}
use et_rs.Recovery.Calls.{IoError, ConnError, io, encrypt_error, backpressure}
use et_rs.PendingWrite.{
  InboundMark, PendingWrite, SendAnswer, defer_while_peer_talks, is_complete, advance,
}
use et_rs.Recovery.{Connection}
use et_rs.Writer
use et_rs.Recovery

-- The socket: the bytes that it has taken, and whether it is shut down.
pub record Transport : Type 0 where
  pub taken : List ℕ
  pub shut : Bool

pub record Live : Type 0 where
  pub connection : Connection
  pub transport : Transport

-- Where the frame is now owned: a refused packet is not in the replay history.
pub data WritePacketError : Type 0 where
  before_replay : ConnError → WritePacketError
  replay_owned : ConnError → WritePacketError

abbrev pub into_inner : WritePacketError → ConnError
into_inner (before_replay e) = e
into_inner (replay_owned e) = e

-- What the probe with `MSG_PEEK` answers: `gone` is one of the errors of a lost peer.
pub data Probe : Type 0 where
  end_of_stream : Probe
  has_bytes : Probe
  would_block : Probe
  gone : Probe
  probe_error : IoError → Probe

-- The answers for one write: the clock at each look, the bytes unread, and what send(2) does.
pub record Env : Type 0 where
  pub probe : Probe
  pub noted_at : ℕ
  pub pended_at : ℕ
  pub looked_at : ℕ
  pub unread_bytes : ℕ
  pub sent_at : ℕ
  pub kernel : List ℕ → SendAnswer

-- `Drop for PendingWrite`: a partial frame takes its transport with it.
unfoldable pub drop_pending : Option PendingWrite → Transport → Transport
drop_pending none t = t
drop_pending (some p) t = if is_complete p then t else record t { shut = true }

unfoldable pub disconnect : Live → Live
unfolding drop_pending
disconnect l = record {
  connection = Recovery.disconnect l.connection;
  transport = drop_pending l.connection.pending_live l.transport;
}

abbrev pub with_writer : Live → BackedWriter → Live
with_writer l w = record l { connection = record (l.connection) { writer = w } }

abbrev pub with_pending : Live → Option PendingWrite → Live
with_pending l p = record l { connection = record (l.connection) { pending_live = p } }

unfoldable pub probed : Live → Probe → Live × Result (Unit {0}) ConnError
unfolding disconnect
probed l end_of_stream = (with_writer l (Writer.invalidate l.connection.writer), ok tt)
probed l has_bytes = (l, ok tt)
probed l would_block = (l, ok tt)
probed l gone = (with_writer l (Writer.invalidate l.connection.writer), ok tt)
probed l (probe_error e) = (disconnect l, err (io e))

unfoldable pub refresh_connectivity : Live → Probe → Live × Result (Unit {0}) ConnError
unfolding probed
refresh_connectivity l probe = if l.connection.writer.connected then probed l probe else (l, ok tt)

abbrev pub is_skipped : WriterOutcome → Bool
is_skipped skipped = true
is_skipped _ = false

-- The arguments after the window: the outcome, the header, the payload's length, the writer's
-- sequence and the clock.
unfoldable pub note_output :
    Option OutputWindow → WriterOutcome → ℕ → ℕ → ℕ → ℕ → Option OutputWindow
note_output none outcome header payload_len sequence now = none
note_output (some window) outcome header payload_len sequence now =
    if is_skipped outcome
    then some window
    else some (
        on_write window sequence payload_len (header == terminal_buffer_header)
          (header == keep_alive && payload_len == ack_payload_len) now)

-- A frame for a live stream, with its time limit.
abbrev pub PreparedWrite : Type 0
PreparedWrite = Option (List ℕ × ℕ)

abbrev pub live_frame : Bool → List ℕ → ℕ → PreparedWrite
live_frame connected frame timeout = if connected then some (frame, timeout) else none

unfoldable pub prepared : Bool → ℕ → WriterOutcome → Result PreparedWrite WritePacketError
prepared connected timeout (send frame) = ok (live_frame connected frame timeout)
prepared connected timeout buffered_only = ok none
prepared connected timeout skipped = err (before_replay backpressure)

-- What the writer has made of the packet.
unfoldable pub written :
    Live
    → ℕ
    → ℕ
    → ℕ
    → BackedWriter × Result WriterOutcome EncryptError
    → Live × Result PreparedWrite WritePacketError
unfolding note_output prepared
written l header payload_len now (w, err e) =
    (with_writer l w, err (before_replay (encrypt_error e)))
written l header payload_len now (w, ok outcome) = (
  record l {
    connection = record (l.connection) {
      writer = w;
      output_window =
          note_output l.connection.output_window outcome header payload_len w.sequence now;
    };
  },
  prepared l.connection.writer.connected l.connection.live_write_timeout outcome,
)

-- The steps of the three `prepare_write_packet` functions behind their checks.
unfoldable pub write_output :
    Sodium → Live → ℕ → List ℕ → ℕ → Live × Result PreparedWrite WritePacketError
unfolding written
write_output s l header payload now =
    written l header (length payload) now (write_packet s l.connection.writer header payload)

abbrev pub is_some {ℓ} : {A : Type ℓ} → Option A → Bool
is_some none = false
is_some (some a) = true

unfoldable pub disconnect_on_error : Live × Result (Unit {0}) ConnError → Live
unfolding disconnect
disconnect_on_error (l, err e) = disconnect l
disconnect_on_error (l, ok done) = l

unfoldable pub prepare_write_packet_unprobed :
    Sodium → Live → Env → ℕ → List ℕ → Live × Result PreparedWrite WritePacketError
unfolding write_output
prepare_write_packet_unprobed s l env header payload =
    if is_some l.connection.pending_live
    then (l, err (before_replay backpressure))
    else write_output s l header payload env.noted_at

unfoldable pub prepare_write_packet :
    Sodium → Live → Env → ℕ → List ℕ → Live × Result PreparedWrite WritePacketError
unfolding write_output refresh_connectivity disconnect_on_error
prepare_write_packet s l env header payload =
    if is_some l.connection.pending_live
    then (l, err (before_replay backpressure))
    else write_output s (disconnect_on_error (refresh_connectivity l env.probe)) header payload
        env.noted_at

abbrev pub into_pending : PreparedWrite → ℕ → Option PendingWrite
into_pending none now = none
into_pending (some (frame, timeout)) now =
    some (record { frame = frame; offset = 0; deadline = now + timeout; heard = none })

-- An elapsed deadline moves while the peer talks: `peer_silence`, the frame, its new deadline.
unfoldable pub deferred : Option ℕ → Option PendingWrite → InboundMark → ℕ → ℕ → Option PendingWrite
deferred none pending inbound now timeout = pending
deferred (some silence) none inbound now timeout = none
deferred (some silence) (some p) inbound now timeout =
    if leb p.deadline now
    then some (defer_while_peer_talks p inbound now silence timeout)
    else some p

-- What a step of the frame comes to: the frame is given up, kept or done.
unfoldable pub advanced :
    Live → PendingWrite × Result Bool IoError × List ℕ → Live × Result Bool WritePacketError
unfolding disconnect
advanced l (p, result, bytes) =
    let t = record (l.transport) { taken = l.transport.taken ++ bytes } in
    elim result [
      | ok true ↦ (
        record {
          connection = record (l.connection) { pending_live = none };
          transport = drop_pending (some p) t;
        },
        ok true,
      )
      | ok false ↦ (
        record { connection = record (l.connection) { pending_live = some p }; transport = t },
        ok false,
      )
      | err e ↦ (
        disconnect (record {
          connection = record (l.connection) { pending_live = some p };
          transport = t;
        }),
        err (replay_owned (io e)),
      )
    ]

unfoldable pub advance_pending :
    Live → Option PendingWrite → Env → Live × Result Bool WritePacketError
unfolding advanced
advance_pending l none env = (with_pending l none, ok true)
advance_pending l (some p) env = advanced l (advance p env.sent_at env.kernel)

unfoldable pub advance_write : Live → Env → Live × Result Bool WritePacketError
unfolding deferred advance_pending
advance_write l env =
    let c = l.connection in
    advance_pending l
      (deferred c.peer_silence c.pending_live (c.reader.sequence, env.unread_bytes) env.looked_at
        c.live_write_timeout)
      env

abbrev pub forget {ℓ} : {A : Type ℓ} {E : Type 0} → Result A E → Result (Unit {0}) E
forget (ok a) = ok tt
forget (err e) = err e

-- The packet is admitted to replay, and its frame is tried once.
unfoldable pub start_prepared :
    Live × Result PreparedWrite WritePacketError → Env → Live × Result (Unit {0}) WritePacketError
unfolding advance_write
start_prepared (l, err e) env = (l, err e)
start_prepared (l, ok frame) env =
    let (l', result) = advance_write (with_pending l (into_pending frame env.pended_at)) env in
    (l', forget result)

unfoldable pub start_write_packet_owned :
    Sodium → Live → Env → ℕ → List ℕ → Live × Result (Unit {0}) WritePacketError
unfolding prepare_write_packet start_prepared
start_write_packet_owned s l env header payload =
    start_prepared (prepare_write_packet s l env header payload) env

unfoldable pub start_write_packet_owned_unprobed :
    Sodium → Live → Env → ℕ → List ℕ → Live × Result (Unit {0}) WritePacketError
unfolding prepare_write_packet_unprobed start_prepared
start_write_packet_owned_unprobed s l env header payload =
    start_prepared (prepare_write_packet_unprobed s l env header payload) env
