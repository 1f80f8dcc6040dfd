-- ===== src/LiveConnection/Detached.antt =====
-- crates/et-net/src/connection.rs and connection_pending.rs: frames that are written while the
-- connection is not locked. Its owner reserves a frame, seals it, commits it, and sends it.
use et_rs.Prelude.{
  if◌then◌else◌, get_elem?, Result, ok, err, ℕ, ◌-◌, ◌≡◌, ap, Bool, true, Option, none, some, List,
}
use et_rs.Crypto.{mac_len, Sodium}
use et_rs.Backup.{Frame}
use et_rs.Writer.{
  WriterOutcome, skipped, buffered_only, send, ReservedWrite, BackedWriter, reserve_write,
  commit_write,
}
use et_rs.Recovery.Calls.{IoError, io, backpressure}
use et_rs.PendingWrite.{PendingWrite}
use et_rs.LiveConnection.{
  Live, WritePacketError, before_replay, Env, with_writer, with_pending, refresh_connectivity,
  note_output, PreparedWrite, live_frame, write_output, is_some, disconnect_on_error,
}

-- `self.prefix[5]`.
abbrev pub reserved_header : ReservedWrite → ℕ
reserved_header r = elim (get_elem? r.prefix 5) [ none ↦ 0 | some header ↦ header ]

abbrev pub reserved_payload_len : ReservedWrite → ℕ
reserved_payload_len r = r.packet_wire_len - 2 - mac_len

unfoldable pub reserved_or_full :
    Live → BackedWriter × Option ReservedWrite → Live × Result ReservedWrite WritePacketError
reserved_or_full l (w, none) = (with_writer l w, err (before_replay backpressure))
reserved_or_full l (w, some r) = (with_writer l w, ok r)

unfoldable pub reserve_write_packet : Live → ℕ → ℕ → Live × Result ReservedWrite WritePacketError
unfolding reserved_or_full
reserve_write_packet l header payload_len =
    if is_some l.connection.pending_live
    then (l, err (before_replay backpressure))
    else reserved_or_full l (reserve_write l.connection.writer header payload_len)

unfoldable pub committed_frame : Bool → ℕ → WriterOutcome → PreparedWrite
committed_frame connected timeout (send frame) = live_frame connected frame timeout
committed_frame connected timeout buffered_only = none
committed_frame connected timeout skipped = none

unfoldable pub commit_write_packet : Live → ReservedWrite → Frame → ℕ → Live × PreparedWrite
unfolding committed_frame note_output
commit_write_packet l r frame now =
    let (w, outcome) = commit_write l.connection.writer r frame in
    (
      record l {
        connection = record (l.connection) {
          writer = w;
          output_window =
              note_output l.connection.output_window outcome (reserved_header r)
                (reserved_payload_len r) w.sequence now;
        };
      },
      committed_frame l.connection.writer.connected l.connection.live_write_timeout outcome,
    )

-- The frame that waits is taken out, to be finished by the caller.
unfoldable pub finish_pending_live_detached : Live → Live × Option PendingWrite
finish_pending_live_detached l = (with_pending l none, l.connection.pending_live)

-- `prepare_write_packet_with`, behind its checks: `clone` is the error of cloning the socket.
unfoldable pub cloned_or_failed :
    Sodium → Live → Env → ℕ → List ℕ → Option IoError → Live × Result PreparedWrite WritePacketError
unfolding write_output
cloned_or_failed s l env header payload none = write_output s l header payload env.noted_at
cloned_or_failed s l env header payload (some e) =
    if l.connection.writer.connected
    then (l, err (before_replay (io e)))
    else write_output s l header payload env.noted_at

unfoldable pub prepare_write_packet_with :
    Sodium → Live → Env → ℕ → List ℕ → Option IoError → Live × Result PreparedWrite WritePacketError
unfolding cloned_or_failed refresh_connectivity disconnect_on_error
prepare_write_packet_with s l env header payload clone =
    if is_some l.connection.pending_live
    then (l, err (before_replay backpressure))
    else cloned_or_failed s (disconnect_on_error (refresh_connectivity l env.probe)) env header
        payload clone

-- A failed clone moves neither the counter nor the sequence, so the packet can be tried again.
pub cloned_or_failed_unchanged :
    (s : Sodium) (l : Live) (env : Env) (header : ℕ) (payload : List ℕ) (e : IoError)
    → l.connection.writer.connected ≡ true
    → cloned_or_failed s l env header payload (some e) ≡ (l, err (before_replay (io e)))
unfolding cloned_or_failed
cloned_or_failed_unchanged s l env header payload e on =
    ap
      (λ b.
        if b then (l, err (before_replay (io e))) else write_output s l header payload env.noted_at)
      on
