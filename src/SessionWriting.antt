-- ===== src/SessionWriting.antt =====
-- crates/et-server/src/session_flow_write.rs and the writes of session.rs: a session's output worker
-- holds the lock `write_serial` for a whole packet, and the connection's own lock only to reserve
-- and to commit. In between, and while the frame is sent, readers use the connection.
pub mod Phases
pub mod Sections
pub mod Nonblocking
pub mod Interleaved
use et_rs.Prelude.{if◌then◌else◌, length, Result, ok, err, ℕ, Bool, Option, none, some, List, ◌++◌}
use et_rs.Crypto.{Sodium}
use et_rs.Writer.{ReservedWrite, encrypt_reserved}
use et_rs.Writer.History.{Sent}
use et_rs.Recovery.Calls.{IoError, ConnError, io}
use et_rs.PendingWrite.{PendingWrite, advance, Round, stops}
use et_rs.LiveConnection.{
  Live, WritePacketError, before_replay, replay_owned, drop_pending, disconnect, into_pending,
}
use et_rs.LiveConnection.Detached.{
  reserve_write_packet, commit_write_packet, finish_pending_live_detached,
}

-- What the holder of `write_serial` has in hand between two of its sections.
pub data Phase : Type 0 where
  idle : Phase
  reserved : ReservedWrite → Sent → Phase
  sending : PendingWrite → Phase
  failed : IoError → Phase

pub data SessionError : Type 0 where
  connection_error : ConnError → SessionError
  session_io : IoError → SessionError
  recover_busy : SessionError
  unavailable : SessionError

pub data FlowWriteResult : Type 0 where
  delivered : FlowWriteResult
  refused : SessionError → FlowWriteResult
  owned_by_replay : SessionError → FlowWriteResult
  fatal : SessionError → FlowWriteResult

-- The session after a section, and the result of the whole write if that was its last.
abbrev pub Section : Type 0
Section = Live × Phase × Option FlowWriteResult

unfoldable pub flow_failure : WritePacketError → FlowWriteResult
flow_failure (before_replay (io e)) = refused (connection_error (io e))
flow_failure (before_replay e) = fatal (connection_error e)
flow_failure (replay_owned e) = owned_by_replay (connection_error e)

unfoldable pub after_reservation : Sent → Live × Result ReservedWrite WritePacketError → Section
unfolding disconnect flow_failure
after_reservation p (l, ok r) = (l, reserved r p, none)
after_reservation p (l, err e) = (disconnect l, idle, some (flow_failure e))

-- The first section of `write_packet`: unless the session is stopped, the frame is reserved.
unfoldable pub reserve_section : Bool → Live → Sent → Section
unfolding reserve_write_packet after_reservation
reserve_section hard_stopped l p =
    if hard_stopped
    then (l, idle, some (fatal unavailable))
    else after_reservation p (reserve_write_packet l p.header (length p.payload))

abbrev pub send_or_done : Live → Option PendingWrite → Section
send_or_done l none = (l, idle, some delivered)
send_or_done l (some q) = (l, sending q, none)

-- The second: what was sealed meanwhile is committed.
unfoldable pub commit_section : Sodium → Live → ReservedWrite → Sent → ℕ → ℕ → Section
unfolding commit_write_packet
commit_section s l r p noted_at pended_at =
    let (l', frame) = commit_write_packet l r (encrypt_reserved s r p.payload) noted_at in
    send_or_done l' (into_pending frame pended_at)

-- A round of `send`, with no lock on the connection; a frame that fails is dropped.
unfoldable pub sent_section :
    Live → Option IoError → PendingWrite × Result Bool IoError × List ℕ → Section
unfolding drop_pending
sent_section l waited (q, result, bytes) =
    let t = record (l.transport) { taken = l.transport.taken ++ bytes } in
    elim (stops waited result) [
      | none ↦ (record l { transport = t }, sending q, none)
      | some (ok done) ↦ (record l { transport = drop_pending (some q) t }, idle, some delivered)
      | some (err e) ↦ (record l { transport = drop_pending (some q) t }, failed e, none)
    ]

unfoldable pub send_section : Live → PendingWrite → Round → Section
unfolding sent_section advance
send_section l q round = sent_section l round.waited (advance q round.now round.kernel)

-- The last section of a write that failed.
unfoldable pub fail_section : Live → IoError → Section
unfolding disconnect flow_failure
fail_section l e = (disconnect l, idle, some (flow_failure (replay_owned (io e))))

-- The first section of `finish_pending_packet`.
unfoldable pub detach_section : Bool → Live → Section
unfolding finish_pending_live_detached
detach_section hard_stopped l =
    if hard_stopped
    then (l, idle, some (fatal unavailable))
    else (let (l', pending) = finish_pending_live_detached l in send_or_done l' pending)
