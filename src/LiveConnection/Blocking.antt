-- ===== src/LiveConnection/Blocking.antt =====
-- crates/et-net/src/connection.rs: the calls that wait until a packet is on the wire, each with the
-- rounds of its wait. `none` means that the rounds are used up, and the call still waits.
use et_rs.Prelude.{
  if◌then◌else◌, Result, ok, err, ℕ, ◌+◌, min, true, Option, none, some, List, ◌++◌,
}
use et_rs.Crypto.{Sodium}
use et_rs.Recovery.Calls.{IoError, not_connected, ConnError, io}
use et_rs.PendingWrite.{PendingWrite, Round, finish_loop}
use et_rs.LiveConnection.{
  Transport, Live, WritePacketError, replay_owned, into_inner, Env, drop_pending, disconnect,
  with_pending, PreparedWrite, prepare_write_packet, into_pending,
}

-- A frame that is done with: its transport, and the result.
unfoldable pub settled :
    Transport
    → PendingWrite × Option (Result (Unit {0}) IoError) × List ℕ
    → Transport × Option (Result (Unit {0}) IoError)
unfolding drop_pending
settled t (p, none, bytes) = (record t { taken = t.taken ++ bytes }, none)
settled t (p, some r, bytes) =
    (drop_pending (some p) (record t { taken = t.taken ++ bytes }), some r)

unfoldable pub finish_frame :
    Transport → Option PendingWrite → List Round → Transport × Option (Result (Unit {0}) IoError)
unfolding settled finish_loop
finish_frame t none rounds = (t, some (ok tt))
finish_frame t (some p) rounds = settled t (finish_loop p rounds)

-- A failed wait ends the connection.
unfoldable pub finished :
    Live
    → Transport × Option (Result (Unit {0}) IoError)
    → Live × Option (Result (Unit {0}) WritePacketError)
unfolding disconnect
finished l (t, none) = (record l { transport = t }, none)
finished l (t, some (ok done)) = (record l { transport = t }, some (ok tt))
finished l (t, some (err e)) =
    (disconnect (record l { transport = t }), some (err (replay_owned (io e))))

-- `send_until` replaces the deadline.
abbrev pub with_deadline : Option ℕ → Option PendingWrite → Option PendingWrite
with_deadline none pending = pending
with_deadline (some deadline) none = none
with_deadline (some deadline) (some p) = some (record p { deadline = deadline })

unfoldable pub send_prepared :
    Env
    → List Round
    → Option ℕ
    → Live × Result PreparedWrite WritePacketError
    → Live × Option (Result (Unit {0}) WritePacketError)
unfolding finished finish_frame
send_prepared env rounds deadline (l, err e) = (l, some (err e))
send_prepared env rounds deadline (l, ok frame) =
    finished l
      (finish_frame l.transport (with_deadline deadline (into_pending frame env.pended_at)) rounds)

unfoldable pub write_packet_owned_until :
    Sodium
    → Live
    → Env
    → List Round
    → ℕ
    → List ℕ
    → Option ℕ
    → Live × Option (Result (Unit {0}) WritePacketError)
unfolding prepare_write_packet send_prepared
write_packet_owned_until s l env rounds header payload deadline =
    send_prepared env rounds deadline (prepare_write_packet s l env header payload)

-- Initialization traffic counts only while the transport is live.
unfoldable pub still_live :
    Live × Option (Result (Unit {0}) WritePacketError) → Live × Option (Result (Unit {0}) ConnError)
still_live (l, none) = (l, none)
still_live (l, some (err e)) = (l, some (err (into_inner e)))
still_live (l, some (ok done)) =
    (l, some (if l.connection.writer.connected then ok tt else err (io not_connected)))

unfoldable pub write_packet_live :
    Sodium
    → Live
    → Env
    → List Round
    → ℕ
    → List ℕ
    → Option ℕ
    → Live × Option (Result (Unit {0}) ConnError)
unfolding write_packet_owned_until still_live
write_packet_live s l env rounds header payload deadline =
    if l.connection.writer.connected
    then still_live (write_packet_owned_until s l env rounds header payload deadline)
    else (l, some (err (io not_connected)))

-- The retained frame is taken out and written to its end.
unfoldable pub finish_pending_write :
    Live → List Round → Live × Option (Result (Unit {0}) WritePacketError)
unfolding finished finish_frame
finish_pending_write l rounds =
    finished (with_pending l none) (finish_frame l.transport l.connection.pending_live rounds)

-- Output that already waited since `since` for room does not get its time anew.
unfoldable pub backdated : Option PendingWrite → ℕ → Option PendingWrite
backdated none deadline = none
backdated (some p) deadline = some (record p { deadline = min p.deadline deadline })

unfoldable pub backdate_pending_write : Live → ℕ → Live
unfolding backdated
backdate_pending_write l since =
    with_pending l (backdated l.connection.pending_live (since + l.connection.live_write_timeout))

-- Whether the socket could be shut down too is its own affair: `shutdown_socket` is its answer, with
-- `NotConnected` taken for done.
abbrev pub shutdown_result : Option IoError → Result (Unit {0}) ConnError
shutdown_result none = ok tt
shutdown_result (some not_connected) = ok tt
shutdown_result (some e) = err (io e)

unfoldable pub shutdown : Live → Option IoError → Live × Result (Unit {0}) ConnError
unfolding disconnect
shutdown l shutdown_socket =
    let l' = disconnect l in
    (
      record l' { transport = record (l'.transport) { shut = true } },
      shutdown_result shutdown_socket,
    )
