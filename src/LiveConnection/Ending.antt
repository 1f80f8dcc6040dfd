-- ===== src/LiveConnection/Ending.antt =====
-- The wait of `finish_pending_write` of crates/et-net/src/connection_pending.rs.
use et_rs.Prelude.{Result, ok, err, ℕ, ◌≤◌, ◌≡◌, refl, Option, none, some, List, ◌∷◌, ◌++◌, arith}
use et_rs.Recovery.Calls.{IoError, io}
use et_rs.PendingWrite.{PendingWrite, Round, finish_loop}
use et_rs.PendingWrite.Ending.{finish_loop_ends}
use et_rs.LiveConnection.{Transport, Live, WritePacketError, replay_owned, with_pending}
use et_rs.LiveConnection.Blocking.{settled, finish_frame, finished, finish_pending_write}

abbrev pub due : Option PendingWrite → ℕ
due none = 0
due (some q) = q.deadline

finished_ends :
    (l : Live) (x : Transport × Option (Result (Unit {0}) IoError)) (r : Result (Unit {0}) IoError)
    → x.1 ≡ some r
    → (r' : Result (Unit {0}) WritePacketError) × ((finished l x).1 ≡ some r')
unfolding finished
finished_ends l (t, none) r e = absurd (ground arith)
finished_ends l (t, some (ok done)) r e = (ok tt, refl)
finished_ends l (t, some (err x)) r e = (err (replay_owned (io x)), refl)

settled_ends :
    (t : Transport) (x : PendingWrite × Option (Result (Unit {0}) IoError) × List ℕ)
    (r : Result (Unit {0}) IoError)
    → x.1 ≡ some r
    → (settled t x).1 ≡ some r
unfolding settled
settled_ends t (p, none, bytes) r e = e
settled_ends t (p, some o, bytes) r e = e

finish_frame_ends :
    (t : Transport) (pending : Option PendingWrite) (front back : List Round) (last : Round)
    → due pending ≤ last.now
    → (r : Result (Unit {0}) IoError) × ((finish_frame t pending (front ++ (last ∷ back))).1
        ≡ some r)
unfolding finish_frame
finish_frame_ends t none front back last late = (ok tt, refl)
finish_frame_ends t (some p) front back last late =
    let (r, ends) = finish_loop_ends p front back last late in
    (r, settled_ends t (finish_loop p (front ++ (last ∷ back))) r ends)

-- Waiting until the retained frame is on the wire ends with a result by the first look at the clock
-- at or after the frame's deadline, whatever the socket and the waits for it answer until then.
pub finish_pending_write_ends :
    (l : Live) (front back : List Round) (last : Round)
    → due l.connection.pending_live ≤ last.now
    → (r : Result (Unit {0}) WritePacketError) × ((finish_pending_write l
          (front ++ (last ∷ back))).1
        ≡ some r)
unfolding finish_pending_write
finish_pending_write_ends l front back last late =
    let (r, ends) = finish_frame_ends l.transport l.connection.pending_live front back last late in
    finished_ends (with_pending l none)
      (finish_frame l.transport l.connection.pending_live (front ++ (last ∷ back))) r ends
