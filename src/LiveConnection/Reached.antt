-- ===== src/LiveConnection/Reached.antt =====
-- crates/et-net/src/connection.rs: all that can happen to a live connection, and the bytes that its
-- socket has taken then.
use et_rs.Prelude.{
  All, Result, ok, err, ℤ, ℕ, ◌≡◌, refl, sym, ap₂, subst, ◌∙◌, inr, Bool, true, Option, none, some,
  List, [], ◌++◌,
}
use et_rs.Crypto.{Sodium}
use et_rs.Recovery.Calls.{IoError}
use et_rs.Writer.{BackedWriter, acknowledge}
use et_rs.Writer.History.{Sent, Follows}
use et_rs.Writer.Sending.{acknowledge-Follows}
use et_rs.PendingWrite.{PendingWrite, IsSend, Round}
use et_rs.KeepAlive.{AckSide}
use et_rs.LiveConnection.{
  Transport, Live, WritePacketError, Env, disconnect, advance_write, start_write_packet_owned,
  start_write_packet_owned_unprobed,
}
use et_rs.LiveConnection.Blocking.{
  write_packet_owned_until, finish_pending_write, backdated, backdate_pending_write, shutdown,
}
use et_rs.LiveConnection.Reading.{RecvCall, ReadStep, try_read, end_read, try_read_packet}
use et_rs.LiveConnection.Awaiting.{ReadRound, await_loop, read_packet, read_packet_until}
use et_rs.LiveConnection.Accounts.{
  minimize_output_buffering, bound_unacknowledged_output, acknowledge_delivery,
  output_window_blocked, next_keepalive_ack,
}
use et_rs.LiveConnection.Order.{remaining, InRange, Orderly, flowing, broken, retimed-Orderly}
use et_rs.LiveConnection.Runs.{owned, InOrder, disconnect-InOrder, advance_write-InOrder}
use et_rs.LiveConnection.Starting.{Orderly-Follows}
use et_rs.LiveConnection.Writing.{
  start_write_packet_owned-InOrder, start_write_packet_owned_unprobed-InOrder,
  write_packet_owned_until-InOrder, finish_pending_write-InOrder,
}

-- One call, on the packets that replay owns and the connection. A call that waits has ended.
pub data Step (s : Sodium) (history : List Sent) (l : Live) : List Sent → Live → Type 0 where
  starts :
      (p : Sent) (env : Env)
      → IsSend env.kernel
      → Step s history l
          (owned (start_write_packet_owned s l env p.header p.payload).1 p history)
          (start_write_packet_owned s l env p.header p.payload).0
  starts_unprobed :
      (p : Sent) (env : Env)
      → IsSend env.kernel
      → Step s history l
          (owned (start_write_packet_owned_unprobed s l env p.header p.payload).1 p history)
          (start_write_packet_owned_unprobed s l env p.header p.payload).0
  advances : (env : Env) → IsSend env.kernel → Step s history l history (advance_write l env).0
  writes :
      (p : Sent) (env : Env) (rounds : List Round) (deadline : Option ℕ)
      (r : Result (Unit {0}) WritePacketError)
      → All (λ c. IsSend c.kernel) rounds
      → (write_packet_owned_until s l env rounds p.header p.payload deadline).1 ≡ some r
      → Step s history l
          (owned r p history)
          (write_packet_owned_until s l env rounds p.header p.payload deadline).0
  finishes :
      (rounds : List Round) (r : Result (Unit {0}) WritePacketError)
      → All (λ c. IsSend c.kernel) rounds
      → (finish_pending_write l rounds).1 ≡ some r
      → Step s history l history (finish_pending_write l rounds).0
  backdates : (since : ℕ) → Step s history l history (backdate_pending_write l since)
  disconnects : Step s history l history (disconnect l)
  shuts_down : (answer : Option IoError) → Step s history l history (shutdown l answer).0
  acknowledges :
      (sequence : ℤ) (now : ℕ) → Step s history l history (acknowledge_delivery l sequence now)
  looks : (now : ℕ) → Step s history l history (output_window_blocked l now).0
  keeps_alive :
      (side : AckSide) (volume : Bool)
      → Step s history l history (next_keepalive_ack l side volume).0
  bounds_output : Step s history l history (bound_unacknowledged_output l)
  minimizes : Step s history l history (minimize_output_buffering l)
  reads :
      (one two three four : RecvCall)
      → Step s history l history (try_read_packet s l one two three four).0
  awaits : (rounds : List ReadRound) → Step s history l history (read_packet s l rounds).0
  awaits_until :
      (deadline : ℕ) (rounds : List ReadRound)
      → Step s history l history (read_packet_until s l deadline rounds).0

pub data Reached (s : Sodium) (history : List Sent) (l : Live) : List Sent → Live → Type 0 where
  here : Reached s history l history l
  then_call :
      {history' history'' : List Sent} {l' l'' : Live}
      → Reached s history l history' l'
      → Step s history' l' history'' l''
      → Reached s history l history'' l''

module _ (s : Sodium) (key first : List ℕ) (base : List Sent) where
  end_read-InOrder :
      (history : List Sent) (l : Live) (x : ReadStep)
      → InOrder s key first base history l
      → InOrder s key first base history (end_read l x).0
  unfolding end_read
  end_read-InOrder history l (r, ok item, bytes) o = o
  end_read-InOrder history l (r, err e, bytes) o =
      disconnect-InOrder s key first base history
        (record l { connection = record (l.connection) { reader = r } }) o

  backdated-Orderly :
      (history : List Sent) (w : BackedWriter) (t : Transport) (pending : Option PendingWrite)
      (deadline : ℕ)
      → Orderly s key first base history w pending t
      → Orderly s key first base history w (backdated pending deadline) t
  unfolding backdated
  backdated-Orderly history w t none deadline o = o
  backdated-Orderly history w t (some p) deadline o =
      retimed-Orderly s key first base history w p _ t refl refl o

  pub acknowledged-Orderly :
      (history : List Sent) (w w' : BackedWriter) (pending : Option PendingWrite) (t : Transport)
      → w'.connected ≡ w.connected
      → (Follows s key first history w → Follows s key first history w')
      → Orderly s key first base history w pending t
      → Orderly s key first base history w' pending t
  acknowledged-Orderly history w w' pending t same keep (flowing ps on e f fits taken) =
      flowing ps (same ∙ on) e (keep f) fits taken
  acknowledged-Orderly history w w' pending t same keep
        (broken ps later rest off empty e f taken whole) =
      broken ps later rest (same ∙ off) empty e (keep f) taken whole

  pub shut-Orderly :
      (history : List Sent) (w : BackedWriter) (pending : Option PendingWrite) (t : Transport)
      → Orderly s key first base history w pending t
      → Orderly s key first base history w pending (record t { shut = true })
  shut-Orderly history w pending t (flowing ps on e f fits taken) = flowing ps on e f fits taken
  shut-Orderly history w pending t (broken ps later rest off empty e f taken whole) =
      broken ps later rest off empty e f taken (inr refl)

  pub Step-InOrder :
      {history : List Sent} {l : Live} {history' : List Sent} {l' : Live}
      → Step s history l history' l'
      → InOrder s key first base history l
      → InOrder s key first base history' l'
  unfolding shutdown backdate_pending_write acknowledge_delivery output_window_blocked
      next_keepalive_ack bound_unacknowledged_output minimize_output_buffering try_read_packet
      read_packet read_packet_until
  Step-InOrder {history} {l = l} (starts p env law) o =
      start_write_packet_owned-InOrder s key first base history p l env law o
  Step-InOrder {history} {l = l} (starts_unprobed p env law) o =
      start_write_packet_owned_unprobed-InOrder s key first base history p l env law o
  Step-InOrder {history} {l = l} (advances env law) o =
      advance_write-InOrder s key first base history l env law o
  Step-InOrder {history} {l = l} (writes p env rounds deadline r laws ends) o =
      write_packet_owned_until-InOrder s key first base history p l env rounds deadline r laws o
        ends
  Step-InOrder {history} {l = l} (finishes rounds r laws ends) o =
      finish_pending_write-InOrder s key first base history l rounds r laws o ends
  Step-InOrder {history} {l = l} (backdates since) o =
      backdated-Orderly history l.connection.writer l.transport l.connection.pending_live _ o
  Step-InOrder {history} {l = l} disconnects o = disconnect-InOrder s key first base history l o
  Step-InOrder {history} {l = l} (shuts_down answer) o =
      shut-Orderly history _ _ _ (disconnect-InOrder s key first base history l o)
  Step-InOrder {history} {l = l} (acknowledges sequence now) o =
      acknowledged-Orderly history l.connection.writer (acknowledge l.connection.writer sequence)
        l.connection.pending_live l.transport
        (acknowledge-Follows s key first history l.connection.writer sequence
          (Orderly-Follows s key first base history _ _ _ o)).1
        (λ f. (acknowledge-Follows s key first history l.connection.writer sequence f).0) o
  Step-InOrder {history} {l = l} (looks now) o = o
  Step-InOrder {history} {l = l} (keeps_alive side volume) o = o
  Step-InOrder {history} {l = l} bounds_output o = o
  Step-InOrder {history} {l = l} minimizes o = o
  Step-InOrder {history} {l = l} (reads one two three four) o =
      end_read-InOrder history l (try_read s one two three four l.connection.reader) o
  Step-InOrder {history} {l = l} (awaits rounds) o =
      end_read-InOrder history l (await_loop s none rounds l.connection.reader) o
  Step-InOrder {history} {l = l} (awaits_until deadline rounds) o =
      end_read-InOrder history l (await_loop s (some deadline) rounds l.connection.reader) o

  Reached-InOrder :
      {history : List Sent} {l : Live} {history' : List Sent} {l' : Live}
      → Reached s history l history' l'
      → InOrder s key first base history l
      → InOrder s key first base history' l'
  Reached-InOrder here o = o
  Reached-InOrder (then_call r step) o = Step-InOrder step (Reached-InOrder r o)

-- However a connection is used from the time its socket is new, whatever the socket takes of each
-- frame and whatever fails, what the socket has taken is the front of the stream of the packets
-- written since, each frame whole and in its place but the last. While the connection lives, the
-- frame that waits is the rest of that stream; once it is broken, the packets written later are kept
-- only for replay, and a socket that has taken a part of a frame is shut. Either way replay owns
-- exactly the packets whose writing did not say that it refused them.
pub Reached-Orderly :
    (s : Sodium) (key first : List ℕ) (base history : List Sent) (l l' : Live)
    → Follows s key first base l.connection.writer
    → l.connection.writer.connected ≡ true
    → l.connection.pending_live ≡ none
    → l.transport.taken ≡ []
    → Reached s base l history l'
    → Orderly s key first base history l'.connection.writer l'.connection.pending_live l'.transport
Reached-Orderly s key first base history l l' follows on empty fresh r =
    Reached-InOrder s key first base r (
      flowing [] on refl follows (subst InRange (sym empty) tt)
        (ap₂ (λ a (b : Option PendingWrite). a ++ remaining b) fresh empty))
