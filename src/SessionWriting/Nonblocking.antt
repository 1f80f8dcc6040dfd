-- ===== src/SessionWriting/Nonblocking.antt =====
-- crates/et-server/src/session_flow_write.rs: `write_nonblocking`, which holds both locks, and what it
-- says of the packet.
use et_rs.Prelude.{
  ltb, if◌then◌else◌, Bool-cases, Result, ok, err, ℕ, ◌≡◌, refl, sym, subst, inl, inr, Bool, true,
  false, not, Option, none, some, List, ◌∷◌,
}
use et_rs.Crypto.{Sodium}
use et_rs.Writer.History.{Sent}
use et_rs.Recovery.Calls.{IoError, ConnError, io}
use et_rs.PendingWrite.{PendingWrite, advance, IsSend}
use et_rs.LiveConnection.{
  Live, WritePacketError, before_replay, replay_owned, Env, disconnect, is_some, advanced,
  advance_pending, advance_write, start_write_packet_owned_unprobed,
}
use et_rs.LiveConnection.Blocking.{backdate_pending_write}
use et_rs.LiveConnection.Accounts.{live_write_deadline}
use et_rs.LiveConnection.Runs.{owned, InOrder, disconnect-InOrder, advance_write-InOrder}
use et_rs.LiveConnection.Reached.{backdates, Step-InOrder}
use et_rs.LiveConnection.Writing.{start_write_packet_owned_unprobed-InOrder}
use et_rs.SessionWriting.{
  unavailable, FlowWriteResult, delivered, refused, owned_by_replay, fatal, flow_failure,
}

pub data NonblockingWrite : Type 0 where
  pending_until : ℕ → NonblockingWrite
  no_room : ℕ → NonblockingWrite
  done : FlowWriteResult → Bool → NonblockingWrite

abbrev pub is_connected : Live → Bool
is_connected l = l.connection.writer.connected

unfoldable pub pending_or_done : Live → Option PendingWrite → NonblockingWrite
pending_or_done l none = done delivered (is_connected l)
pending_or_done l (some q) = pending_until q.deadline

unfoldable pub nonblocking_result : Live × Result Bool WritePacketError → Live × NonblockingWrite
unfolding pending_or_done disconnect flow_failure
nonblocking_result (l, ok true) = (l, done delivered (is_connected l))
nonblocking_result (l, ok false) = (l, pending_or_done l l.connection.pending_live)
nonblocking_result (l, err e) = (disconnect l, done (flow_failure e) (is_connected (disconnect l)))

abbrev pub backdate_since : Option ℕ → Live → Live
backdate_since none l = l
backdate_since (some since) l = backdate_pending_write l since

abbrev pub started_step :
    Option ℕ → Live × Result (Unit {0}) WritePacketError → Live × Result Bool WritePacketError
started_step room_wait (l, ok u) =
    (backdate_since room_wait l, ok (not (is_some l.connection.pending_live)))
started_step room_wait (l, err e) = (backdate_since room_wait l, err e)

unfoldable pub start_nonblocking : Sodium → Live → Env → Sent → Option ℕ → Live × NonblockingWrite
unfolding start_write_packet_owned_unprobed backdate_pending_write nonblocking_result
start_nonblocking s l env p room_wait =
    nonblocking_result
      (started_step room_wait (start_write_packet_owned_unprobed s l env p.header p.payload))

abbrev pub or_now : Option ℕ → ℕ → ℕ
or_now none now = now
or_now (some since) now = since

-- The session, `room_wait` and the result. The arguments: whether the session is stopped, whether the
-- frame has started, whether the socket has room, the clock, and since when output waits for room.
unfoldable pub write_nonblocking :
    Sodium
    → Live
    → Env
    → Sent
    → Bool
    → Bool
    → Bool
    → ℕ
    → Option ℕ
    → Live × Option ℕ × NonblockingWrite
unfolding start_nonblocking advance_write nonblocking_result live_write_deadline
write_nonblocking s l env p true started has_room now room_wait =
    (l, room_wait, done (fatal unavailable) false)
write_nonblocking s l env p false true has_room now room_wait =
    let (l', w) = nonblocking_result (advance_write l env) in (l', room_wait, w)
write_nonblocking s l env p false false true now room_wait =
    let (l', w) = start_nonblocking s l env p none in (l', none, w)
write_nonblocking s l env p false false false now room_wait =
    let since = or_now room_wait now in
    if ltb now (live_write_deadline l since)
    then (l, some since, no_room (live_write_deadline l since))
    else (let (l', w) = start_nonblocking s l env p (some since) in (l', none, w))

-- Whether a result says that replay owns the packet.
abbrev pub says_owned : NonblockingWrite → Bool
says_owned (pending_until deadline) = true
says_owned (no_room deadline) = false
says_owned (done delivered connected) = true
says_owned (done (owned_by_replay e) connected) = true
says_owned (done (refused e) connected) = false
says_owned (done (fatal e) connected) = false

abbrev pub owned_by_result : NonblockingWrite → Sent → List Sent → List Sent
owned_by_result w p history = if says_owned w then p ∷ history else history

-- What a write may report of a frame that has started: a stop where the session is stopped, and
-- otherwise that replay owns it.
abbrev pub SaysStarted : Bool → Bool → NonblockingWrite → Type 0
SaysStarted hard_stopped false w = Unit {0}
SaysStarted true true w = w ≡ done (fatal unavailable) false
SaysStarted false true w = says_owned w ≡ true

pending_or_done-owned :
    (l : Live) (pending : Option PendingWrite) (p : Sent) (history : List Sent)
    → owned_by_result (pending_or_done l pending) p history ≡ p ∷ history
unfolding pending_or_done
pending_or_done-owned l none p history = refl
pending_or_done-owned l (some q) p history = refl

refusal-owned :
    (e : ConnError) (connected : Bool) (p : Sent) (history : List Sent)
    → owned_by_result (done (flow_failure (before_replay e)) connected) p history ≡ history
unfolding flow_failure
refusal-owned (io x) connected p history = refl
refusal-owned e connected p history = refl

ok_result-owned :
    (l : Live) (complete : Bool) (p : Sent) (history : List Sent)
    → owned_by_result (nonblocking_result (l, ok complete)).1 p history ≡ p ∷ history
unfolding nonblocking_result
ok_result-owned l true p history = refl
ok_result-owned l false p history = pending_or_done-owned l l.connection.pending_live p history

result-owned :
    (room_wait : Option ℕ) (l : Live) (r : Result (Unit {0}) WritePacketError) (p : Sent)
    (history : List Sent)
    → owned_by_result (nonblocking_result (started_step room_wait (l, r))).1 p history
      ≡ owned r p history
unfolding nonblocking_result flow_failure
result-owned room_wait l (err (replay_owned e)) p history = refl
result-owned room_wait l (err (before_replay e)) p history = refusal-owned e _ p history
result-owned room_wait l (ok u) p history =
    ok_result-owned (backdate_since room_wait l) (not (is_some l.connection.pending_live)) p history

-- A step of a frame that replay owns never ends in a refusal.
advanced_says :
    (l : Live) (p : PendingWrite) (result : Result Bool IoError) (bytes : List ℕ)
    → says_owned (nonblocking_result (advanced l (p, result, bytes))).1 ≡ true
unfolding nonblocking_result flow_failure pending_or_done advanced
advanced_says l p (ok true) bytes = refl
advanced_says l p (ok false) bytes = refl
advanced_says l p (err e) bytes = refl

advance_pending_says :
    (l : Live) (pending : Option PendingWrite) (env : Env)
    → says_owned (nonblocking_result (advance_pending l pending env)).1 ≡ true
unfolding nonblocking_result advance_pending
advance_pending_says l none env = refl
advance_pending_says l (some p) env =
    let step = advance p env.sent_at env.kernel in advanced_says l step.0 step.1 step.2

advance_write_says :
    (l : Live) (env : Env) → says_owned (nonblocking_result (advance_write l env)).1 ≡ true
unfolding advance_write
advance_write_says l env = advance_pending_says l _ env

module _ (s : Sodium) (key first : List ℕ) (base : List Sent) where
  result-InOrder :
      (history : List Sent) (l : Live) (r : Result Bool WritePacketError)
      → InOrder s key first base history l
      → InOrder s key first base history (nonblocking_result (l, r)).0
  unfolding nonblocking_result
  result-InOrder history l (ok true) o = o
  result-InOrder history l (ok false) o = o
  result-InOrder history l (err e) o = disconnect-InOrder s key first base history l o

  started_step-InOrder :
      (history : List Sent) (room_wait : Option ℕ) (l : Live)
      (r : Result (Unit {0}) WritePacketError)
      → InOrder s key first base history l
      → InOrder s key first base history (nonblocking_result (started_step room_wait (l, r))).0
  started_step-InOrder history none l (ok u) o = result-InOrder history l _ o
  started_step-InOrder history none l (err e) o = result-InOrder history l (err e) o
  started_step-InOrder history (some since) l (ok u) o =
      result-InOrder history (backdate_pending_write l since) _
        (Step-InOrder s key first base (backdates since) o)
  started_step-InOrder history (some since) l (err e) o =
      result-InOrder history (backdate_pending_write l since) (err e)
        (Step-InOrder s key first base (backdates since) o)

  start_nonblocking-InOrder :
      (history : List Sent) (l : Live) (env : Env) (p : Sent) (room_wait : Option ℕ)
      → IsSend env.kernel
      → InOrder s key first base history l
      → InOrder s key first base
          (owned_by_result (start_nonblocking s l env p room_wait).1 p history)
          (start_nonblocking s l env p room_wait).0
  unfolding start_nonblocking
  start_nonblocking-InOrder history l env p room_wait law o =
      let x = start_write_packet_owned_unprobed s l env p.header p.payload in
      subst (λ h. InOrder s key first base h (nonblocking_result (started_step room_wait x)).0)
        (sym (result-owned room_wait x.0 x.1 p history))
        (started_step-InOrder (owned x.1 p history) room_wait x.0 x.1
          (start_write_packet_owned_unprobed-InOrder s key first base history p l env law o))

-- The socket stays in order whatever a nonblocking write meets. The result of a write that has not
-- started says truly who owns the packet: replay does when the frame waits, is delivered, or failed
-- as owned by replay; where it waits for room, was refused, or met a fatal error, nothing of it was
-- written. A write that had started adds no packet and is reported as owned by replay, never as
-- waiting for room or refused, unless the session is stopped: then it is reported as fatal.
pub write_nonblocking-InOrder :
    (s : Sodium) (key first : List ℕ) (base history : List Sent) (l : Live) (env : Env) (p : Sent)
    (hard_stopped started has_room : Bool) (now : ℕ) (room_wait : Option ℕ)
    → IsSend env.kernel
    → InOrder s key first base history l
    → let result = write_nonblocking s l env p hard_stopped started has_room now room_wait in
      InOrder s key first base
        (if started then history else owned_by_result result.2 p history)
        result.0
      × SaysStarted hard_stopped started result.2
unfolding write_nonblocking
write_nonblocking-InOrder s key first base history l env p true true has_room now room_wait law o =
    (o, refl)
write_nonblocking-InOrder s key first base history l env p true false has_room now room_wait law o =
    (o, tt)
write_nonblocking-InOrder s key first base history l env p false true has_room now room_wait law o =
    (
      result-InOrder s key first base history (advance_write l env).0 (advance_write l env).1
          (advance_write-InOrder s key first base history l env law o),
      advance_write_says l env,
    )
write_nonblocking-InOrder s key first base history l env p false false true now room_wait law o =
    (start_nonblocking-InOrder s key first base history l env p none law o, tt)
write_nonblocking-InOrder s key first base history l env p false false false now room_wait law o =
    let since : ℕ = or_now room_wait now in
    let waits : Live × Option ℕ × NonblockingWrite =
      (l, some since, no_room (live_write_deadline l since)) in
    let begun = start_nonblocking s l env p (some since) in
    let begins : Live × Option ℕ × NonblockingWrite = (begun.0, none, begun.1) in
    let Left : Bool → Type 0 = λ b.
      InOrder s key first base (owned_by_result (if b then waits else begins).2 p history)
        (if b then waits else begins).0 in
    elim (Bool-cases (ltb now (live_write_deadline l since))) [
      | inl early ↦ (subst Left (sym early) o, tt)
      | inr late ↦ (
        subst Left (sym late)
            (start_nonblocking-InOrder s key first base history l env p (some since) law o),
        tt,
      )
    ]
