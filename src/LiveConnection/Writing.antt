-- ===== src/LiveConnection/Writing.antt =====
-- The order of the bytes of a socket under the whole writes of crates/et-net/src/connection.rs and
-- connection_pending.rs, those that try once and those that wait.
use et_rs.Prelude.{
  length, All, Result, ok, err, ℕ, ◌≡◌, refl, sym, ap, subst, ◌≢◌, Bool, true, false, Option, none,
  some, List, [], ◌∷◌, arith,
}
use et_rs.Crypto.{Sodium}
use et_rs.Recovery.Calls.{IoError, ConnError, io}
use et_rs.Writer.{BackedWriter}
use et_rs.Writer.History.{Sent}
use et_rs.PendingWrite.{PendingWrite, advance, IsSend, Round, finish_loop}
use et_rs.PendingWrite.Steps.{Advanced, as_step, finish_loop-Advanced}
use et_rs.LiveConnection.{
  Transport, Live, WritePacketError, before_replay, replay_owned, Env, disconnect, with_pending,
  PreparedWrite, prepare_write_packet_unprobed, prepare_write_packet, into_pending, advanced,
  advance_pending, advance_write, forget, start_prepared, start_write_packet_owned,
  start_write_packet_owned_unprobed,
}
use et_rs.LiveConnection.Blocking.{
  settled, finish_frame, finished, with_deadline, send_prepared, write_packet_owned_until,
  finish_pending_write,
}
use et_rs.LiveConnection.Order.{
  Orderly, drop_none, disconnect-Orderly, advance-Orderly, whole-Orderly, retimed-Orderly,
}
use et_rs.LiveConnection.Runs.{owned, InOrder, in_range, advance_write-InOrder}
use et_rs.LiveConnection.Starting.{
  Ready, prepare_write_packet-Ready, prepare_write_packet_unprobed-Ready,
}
use et_rs.Writer
use et_rs.Recovery

-- An error of a frame that waits is never one from before replay.
advanced-owned :
    (l : Live) (p : Sent) (history : List Sent) (x : PendingWrite × Result Bool IoError × List ℕ)
    → owned (forget (advanced l x).1) p history ≡ p ∷ history
unfolding advanced
advanced-owned l p history (q, ok true, bytes) = refl
advanced-owned l p history (q, ok false, bytes) = refl
advanced-owned l p history (q, err e, bytes) = refl

advance_pending-owned :
    (l : Live) (p : Sent) (history : List Sent) (pending : Option PendingWrite) (env : Env)
    → owned (forget (advance_pending l pending env).1) p history ≡ p ∷ history
unfolding advance_pending
advance_pending-owned l p history none env = refl
advance_pending-owned l p history (some q) env =
    advanced-owned l p history (advance q env.sent_at env.kernel)

advance_write-owned :
    (l : Live) (p : Sent) (history : List Sent) (env : Env)
    → owned (forget (advance_write l env).1) p history ≡ p ∷ history
unfolding advance_write
advance_write-owned l p history env = advance_pending-owned l p history _ env

not_longer : (xs : List Sent) (x : Sent) → xs ≢ x ∷ xs
not_longer xs x e = let size : length xs ≡ length (x ∷ xs) = ap length e in omega (arith, size)

owned_of_ok :
    (p : Sent) (history : List Sent) (r : Result (Unit {0}) WritePacketError)
    → some (ok tt) ≡ some r
    → owned r p history ≡ p ∷ history
owned_of_ok p history (ok done) e = refl
owned_of_ok p history (err (replay_owned x)) e = refl
owned_of_ok p history (err (before_replay x)) e = absurd (ground arith)

owned_of_err :
    (p : Sent) (history : List Sent) (x : IoError) (r : Result (Unit {0}) WritePacketError)
    → some (err (replay_owned (io x))) ≡ some r
    → owned r p history ≡ p ∷ history
owned_of_err p history x (ok done) e = refl
owned_of_err p history x (err (replay_owned y)) e = refl
owned_of_err p history x (err (before_replay y)) e = absurd (ground arith)

owned_of_refusal :
    (p : Sent) (history : List Sent) (x : ConnError) (r : Result (Unit {0}) WritePacketError)
    → some (err (before_replay x)) ≡ some r
    → history ≡ owned r p history
owned_of_refusal p history x (ok done) e = absurd (ground arith)
owned_of_refusal p history x (err (replay_owned y)) e = absurd (ground arith)
owned_of_refusal p history x (err (before_replay y)) e = refl

-- Whether the packet is owned does not depend on the history.
owned_of_any :
    (p : Sent) (history : List Sent) (r : Result (Unit {0}) WritePacketError)
    → owned r p (p ∷ history) ≡ p ∷ (p ∷ history)
    → owned r p history ≡ p ∷ history
owned_of_any p history (ok done) e = refl
owned_of_any p history (err (replay_owned y)) e = refl
owned_of_any p history (err (before_replay y)) e = absurd (not_longer (p ∷ history) p e)

module _ (s : Sodium) (key first : List ℕ) (base : List Sent) where
  start_prepared-InOrder :
      (history : List Sent) (p : Sent) (l : Live) (env : Env)
      (r : Result PreparedWrite WritePacketError)
      → IsSend env.kernel
      → Ready s key first base history p env.pended_at l r
      → InOrder s key first base
          (owned (start_prepared (l, r) env).1 p history)
          (start_prepared (l, r) env).0
  unfolding start_prepared
  start_prepared-InOrder history p l env (err (before_replay e)) law o = o
  start_prepared-InOrder history p l env (err (replay_owned e)) law o = absurd o
  start_prepared-InOrder history p l env (ok frame) law o =
      subst
        (λ h.
          InOrder s key first base h
            (advance_write (with_pending l (into_pending frame env.pended_at)) env).0)
        (sym
          (advance_write-owned (with_pending l (into_pending frame env.pended_at)) p history env))
        (advance_write-InOrder s key first base (p ∷ history)
          (with_pending l (into_pending frame env.pended_at)) env law o.0)

  pub start_write_packet_owned-InOrder :
      (history : List Sent) (p : Sent) (l : Live) (env : Env)
      → IsSend env.kernel
      → InOrder s key first base history l
      → InOrder s key first base
          (owned (start_write_packet_owned s l env p.header p.payload).1 p history)
          (start_write_packet_owned s l env p.header p.payload).0
  unfolding start_write_packet_owned
  start_write_packet_owned-InOrder history p l env law o =
      start_prepared-InOrder history p (prepare_write_packet s l env p.header p.payload).0 env
        (prepare_write_packet s l env p.header p.payload).1 law
        (prepare_write_packet-Ready s key first base history p l env env.pended_at o)

  pub start_write_packet_owned_unprobed-InOrder :
      (history : List Sent) (p : Sent) (l : Live) (env : Env)
      → IsSend env.kernel
      → InOrder s key first base history l
      → InOrder s key first base
          (owned (start_write_packet_owned_unprobed s l env p.header p.payload).1 p history)
          (start_write_packet_owned_unprobed s l env p.header p.payload).0
  unfolding start_write_packet_owned_unprobed
  start_write_packet_owned_unprobed-InOrder history p l env law o =
      start_prepared-InOrder history p (prepare_write_packet_unprobed s l env p.header p.payload).0
        env (prepare_write_packet_unprobed s l env p.header p.payload).1 law
        (prepare_write_packet_unprobed-Ready s key first base history p l env env.pended_at o)

  -- How a frame is settled by a wait that has ended.
  abbrev Settles :
      List Sent → BackedWriter → Transport × Option (Result (Unit {0}) IoError) → Type 0
  Settles history w (t, none) = Unit {0}
  Settles history w (t, some (ok done)) = Orderly s key first base history w none t
  Settles history w (t, some (err e)) =
      Orderly s key first base history (Writer.invalidate w) none t

  settled-Settles :
      (history : List Sent) (w : BackedWriter) (p p' : PendingWrite) (t : Transport)
      (outcome : Option (Result (Unit {0}) IoError)) (bytes : List ℕ)
      → Orderly s key first base history w (some p) t
      → Advanced p p' (as_step outcome) bytes
      → Settles history w (settled t (p', outcome, bytes))
  unfolding settled
  settled-Settles history w p p' t none bytes o a = tt
  settled-Settles history w p p' t (some (ok done)) bytes o a =
      whole-Orderly s key first base history w p' _ (a.whole refl)
        (advance-Orderly s key first base history w p p' t (ok true) bytes o a)
  settled-Settles history w p p' t (some (err e)) bytes o a =
      disconnect-Orderly s key first base history w (some p') _
        (advance-Orderly s key first base history w p p' t (err e) bytes o a)

  finish_frame-Settles :
      (history : List Sent) (w : BackedWriter) (pending : Option PendingWrite) (t : Transport)
      (rounds : List Round)
      → All (λ r. IsSend r.kernel) rounds
      → Orderly s key first base history w pending t
      → Settles history w (finish_frame t pending rounds)
  unfolding finish_frame
  finish_frame-Settles history w none t rounds laws o = o
  finish_frame-Settles history w (some p) t rounds laws o =
      settled-Settles history w p (finish_loop p rounds).0 t (finish_loop p rounds).1
        (finish_loop p rounds).2 o
        (finish_loop-Advanced p rounds (in_range s key first base history w p t o) laws)

  finished-InOrder :
      (history : List Sent) (p : Sent) (l : Live)
      (x : Transport × Option (Result (Unit {0}) IoError)) (r : Result (Unit {0}) WritePacketError)
      → l.connection.pending_live ≡ none
      → Settles history l.connection.writer x
      → (finished l x).1 ≡ some r
      → InOrder s key first base history (finished l x).0 × (owned r p history ≡ p ∷ history)
  unfolding finished disconnect Recovery.disconnect
  finished-InOrder history p l (t, none) r empty o e = absurd (ground arith)
  finished-InOrder history p l (t, some (ok done)) r empty o e = (
    subst (λ (q : Option PendingWrite). Orderly s key first base history l.connection.writer q t)
        (sym empty) o,
    owned_of_ok p history r e,
  )
  finished-InOrder history p l (t, some (err x)) r empty o e = (
    subst
        (λ (u : Transport).
          Orderly s key first base history (Writer.invalidate l.connection.writer) none u)
        (sym (drop_none s key first base l.connection.pending_live t empty)) o,
    owned_of_err p history x r e,
  )

  with_deadline-Orderly :
      (history : List Sent) (w : BackedWriter) (t : Transport) (deadline : Option ℕ)
      (pending : Option PendingWrite)
      → Orderly s key first base history w pending t
      → Orderly s key first base history w (with_deadline deadline pending) t
  with_deadline-Orderly history w t none pending o = o
  with_deadline-Orderly history w t (some d) none o = o
  with_deadline-Orderly history w t (some d) (some q) o =
      retimed-Orderly s key first base history w q _ t refl refl o

  send_prepared-InOrder :
      (history : List Sent) (p : Sent) (env : Env) (rounds : List Round) (deadline : Option ℕ)
      (l : Live) (frame : Result PreparedWrite WritePacketError)
      (r : Result (Unit {0}) WritePacketError)
      → All (λ c. IsSend c.kernel) rounds
      → Ready s key first base history p env.pended_at l frame
      → (send_prepared env rounds deadline (l, frame)).1 ≡ some r
      → InOrder s key first base
          (owned r p history)
          (send_prepared env rounds deadline (l, frame)).0
  unfolding send_prepared
  send_prepared-InOrder history p env rounds deadline l (err (before_replay e)) r laws o ends =
      subst (λ h. InOrder s key first base h l) (owned_of_refusal p history e r ends) o
  send_prepared-InOrder history p env rounds deadline l (err (replay_owned e)) r laws o ends =
      absurd o
  send_prepared-InOrder history p env rounds deadline l (ok frame) r laws o ends =
      let pending : Option PendingWrite =
        with_deadline deadline (into_pending frame env.pended_at) in
      let waits =
        with_deadline-Orderly (p ∷ history) l.connection.writer l.transport deadline
          (into_pending frame env.pended_at) o.0 in
      let done =
        finished-InOrder (p ∷ history) p l (finish_frame l.transport pending rounds) r o.1
          (finish_frame-Settles (p ∷ history) l.connection.writer pending l.transport rounds laws
            waits)
          ends in
      subst
        (λ h. InOrder s key first base h (finished l (finish_frame l.transport pending rounds)).0)
        (sym (owned_of_any p history r done.1)) done.0

  pub write_packet_owned_until-InOrder :
      (history : List Sent) (p : Sent) (l : Live) (env : Env) (rounds : List Round)
      (deadline : Option ℕ) (r : Result (Unit {0}) WritePacketError)
      → All (λ c. IsSend c.kernel) rounds
      → InOrder s key first base history l
      → (write_packet_owned_until s l env rounds p.header p.payload deadline).1 ≡ some r
      → InOrder s key first base
          (owned r p history)
          (write_packet_owned_until s l env rounds p.header p.payload deadline).0
  unfolding write_packet_owned_until
  write_packet_owned_until-InOrder history p l env rounds deadline r laws o ends =
      send_prepared-InOrder history p env rounds deadline
        (prepare_write_packet s l env p.header p.payload).0
        (prepare_write_packet s l env p.header p.payload).1 r laws
        (prepare_write_packet-Ready s key first base history p l env env.pended_at o) ends

  pub finish_pending_write-InOrder :
      (history : List Sent) (l : Live) (rounds : List Round)
      (r : Result (Unit {0}) WritePacketError)
      → All (λ c. IsSend c.kernel) rounds
      → InOrder s key first base history l
      → (finish_pending_write l rounds).1 ≡ some r
      → InOrder s key first base history (finish_pending_write l rounds).0
  unfolding finish_pending_write
  finish_pending_write-InOrder history l rounds r laws o ends =
      (finished-InOrder history (record { header = 0; payload = [] }) (with_pending l none)
        (finish_frame l.transport l.connection.pending_live rounds) r refl
        (finish_frame-Settles history l.connection.writer l.connection.pending_live l.transport
          rounds laws o)
        ends).0
