-- ===== src/LiveConnection/Runs.antt =====
-- The order of the bytes of a socket under the steps of a frame in crates/et-net/src/connection.rs.
use et_rs.Prelude.{
  leb, Bool-cases, length, Result, ok, err, ℕ, ◌≤◌, refl, inl, inr, Bool, true, false, Option, none,
  some, List, ◌∷◌,
}
use et_rs.Crypto.{Sodium}
use et_rs.Recovery.Calls.{IoError}
use et_rs.Writer.{BackedWriter}
use et_rs.Writer.History.{Sent}
use et_rs.PendingWrite.{InboundMark, PendingWrite, defer_while_peer_talks, advance, IsSend}
use et_rs.PendingWrite.Steps.{Advanced, advance-Advanced}
use et_rs.LiveConnection.{
  Transport, Live, WritePacketError, before_replay, replay_owned, Env, disconnect, deferred,
  advanced, advance_pending, advance_write,
}
use et_rs.LiveConnection.Order.{
  some_ne_none, Orderly, flowing, broken, disconnect-Orderly, advance-Orderly, whole-Orderly,
  retimed-Orderly,
}
use et_rs.Recovery

-- The packet is in the history unless the call says that it was refused before.
abbrev pub owned {ℓ} : {A : Type ℓ} → Result A WritePacketError → Sent → List Sent → List Sent
owned (ok a) p history = p ∷ history
owned (err (replay_owned e)) p history = p ∷ history
owned (err (before_replay e)) p history = history

module _ (s : Sodium) (key first : List ℕ) (base : List Sent) where
  abbrev pub InOrder : List Sent → Live → Type 0
  InOrder history l =
      Orderly s key first base history l.connection.writer l.connection.pending_live l.transport

  pub disconnect-InOrder :
      (history : List Sent) (l : Live) → InOrder history l → InOrder history (disconnect l)
  unfolding disconnect Recovery.disconnect
  disconnect-InOrder history l o =
      disconnect-Orderly s key first base history l.connection.writer l.connection.pending_live
        l.transport o

  advanced-InOrder :
      (history : List Sent) (l : Live) (p p' : PendingWrite) (result : Result Bool IoError)
      (bytes : List ℕ)
      → Orderly s key first base history l.connection.writer (some p) l.transport
      → Advanced p p' result bytes
      → InOrder history (advanced l (p', result, bytes)).0
  unfolding advanced
  advanced-InOrder history l p p' (ok true) bytes o a =
      whole-Orderly s key first base history l.connection.writer p' _ (a.whole refl) (
        advance-Orderly s key first base history l.connection.writer p p' l.transport (ok true)
          bytes o a)
  advanced-InOrder history l p p' (ok false) bytes o a =
      advance-Orderly s key first base history l.connection.writer p p' l.transport (ok false) bytes
        o a
  advanced-InOrder history l p p' (err e) bytes o a = disconnect-InOrder history _ (
      advance-Orderly s key first base history l.connection.writer p p' l.transport (err e) bytes o
        a)

  pub in_range :
      (history : List Sent) (w : BackedWriter) (p : PendingWrite) (t : Transport)
      → Orderly s key first base history w (some p) t
      → p.offset ≤ length p.frame
  in_range history w p t (flowing ps on e f fits taken) = fits
  in_range history w p t (broken ps later rest off empty e f taken whole) =
      absurd (some_ne_none p empty)

  advance_pending-InOrder :
      (history : List Sent) (l : Live) (pending : Option PendingWrite) (env : Env)
      → IsSend env.kernel
      → Orderly s key first base history l.connection.writer pending l.transport
      → InOrder history (advance_pending l pending env).0
  unfolding advance_pending
  advance_pending-InOrder history l none env law o = o
  advance_pending-InOrder history l (some p) env law o =
      let step =
        advance-Advanced p env.sent_at env.kernel
          (in_range history l.connection.writer p l.transport o) law in
      advanced-InOrder history l p (advance p env.sent_at env.kernel).0
        (advance p env.sent_at env.kernel).1 (advance p env.sent_at env.kernel).2 o step

  deferred-Orderly :
      (history : List Sent) (w : BackedWriter) (t : Transport) (silence : Option ℕ)
      (pending : Option PendingWrite) (inbound : InboundMark) (now timeout : ℕ)
      → Orderly s key first base history w pending t
      → Orderly s key first base history w (deferred silence pending inbound now timeout) t
  unfolding deferred defer_while_peer_talks
  deferred-Orderly history w t none pending inbound now timeout o = o
  deferred-Orderly history w t (some silence) none inbound now timeout o = o
  deferred-Orderly history w t (some silence) (some p) inbound now timeout o =
      elim (Bool-cases (leb p.deadline now)) [
        | inl late ↦ rw late (retimed-Orderly s key first base history w p _ t refl refl o)
        | inr early ↦ rw early o
      ]

  pub advance_write-InOrder :
      (history : List Sent) (l : Live) (env : Env)
      → IsSend env.kernel
      → InOrder history l
      → InOrder history (advance_write l env).0
  unfolding advance_write
  advance_write-InOrder history l env law o = advance_pending-InOrder history l _ env law (
      deferred-Orderly history l.connection.writer l.transport l.connection.peer_silence
        l.connection.pending_live (l.connection.reader.sequence, env.unread_bytes) env.looked_at
        l.connection.live_write_timeout o)
