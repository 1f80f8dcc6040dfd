-- ===== src/SessionWriting/Sections.antt =====
-- The order of the bytes of a socket under each section of a write in crates/et-
-- server/src/session_flow_write.rs.
use et_rs.Prelude.{
  if◌then◌else◌, Bool-cases, Option-cases, length, drop, Result, ok, err, ℕ, ◌≡◌, refl, sym, ap,
  subst, ◌∙◌, inl, inr, Bool, true, false, Option, none, some, List, [], ◌∷◌, ◌++◌, append_assoc,
  arith,
}
use et_rs.Crypto.{Sodium, CryptoHandler, bump}
use et_rs.Backup.{Frame}
use et_rs.Writer.{
  WriterOutcome, buffered_only, send, ReservedWrite, BackedWriter, refuses, reservation,
  reserve_write, encrypt_reserved, commit_write,
}
use et_rs.Writer.History.{Sent, ready_to_commit}
use et_rs.Writer.Sending.{Written, commit_write_on, commit_write_off, commit_write-Written}
use et_rs.Recovery.Calls.{IoError, backpressure}
use et_rs.PendingWrite.{PendingWrite, advance, IsSend, Round, is_timed_out}
use et_rs.PendingWrite.Steps.{drop_all, Advanced, advance-Advanced}
use et_rs.LiveConnection.{
  Transport, Live, WritePacketError, before_replay, drop_pending, disconnect, with_pending,
  prepared, is_some, into_pending,
}
use et_rs.LiveConnection.Detached.{
  reserved_or_full, reserve_write_packet, committed_frame, commit_write_packet,
  finish_pending_live_detached,
}
use et_rs.LiveConnection.Order.{
  some_ne_none, stream, Orderly, flowing, broken, invalidate-Follows, drop_pending_taken,
  drop_pending_shut, drop_none, prepared-Orderly,
}
use et_rs.LiveConnection.Runs.{InOrder, disconnect-InOrder}
use et_rs.LiveConnection.Starting.{Orderly-Follows}
use et_rs.SessionWriting.{
  Phase, idle, reserved, sending, failed, after_reservation, reserve_section, send_or_done,
  commit_section, sent_section, send_section, fail_section, detach_section,
}
use et_rs.Writer
use et_rs.Recovery
use et_rs.SessionWriting.Phases.{Of, Reserves, Sends, Fails}

reserve_write_on :
    (w : BackedWriter) (header n : ℕ)
    → refuses w n ≡ false
    → reserve_write w header n ≡ (
      record w { crypto = bump w.crypto },
      some (reservation header n (bump w.crypto).nonce (bump w.crypto).base_key),
    )
unfolding reserve_write
reserve_write_on w header n room = ground arith

reserve_write_off :
    (w : BackedWriter) (header n : ℕ) → refuses w n ≡ true → reserve_write w header n ≡ (w, none)
unfolding reserve_write
reserve_write_off w header n full = ground arith

-- `reserve_write_packet` by the frame that waits.
abbrev reserve_behind :
    Live → Sent → Option PendingWrite → Live × Result ReservedWrite WritePacketError
reserve_behind l p pending =
    if is_some pending
    then (l, err (before_replay backpressure))
    else reserved_or_full l (reserve_write l.connection.writer p.header (length p.payload))

module _ (s : Sodium) (key first : List ℕ) (base : List Sent) where
  -- What holds of the connection while the lock for writes is held.
  abbrev pub InPhase : List Sent → Live → Phase → Type 0
  InPhase history l idle = InOrder s key first base history l
  InPhase history l (reserved r p) = Of (Reserves s key first base history p r) l
  InPhase history l (sending q) = Of (Sends s key first base history q) l
  InPhase history l (failed e) = Of (Fails s key first base history) l

  pub send_or_done-InPhase :
      (history : List Sent) (l : Live) (pending : Option PendingWrite)
      → l.connection.pending_live ≡ none
      → Orderly s key first base history l.connection.writer pending l.transport
      → InPhase history (send_or_done l pending).0 (send_or_done l pending).1
  send_or_done-InPhase history l none nothing o =
      subst
        (λ (q : Option PendingWrite).
          Orderly s key first base history l.connection.writer q l.transport)
        (sym nothing) o
  send_or_done-InPhase history l (some q) nothing (flowing ps on e f fits taken) = record {
    sent = ps;
    nothing = nothing;
    told = e;
    follows = f;
    fits = fits;
    stream_left = taken;
  }
  send_or_done-InPhase history l (some q) nothing (broken ps later rest off empty e f taken whole) =
      absurd (some_ne_none q empty)

  -- What a commit leaves, its frame put where frames wait.
  abbrev Commits : List Sent → Sent → Transport → ℕ → ℕ → BackedWriter → ReservedWrite → Type 0
  Commits history p t timeout now w r =
      Orderly s key first base (p ∷ history) (commit_write w r (encrypt_reserved s r p.payload)).0
        (into_pending
          (committed_frame w.connected timeout
            (commit_write w r (encrypt_reserved s r p.payload)).1)
          now)
        t

  commit-Orderly :
      (history : List Sent) (p : Sent) (w : BackedWriter) (t : Transport) (timeout now : ℕ)
      → Orderly s key first base history w none t
      → Commits history p t timeout now
          (record w { crypto = bump w.crypto })
          (reservation p.header (length p.payload) (bump w.crypto).nonce (bump w.crypto).base_key)
  unfolding committed_frame prepared
  commit-Orderly history p w t timeout now o =
      let w' : BackedWriter = record w { crypto = bump w.crypto } in
      let r : ReservedWrite =
        reservation p.header (length p.payload) (bump w.crypto).nonce (bump w.crypto).base_key in
      let frame : Frame = encrypt_reserved s r p.payload in
      let ready =
        ready_to_commit s key first history p w
          (Orderly-Follows s key first base history w none t o) in
      let how : Written s key first history p w (commit_write w' r frame).0
          (commit_write w' r frame).1 =
        commit_write-Written s key first history p w w' r refl ready ready.frame in
      let Left : BackedWriter × WriterOutcome → Type 0 = λ x.
        Orderly s key first base (p ∷ history) x.0
          (into_pending (committed_frame w.connected timeout x.1) now) t in
      let AsWritten : BackedWriter × WriterOutcome → Type 0 =
        λ x. Written s key first history p w x.0 x.1 in
      elim (Bool-cases w.connected) [
        | inl on ↦
            let runs = commit_write_on w' r frame on in
            subst Left (sym runs) (
              prepared-Orderly s key first base history p w _ (send frame) t timeout now o
                (subst AsWritten runs how))
        | inr off ↦
            let runs = commit_write_off w' r frame off in
            subst Left (sym runs) (
              prepared-Orderly s key first base history p w _ buffered_only t timeout now o
                (subst AsWritten runs how))
      ]

  pub commit_section-InPhase :
      (history : List Sent) (l : Live) (r : ReservedWrite) (p : Sent) (noted_at pended_at : ℕ)
      → InPhase history l (reserved r p)
      → InPhase
          (p ∷ history)
          (commit_section s l r p noted_at pended_at).0
          (commit_section s l r p noted_at pended_at).1
  unfolding commit_section commit_write_packet
  commit_section-InPhase history l r p noted_at pended_at h =
      let w : BackedWriter = l.connection.writer in
      let timeout : ℕ = l.connection.live_write_timeout in
      let before : BackedWriter = record w { crypto = h.before } in
      let one = commit-Orderly history p before l.transport timeout pended_at h.order in
      let two =
        subst
          (λ (c : CryptoHandler).
            Commits history p l.transport timeout pended_at (record w { crypto = c })
              (reservation p.header (length p.payload) (bump h.before).nonce
                (bump h.before).base_key))
          (sym h.moved) one in
      send_or_done-InPhase (p ∷ history)
        (commit_write_packet l r (encrypt_reserved s r p.payload) noted_at).0
        (into_pending (commit_write_packet l r (encrypt_reserved s r p.payload) noted_at).1
          pended_at)
        h.nothing
        (subst (λ (x : ReservedWrite). Commits history p l.transport timeout pended_at w x)
          (sym h.made) two)

  moved-Sends :
      (history : List Sent) (l : Live) (q q' : PendingWrite) (result : Result Bool IoError)
      (bytes : List ℕ)
      → Of (Sends s key first base history q) l
      → Advanced q q' result bytes
      → Sends s key first base history q' l.connection.writer l.connection.pending_live
          (record (l.transport) { taken = l.transport.taken ++ bytes })
  moved-Sends history l q q' result bytes h a = record {
    sent = h.sent;
    nothing = h.nothing;
    told = h.told;
    follows = h.follows;
    fits = a.in_range;
    stream_left =
        append_assoc l.transport.taken bytes (drop q'.offset q'.frame)
        ∙ ap (λ b. l.transport.taken ++ b) a.split
        ∙ h.stream_left;
  }

  -- A whole frame leaves the socket as it is, though the connection may have broken.
  whole-Sends :
      (history : List Sent) (q : PendingWrite) (w : BackedWriter) (pending : Option PendingWrite)
      (t : Transport)
      → q.offset ≡ length q.frame
      → Sends s key first base history q w pending t
      → Orderly s key first base history w pending (drop_pending (some q) t)
  whole-Sends history q w pending t done h =
      let taken : (drop_pending (some q) t).taken ++ [] ≡ stream s key first base h.sent =
        ap (λ b. b ++ []) (drop_pending_taken s key first base (some q) t)
        ∙ ap (λ b. t.taken ++ b) (sym (drop_all q.offset q.frame done))
        ∙ h.stream_left in
      subst
        (λ (x : Option PendingWrite).
          Orderly s key first base history w x (drop_pending (some q) t))
        (sym h.nothing)
        (elim (Bool-cases w.connected) [
          | inl on ↦ flowing h.sent on h.told h.follows tt taken
          | inr off ↦ broken h.sent [] [] off refl h.told h.follows taken (inl refl)
        ])

  given_up-Fails :
      (history : List Sent) (q : PendingWrite) (w : BackedWriter) (pending : Option PendingWrite)
      (t : Transport)
      → Sends s key first base history q w pending t
      → Fails s key first base history w pending (drop_pending (some q) t)
  given_up-Fails history q w pending t h = record {
    sent = h.sent;
    left = drop q.offset q.frame;
    nothing = h.nothing;
    told = h.told;
    follows = h.follows;
    stream_left =
        ap (λ b. b ++ drop q.offset q.frame) (drop_pending_taken s key first base (some q) t)
        ∙ h.stream_left;
    whole = drop_pending_shut s key first base (some q) t h.fits;
  }

  sent_section-InPhase :
      (history : List Sent) (l : Live) (q q' : PendingWrite) (waited : Option IoError)
      (result : Result Bool IoError) (bytes : List ℕ)
      → Of (Sends s key first base history q) l
      → Advanced q q' result bytes
      → InPhase history
          (sent_section l waited (q', result, bytes)).0
          (sent_section l waited (q', result, bytes)).1
  unfolding sent_section
  sent_section-InPhase history l q q' waited (ok true) bytes h a =
      whole-Sends history q' l.connection.writer l.connection.pending_live _ (a.whole refl)
        (moved-Sends history l q q' (ok true) bytes h a)
  sent_section-InPhase history l q q' waited (err e) bytes h a =
      given_up-Fails history q' l.connection.writer l.connection.pending_live _
        (moved-Sends history l q q' (err e) bytes h a)
  sent_section-InPhase history l q q' none (ok false) bytes h a =
      moved-Sends history l q q' (ok false) bytes h a
  sent_section-InPhase history l q q' (some e) (ok false) bytes h a =
      elim (Bool-cases (is_timed_out e)) [
        | inl late ↦ rw (late, sent_section) (moved-Sends history l q q' (ok false) bytes h a)
        | inr worse ↦
            rw (worse, sent_section)
              (given_up-Fails history q' l.connection.writer l.connection.pending_live _
                (moved-Sends history l q q' (ok false) bytes h a))
      ]

  pub send_section-InPhase :
      (history : List Sent) (l : Live) (q : PendingWrite) (round : Round)
      → IsSend round.kernel
      → InPhase history l (sending q)
      → InPhase history (send_section l q round).0 (send_section l q round).1
  unfolding send_section
  send_section-InPhase history l q round law h =
      sent_section-InPhase history l q (advance q round.now round.kernel).0 round.waited
        (advance q round.now round.kernel).1 (advance q round.now round.kernel).2 h
        (advance-Advanced q round.now round.kernel h.fits law)

  pub fail_section-InPhase :
      (history : List Sent) (l : Live) (e : IoError)
      → InPhase history l (failed e)
      → InPhase history (fail_section l e).0 (fail_section l e).1
  unfolding fail_section disconnect Recovery.disconnect Writer.invalidate
  fail_section-InPhase history l e h =
      subst
        (λ (u : Transport).
          Orderly s key first base history (Writer.invalidate l.connection.writer) none u)
        (sym (drop_none s key first base l.connection.pending_live l.transport h.nothing))
        (broken h.sent [] h.left refl refl h.told
          (invalidate-Follows s key first base history l.connection.writer h.follows) h.stream_left
          h.whole)

  pub detach_section-InPhase :
      (history : List Sent) (hard_stopped : Bool) (l : Live)
      → InOrder s key first base history l
      → InPhase history (detach_section hard_stopped l).0 (detach_section hard_stopped l).1
  unfolding detach_section finish_pending_live_detached
  detach_section-InPhase history true l o = o
  detach_section-InPhase history false l o =
      send_or_done-InPhase history (with_pending l none) l.connection.pending_live refl o

  after_reservation-InPhase :
      (history : List Sent) (p : Sent) (l : Live) (r : Result ReservedWrite WritePacketError)
      → ((made : ReservedWrite) → r ≡ ok made → Of (Reserves s key first base history p made) l)
      → ((e : WritePacketError) → r ≡ err e → InOrder s key first base history l)
      → InPhase history (after_reservation p (l, r)).0 (after_reservation p (l, r)).1
  unfolding after_reservation
  after_reservation-InPhase history p l (ok made) good bad = good made refl
  after_reservation-InPhase history p l (err e) good bad =
      disconnect-InOrder s key first base history l (bad e refl)

  reserving-InPhase :
      (history : List Sent) (p : Sent) (l : Live)
      → l.connection.pending_live ≡ none
      → InOrder s key first base history l
      → InPhase history
          (after_reservation p
            (reserved_or_full l (reserve_write l.connection.writer p.header (length p.payload)))).0
          (after_reservation p
            (reserved_or_full l (reserve_write l.connection.writer p.header (length p.payload)))).1
  unfolding reserved_or_full
  reserving-InPhase history p l nothing o =
      let w : BackedWriter = l.connection.writer in
      let Left : BackedWriter × Option ReservedWrite → Type 0 = λ x.
        InPhase history (after_reservation p (reserved_or_full l x)).0
          (after_reservation p (reserved_or_full l x)).1 in
      elim (Bool-cases (refuses w (length p.payload))) [
        | inl full ↦ subst Left (sym (reserve_write_off w p.header (length p.payload) full)) (
            after_reservation-InPhase history p l (err (before_replay backpressure))
              (λ made e. absurd (ground arith)) (λ e x. o))
        | inr room ↦ subst Left (sym (reserve_write_on w p.header (length p.payload) room)) (
            unfold after_reservation in
            record {
              before = w.crypto;
              nothing = nothing;
              moved = refl;
              made = refl;
              order =
                  subst
                    (λ (q : Option PendingWrite). Orderly s key first base history w q l.transport)
                    nothing o;
            })
      ]

  pub reserve_section-InPhase :
      (history : List Sent) (hard_stopped : Bool) (l : Live) (p : Sent)
      → InOrder s key first base history l
      → InPhase history (reserve_section hard_stopped l p).0 (reserve_section hard_stopped l p).1
  unfolding reserve_section reserve_write_packet
  reserve_section-InPhase history true l p o = o
  reserve_section-InPhase history false l p o =
      let Left : Option PendingWrite → Type 0 = λ q.
        InPhase history (after_reservation p (reserve_behind l p q)).0
          (after_reservation p (reserve_behind l p q)).1 in
      elim (Option-cases l.connection.pending_live) [
        | inl nothing ↦ subst Left (sym nothing) (reserving-InPhase history p l nothing o)
        | inr (waiting, some_waits) ↦ subst Left (sym some_waits) (
            after_reservation-InPhase history p l (err (before_replay backpressure))
              (λ made e. absurd (ground arith)) (λ e x. o))
      ]
