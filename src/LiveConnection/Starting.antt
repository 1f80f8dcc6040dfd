-- ===== src/LiveConnection/Starting.antt =====
-- The order of the bytes of a socket under the calls of crates/et-net/src/connection.rs that admit
-- a packet to replay.
use et_rs.Prelude.{
  if◌then◌else◌, Bool-cases, Option-cases, length, Result, ok, err, ℕ, ◌≡◌, refl, sym, subst, inl,
  inr, Option, none, List, ◌∷◌,
}
use et_rs.Crypto.{Sodium, EncryptError}
use et_rs.Recovery.Calls.{backpressure}
use et_rs.Writer.{WriterOutcome, BackedWriter}
use et_rs.Writer.History.{Sent, Follows}
use et_rs.Writer.Sending.{write_packet-Written}
use et_rs.PendingWrite.{PendingWrite}
use et_rs.LiveConnection.{
  Transport, Live, WritePacketError, before_replay, replay_owned, Probe, end_of_stream, has_bytes,
  would_block, gone, probe_error, Env, drop_pending, disconnect, with_pending, probed,
  refresh_connectivity, PreparedWrite, prepared, written, write_output, is_some,
  disconnect_on_error, prepare_write_packet_unprobed, prepare_write_packet, into_pending,
}
use et_rs.LiveConnection.Order.{
  Orderly, flowing, broken, disconnect-Orderly, Prepares, prepared-Orderly,
}
use et_rs.Writer
use et_rs.Recovery
use et_rs.LiveConnection.Runs.{InOrder, disconnect-InOrder}

-- `prepare_write_packet` by the frame that waits.
abbrev refuse_or :
    Sodium → Live → Env → Sent → Option PendingWrite → Live × Result PreparedWrite WritePacketError
refuse_or s l env p pending =
    if is_some pending
    then (l, err (before_replay backpressure))
    else write_output s (disconnect_on_error (refresh_connectivity l env.probe)) p.header p.payload
        env.noted_at

abbrev refuse_or_write :
    Sodium → Live → Env → Sent → Option PendingWrite → Live × Result PreparedWrite WritePacketError
refuse_or_write s l env p pending =
    if is_some pending
    then (l, err (before_replay backpressure))
    else write_output s l p.header p.payload env.noted_at

module _ (s : Sodium) (key first : List ℕ) (base : List Sent) where
  pub Orderly-Follows :
      (history : List Sent) (w : BackedWriter) (pending : Option PendingWrite) (t : Transport)
      → Orderly s key first base history w pending t
      → Follows s key first history w
  Orderly-Follows history w pending t (flowing ps on e f fits taken) = f
  Orderly-Follows history w pending t (broken ps later rest off empty e f taken whole) = f

  -- What a preparation leaves: a frame that is put in the place of the one that waits, or none.
  abbrev pub Ready : List Sent → Sent → ℕ → Live → Result PreparedWrite WritePacketError → Type 0
  Ready history p now l (ok frame) =
      InOrder s key first base (p ∷ history) (with_pending l (into_pending frame now))
      × (l.connection.pending_live ≡ none)
  Ready history p now l (err (before_replay e)) = InOrder s key first base history l
  Ready history p now l (err (replay_owned e)) = ⊥

  ready :
      (history : List Sent) (p : Sent) (now : ℕ) (l : Live)
      (r : Result PreparedWrite WritePacketError)
      → l.connection.pending_live ≡ none
      → Prepares s key first base history p l.connection.writer l.transport now r
      → Ready history p now l r
  ready history p now l (ok frame) empty o = (o, empty)
  ready history p now l (err (before_replay e)) empty o =
      subst
        (λ (q : Option PendingWrite).
          Orderly s key first base history l.connection.writer q l.transport)
        (sym empty) o
  ready history p now l (err (replay_owned e)) empty o = o

  write_output-Ready :
      (history : List Sent) (p : Sent) (l : Live) (noted now : ℕ)
      → l.connection.pending_live ≡ none
      → InOrder s key first base history l
      → Ready history p now
          (write_output s l p.header p.payload noted).0
          (write_output s l p.header p.payload noted).1
  unfolding write_output written
  write_output-Ready history p l noted now empty o =
      let w : BackedWriter = l.connection.writer in
      let alone : Orderly s key first base history w none l.transport =
        subst (λ (q : Option PendingWrite). Orderly s key first base history w q l.transport) empty
          o in
      let (w', outcome, made, how) =
        write_packet-Written s key first history p w
          (Orderly-Follows history w none l.transport alone) in
      subst
        (λ (x : BackedWriter × Result WriterOutcome EncryptError).
          Ready history p now (written l p.header (length p.payload) noted x).0
            (written l p.header (length p.payload) noted x).1)
        (sym made)
        (ready history p now (written l p.header (length p.payload) noted (w', ok outcome)).0
          (prepared w.connected l.connection.live_write_timeout outcome) empty
          (prepared-Orderly s key first base history p w w' outcome l.transport
            l.connection.live_write_timeout now alone how))

  -- Nothing waits when the probe finds the peer gone.
  invalidated :
      (history : List Sent) (w : BackedWriter) (pending : Option PendingWrite) (t : Transport)
      → pending ≡ none
      → Orderly s key first base history w pending t
      → Orderly s key first base history (Writer.invalidate w) pending t
  unfolding drop_pending
  invalidated history w pending t empty o =
      subst
        (λ (q : Option PendingWrite). Orderly s key first base history (Writer.invalidate w) q t)
        (sym empty)
        (disconnect-Orderly s key first base history w none t
          (subst (λ (q : Option PendingWrite). Orderly s key first base history w q t) empty o))

  twice :
      (history : List Sent) (l : Live)
      → InOrder s key first base history l
      → InOrder s key first base history (disconnect (disconnect l))
  twice history l o =
      disconnect-InOrder s key first base history (disconnect l)
        (disconnect-InOrder s key first base history l o)

  probed-InOrder :
      (history : List Sent) (l : Live) (probe : Probe)
      → l.connection.pending_live ≡ none
      → InOrder s key first base history l
      → InOrder s key first base history (disconnect_on_error (probed l probe))
        × ((disconnect_on_error (probed l probe)).connection.pending_live ≡ none)
  unfolding probed disconnect_on_error disconnect Recovery.disconnect
  probed-InOrder history l end_of_stream empty o =
      (invalidated history l.connection.writer l.connection.pending_live l.transport empty o, empty)
  probed-InOrder history l has_bytes empty o = (o, empty)
  probed-InOrder history l would_block empty o = (o, empty)
  probed-InOrder history l gone empty o =
      (invalidated history l.connection.writer l.connection.pending_live l.transport empty o, empty)
  probed-InOrder history l (probe_error e) empty o = (twice history l o, refl)

  refreshed-InOrder :
      (history : List Sent) (l : Live) (probe : Probe)
      → l.connection.pending_live ≡ none
      → InOrder s key first base history l
      → InOrder s key first base history (disconnect_on_error (refresh_connectivity l probe))
        × ((disconnect_on_error (refresh_connectivity l probe)).connection.pending_live ≡ none)
  unfolding refresh_connectivity disconnect_on_error
  refreshed-InOrder history l probe empty o = elim (Bool-cases l.connection.writer.connected) [
    | inl on ↦
        subst
          (λ b.
            InOrder s key first base history
              (disconnect_on_error (if b then probed l probe else (l, ok tt)))
            × ((disconnect_on_error
                  (if b then probed l probe else (l, ok tt))).connection.pending_live
                ≡ none))
          (sym on) (probed-InOrder history l probe empty o)
    | inr off ↦
        subst
          (λ b.
            InOrder s key first base history
              (disconnect_on_error (if b then probed l probe else (l, ok tt)))
            × ((disconnect_on_error
                  (if b then probed l probe else (l, ok tt))).connection.pending_live
                ≡ none))
          (sym off) (o, empty)
  ]

  pub prepare_write_packet-Ready :
      (history : List Sent) (p : Sent) (l : Live) (env : Env) (now : ℕ)
      → InOrder s key first base history l
      → Ready history p now
          (prepare_write_packet s l env p.header p.payload).0
          (prepare_write_packet s l env p.header p.payload).1
  unfolding prepare_write_packet
  prepare_write_packet-Ready history p l env now o = elim (Option-cases l.connection.pending_live) [
    | inl empty ↦
        let (o', empty') = refreshed-InOrder history l env.probe empty o in
        subst
          (λ (q : Option PendingWrite).
            Ready history p now (refuse_or s l env p q).0 (refuse_or s l env p q).1)
          (sym empty)
          (write_output-Ready history p (disconnect_on_error (refresh_connectivity l env.probe))
            env.noted_at now empty' o')
    | inr (waiting, some_waits) ↦
        subst
          (λ (q : Option PendingWrite).
            Ready history p now (refuse_or s l env p q).0 (refuse_or s l env p q).1)
          (sym some_waits) o
  ]

  pub prepare_write_packet_unprobed-Ready :
      (history : List Sent) (p : Sent) (l : Live) (env : Env) (now : ℕ)
      → InOrder s key first base history l
      → Ready history p now
          (prepare_write_packet_unprobed s l env p.header p.payload).0
          (prepare_write_packet_unprobed s l env p.header p.payload).1
  unfolding prepare_write_packet_unprobed
  prepare_write_packet_unprobed-Ready history p l env now o =
      elim (Option-cases l.connection.pending_live) [
        | inl empty ↦
            subst
              (λ (q : Option PendingWrite).
                Ready history p now (refuse_or_write s l env p q).0 (refuse_or_write s l env p q).1)
              (sym empty) (write_output-Ready history p l env.noted_at now empty o)
        | inr (waiting, some_waits) ↦
            subst
              (λ (q : Option PendingWrite).
                Ready history p now (refuse_or_write s l env p q).0 (refuse_or_write s l env p q).1)
              (sym some_waits) o
      ]
