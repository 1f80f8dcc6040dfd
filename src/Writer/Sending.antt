-- ===== src/Writer/Sending.antt =====
-- What `write_packet` of crates/et-core/src/backed_writer.rs gives to send.
use et_rs.Prelude.{
  ltb, if◌then◌else◌, Bool-cases, length, take, drop, ok, ℤ, pos, negsuc, ℕ, suc, ◌+◌, ◌-◌, min,
  ◌≡◌, refl, sym, ap, subst, ◌∙◌, inl, inr, true, false, ◌||◌, not, some, List, ◌∷◌, arith,
}
use et_rs.Crypto.{Sodium, bump}
use et_rs.Crypto.Nonce.{bumps}
use et_rs.Backup.{Frame, wire_sum, slack_keep, over_keep}
use et_rs.Writer.{
  WriterOutcome, skipped, buffered_only, send, ReservedWrite, BackedWriter, refuses, reservation,
  reserve_write, encrypt_reserved, trim, store, commit_connected, commit_disconnected, commit_write,
  write_packet, acknowledge,
}
use et_rs.Writer.History.{
  Sent, wire_frame, Follows, trim-Follows, Reserved, commit_connected-Follows,
  commit_disconnected-Follows, ready_to_commit,
}

-- What a write of `p` behind the history `sent` comes to.
pub data Written (s : Sodium) (key first : List ℕ) (sent : List Sent) (p : Sent) (w : BackedWriter)
    : BackedWriter → WriterOutcome → Type 0 where
  left_out :
      (w' : BackedWriter) → w.connected ≡ false → w' ≡ w → Written s key first sent p w w' skipped
  held :
      (w' : BackedWriter)
      → w.connected ≡ false
      → w'.connected ≡ false
      → Follows s key first (p ∷ sent) w'
      → Written s key first sent p w w' buffered_only
  sent_out :
      (w' : BackedWriter) (frame : Frame)
      → w.connected ≡ true
      → w'.connected ≡ true
      → frame ≡ wire_frame s key (bumps (suc (length sent)) first) p
      → Follows s key first (p ∷ sent) w'
      → Written s key first sent p w w' (send frame)

refused_offline : (w : BackedWriter) (n : ℕ) → refuses w n ≡ true → w.connected ≡ false
unfolding refuses
refused_offline w n h = ground arith

pub commit_write_on :
    (w : BackedWriter) (r : ReservedWrite) (frame : Frame)
    → w.connected ≡ true
    → commit_write w r frame ≡ (commit_connected w r frame, send frame)
unfolding commit_write
commit_write_on w r frame on =
    ap
      (λ b.
        if b
        then (commit_connected w r frame, send frame)
        else (commit_disconnected w r frame, buffered_only))
      on

pub commit_write_off :
    (w : BackedWriter) (r : ReservedWrite) (frame : Frame)
    → w.connected ≡ false
    → commit_write w r frame ≡ (commit_disconnected w r frame, buffered_only)
unfolding commit_write
commit_write_off w r frame off =
    ap
      (λ b.
        if b
        then (commit_connected w r frame, send frame)
        else (commit_disconnected w r frame, buffered_only))
      off

commit_connected_keeps :
    (w : BackedWriter) (r : ReservedWrite) (frame : Frame)
    → (commit_connected w r frame).connected ≡ w.connected
unfolding commit_connected trim store
commit_connected_keeps w r frame = refl

commit_disconnected_keeps :
    (w : BackedWriter) (r : ReservedWrite) (frame : Frame)
    → (commit_disconnected w r frame).connected ≡ w.connected
unfolding commit_disconnected store
commit_disconnected_keeps w r frame = refl

module _ (s : Sodium) (key first : List ℕ) (sent : List Sent) (p : Sent) where
  pub commit_write-Written :
      (w w' : BackedWriter) (r : ReservedWrite)
      → w'.connected ≡ w.connected
      → Reserved s key first sent p w' r
      → encrypt_reserved s r p.payload ≡ wire_frame s key (bumps (suc (length sent)) first) p
      → Written s key first sent p w
          (commit_write w' r (encrypt_reserved s r p.payload)).0
          (commit_write w' r (encrypt_reserved s r p.payload)).1
  commit_write-Written w w' r same f frame = elim (Bool-cases w'.connected) [
    | inl on ↦
        subst (λ (c : BackedWriter × WriterOutcome). Written s key first sent p w c.0 c.1)
          (sym (commit_write_on w' r (encrypt_reserved s r p.payload) on))
          (sent_out _ _ (sym same ∙ on) (commit_connected_keeps w' r _ ∙ on) frame
            (commit_connected-Follows s key first sent p w' r f))
    | inr off ↦
        subst (λ (c : BackedWriter × WriterOutcome). Written s key first sent p w c.0 c.1)
          (sym (commit_write_off w' r (encrypt_reserved s r p.payload) off))
          (held _ (sym same ∙ off) (commit_disconnected_keeps w' r _ ∙ off)
            (commit_disconnected-Follows s key first sent p w' r f))
  ]

  -- A connected writer sends the frame of the packet; another one only keeps it, or leaves it out.
  pub write_packet-Written :
      (w : BackedWriter)
      → Follows s key first sent w
      → (w' : BackedWriter) × (outcome : WriterOutcome) × (write_packet s w p.header p.payload
          ≡ (w', ok outcome))
        × Written s key first sent p w w' outcome
  unfolding write_packet reserve_write
  write_packet-Written w f = elim (Bool-cases (refuses w (length p.payload))) [
    | inl full ↦
        (w, skipped, ground arith, left_out w (refused_offline w (length p.payload) full) refl)
    | inr room ↦
        let r : ReservedWrite =
          reservation p.header (length p.payload) (bump w.crypto).nonce (bump w.crypto).base_key in
        let w' : BackedWriter = record w { crypto = bump w.crypto } in
        let committed : BackedWriter × WriterOutcome =
          commit_write w' r (encrypt_reserved s r p.payload) in
        let ready = ready_to_commit s key first sent p w f in
        (committed.0, committed.1, ground arith, commit_write-Written w w' r refl ready ready.frame)
  ]

abbrev pub marked : BackedWriter → ℕ → BackedWriter
marked w n =
    let unacknowledged = w.sequence - n in
    let kept = min unacknowledged (length w.backup) in
    let keep = kept + slack_keep 0 0 (drop kept w.backup) in
    trim (over_keep keep) (record w {
      acknowledged = some n;
      unacknowledged_bytes = wire_sum (take unacknowledged w.backup);
    })

-- An acknowledgement forgets old frames, and what is left is still the newest.
pub acknowledge-Follows :
    (s : Sodium) (key first : List ℕ) (sent : List Sent) (w : BackedWriter) (sequence : ℤ)
    → Follows s key first sent w
    → Follows s key first sent (acknowledge w sequence)
      × ((acknowledge w sequence).connected ≡ w.connected)
unfolding acknowledge
acknowledge-Follows s key first sent w (negsuc n) f = (f, refl)
acknowledge-Follows s key first sent w (pos n) f =
    elim (Bool-cases (not w.connected || ltb w.sequence n)) [
      | inl ignored ↦
          subst
            (λ b.
              Follows s key first sent (if b then w else marked w n)
              × ((if b then w else marked w n).connected ≡ w.connected))
            (sym ignored) (f, refl)
      | inr taken ↦
          subst
            (λ b.
              Follows s key first sent (if b then w else marked w n)
              × ((if b then w else marked w n).connected ≡ w.connected))
            (sym taken)
            (
              trim-Follows s key first _ sent _ (record {
                counter = f.counter;
                nonce = f.nonce;
                base_key = f.base_key;
                newest = f.newest;
              }),
              unfold trim in refl,
            )
    ]
