-- ===== src/Writer/History.antt =====
-- A `BackedWriter` of crates/et-core/src/backed_writer.rs against what it stands for: the list of
-- all packets written in this epoch, the newest first, each sealed under its own nonce.
use et_rs.Prelude.{
  length, take, take-take, be_bytes, ℕ, suc, ◌+◌, ◌%◌, ◌^◌, ◌≡◌, ap, ap₂, ◌∙◌, Bool, List, [], ◌∷◌,
  ◌++◌, append_assoc, arith,
}
use et_rs.Crypto.{mac_len, Sodium, bump_nonce, bump}
use et_rs.Crypto.Nonce.{bumps}
use et_rs.Backup.{Frame, over_hard_cap}
use et_rs.Backup.Trim.{trim_loop-Trimmed}
use et_rs.Writer.{
  ReservedWrite, BackedWriter, reservation, encrypt_reserved, trim, store, commit_connected,
  commit_disconnected,
}

-- A packet that was written: its header and its payload.
pub record Sent : Type 0 where
  pub header : ℕ
  pub payload : List ℕ

-- The bytes behind the length prefix, and the frame with it.
abbrev pub wire_body : Sodium → List ℕ → List ℕ → Sent → List ℕ
wire_body s key nonce p = 1 ∷ p.header ∷ s.seal key nonce p.payload

abbrev pub wire_frame : Sodium → List ℕ → List ℕ → Sent → Frame
wire_frame s key nonce p =
    be_bytes 4 ((2 + length p.payload + mac_len) % 2 ^ 32) ++ wire_body s key nonce p

-- The frames of a history: packet number `n` is sealed after `n` calls of the counter.
abbrev pub frames : Sodium → List ℕ → List ℕ → List Sent → List Frame
frames s key first [] = []
frames s key first (p ∷ sent) =
    wire_frame s key (bumps (suc (length sent)) first) p ∷ frames s key first sent

pub record Follows (s : Sodium) (key first : List ℕ) (sent : List Sent) (w : BackedWriter)
    : Type 0 where
  pub counter : w.sequence ≡ length sent
  pub nonce : w.crypto.nonce ≡ bumps (length sent) first
  pub base_key : w.crypto.base_key ≡ key
  pub newest : w.backup ≡ take (length w.backup) (frames s key first sent)

module _ (s : Sodium) (key first : List ℕ) where
  pub trim-Follows :
      (test : ℕ → ℕ → Bool) (sent : List Sent) (w : BackedWriter)
      → Follows s key first sent w
      → Follows s key first sent (trim test w)
  unfolding trim
  trim-Follows test sent w f =
      let t = trim_loop-Trimmed (length w.backup) test w.backup w.backup_size (omega arith) in
      record {
        counter = f.counter;
        nonce = f.nonce;
        base_key = f.base_key;
        newest =
            t.newest
            ∙ ap (take (length (trim test w).backup)) f.newest
            ∙ take-take (length (trim test w).backup) (length w.backup) (frames s key first sent)
                t.shorter;
      }

  -- A writer that has moved its counter for the packet `p`, and stores its frame.
  pub record Reserved (sent : List Sent) (p : Sent) (w : BackedWriter) (r : ReservedWrite)
      : Type 0 where
    counter : w.sequence ≡ length sent
    nonce : w.crypto.nonce ≡ bumps (suc (length sent)) first
    base_key : w.crypto.base_key ≡ key
    newest : w.backup ≡ take (length w.backup) (frames s key first sent)
    pub frame :
        encrypt_reserved s r p.payload ≡ wire_frame s key (bumps (suc (length sent)) first) p

  stored-Follows :
      (sent : List Sent) (p : Sent) (w : BackedWriter) (n : ℕ) (r : ReservedWrite)
      → Reserved sent p w r
      → Follows s key first (p ∷ sent) (store w n (encrypt_reserved s r p.payload))
  unfolding store
  stored-Follows sent p w n r f = record {
    counter = omega (arith, f.counter);
    nonce = f.nonce;
    base_key = f.base_key;
    newest = ap₂ ◌∷◌ f.frame f.newest;
  }

  pub commit_connected-Follows :
      (sent : List Sent) (p : Sent) (w : BackedWriter) (r : ReservedWrite)
      → Reserved sent p w r
      → Follows s key first (p ∷ sent) (commit_connected w r (encrypt_reserved s r p.payload))
  unfolding commit_connected
  commit_connected-Follows sent p w r f =
      trim-Follows over_hard_cap (p ∷ sent) _
        (trim-Follows _ (p ∷ sent) _ (stored-Follows sent p w r.packet_wire_len r f))

  pub commit_disconnected-Follows :
      (sent : List Sent) (p : Sent) (w : BackedWriter) (r : ReservedWrite)
      → Reserved sent p w r
      → Follows s key first (p ∷ sent) (commit_disconnected w r (encrypt_reserved s r p.payload))
  unfolding commit_disconnected
  commit_disconnected-Follows sent p w r f =
      let stored = stored-Follows sent p w r.packet_wire_len r f in
      record {
        counter = stored.counter;
        nonce = stored.nonce;
        base_key = stored.base_key;
        newest = stored.newest;
      }

  -- The state after a reservation, written out.
  pub ready_to_commit :
      (sent : List Sent) (p : Sent) (w : BackedWriter)
      → Follows s key first sent w
      → Reserved sent p
          (record w { crypto = bump w.crypto })
          (reservation p.header (length p.payload) (bump w.crypto).nonce (bump w.crypto).base_key)
  unfolding encrypt_reserved bumps bump reservation
  ready_to_commit sent p w f = record {
    counter = f.counter;
    nonce = ap bump_nonce f.nonce;
    base_key = f.base_key;
    newest = f.newest;
    frame =
        append_assoc (be_bytes 4 ((2 + length p.payload + mac_len) % 2 ^ 32)) (1 ∷ p.header ∷ [])
          (s.seal w.crypto.base_key (bump_nonce w.crypto.nonce) p.payload)
        ∙ ap₂ (λ k n. wire_frame s k n p) f.base_key (ap bump_nonce f.nonce);
  }
