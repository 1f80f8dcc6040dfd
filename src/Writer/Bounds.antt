-- ===== src/Writer/Bounds.antt =====
-- The caps of crates/et-core/src/backed_writer.rs on the replay memory of a session.
use et_rs.Prelude.{
  ltb, Bool-cases, length, length-append, ok, ℤ, pos, negsuc, be_bytes, length-be_bytes, ℕ, ◌+◌,
  ◌%◌, ◌^◌, ◌≤◌, ◌≡◌, refl, ap, inl, inr, Bool, true, false, ◌||◌, not, List, [], ◌∷◌, ◌++◌, arith,
}
use et_rs.Crypto.{mac_len, Sodium, IsSodium, CryptoHandler, bump}
use et_rs.Backup.{
  max_backup_bytes, disconnect_buffer_bytes, max_recovery_backup_bytes, max_disconnect_packets,
  Frame, wire_sum, trim_loop, over_hard_cap, over_hard_bytes,
}
use et_rs.Backup.Trim.{wire_sum-take-le, trim_loop-Trimmed}
use et_rs.Writer.{
  skipped, ReservedWrite, BackedWriter, new, refuses, reservation, reserve_write, encrypt_reserved,
  trim, store, commit_connected, commit_disconnected, commit_write, write_packet, acknowledge,
  revive, invalidate,
}
use et_rs.Writer.Invariant.{
  IsValid, trim-IsValid, store-IsValid, commit_connected-IsValid, commit_disconnected-IsValid,
  revive-IsValid, new-IsValid,
}

-- The bound on held bytes is tested without the tag and counted with it, so it may be passed by
-- the length of one tag.
pub record IsBounded (w : BackedWriter) : Type 0 where
  pub valid : IsValid w
  pub recovery : w.backup_size ≤ max_recovery_backup_bytes
  pub live : w.connected ≡ true → w.backup_size ≤ max_backup_bytes
  pub held : w.disconnected_bytes ≤ disconnect_buffer_bytes + mac_len
  pub held_packets : w.disconnected_packets ≤ max_disconnect_packets

-- A trimming loop never makes the backup larger, and the byte cap holds after its loop.
trim_size :
    (test : ℕ → ℕ → Bool) (w : BackedWriter)
    → IsValid w
    → ((size len : ℕ) → test size len ≡ false → size ≤ max_backup_bytes)
    → (trim test w).backup_size ≤ max_backup_bytes
unfolding trim
trim_size test w v cap =
    let t = trim_loop-Trimmed (length w.backup) test w.backup w.backup_size (omega arith) in
    elim t.finished [
      | inl stop ↦ cap _ _ stop
      | inr none_left ↦ omega (arith, t.in_step v.in_step, ap wire_sum none_left)
    ]

commit_connected-IsBounded :
    (w : BackedWriter) (reserved : ReservedWrite) (frame : Frame)
    → length frame ≡ reserved.packet_wire_len + 4
    → IsBounded w
    → IsBounded (commit_connected w reserved frame)
commit_connected-IsBounded w reserved frame size b = record {
  valid = connected_valid;
  recovery = omega (arith, cap);
  live = λ _. cap;
  held = unfold commit_connected trim store in b.held;
  held_packets = unfold commit_connected trim store in b.held_packets;
}
  where
    connected_valid : IsValid (commit_connected w reserved frame)
    connected_valid = commit_connected-IsValid w reserved frame size b.valid

    cap : (commit_connected w reserved frame).backup_size ≤ max_backup_bytes
    cap =
        unfold commit_connected in
        trim_size over_hard_cap _
          (trim-IsValid _ _ (store-IsValid w reserved.packet_wire_len frame size b.valid))
          (λ s n h. ground arith)

-- A frame that is not refused fits the limits on what is held.
commit_disconnected-IsBounded :
    (w : BackedWriter) (reserved : ReservedWrite) (frame : Frame) (payload_len : ℕ)
    → length frame ≡ reserved.packet_wire_len + 4
    → reserved.packet_wire_len ≡ 2 + payload_len + mac_len
    → w.connected ≡ false
    → refuses w payload_len ≡ false
    → IsBounded w
    → IsBounded (commit_disconnected w reserved frame)
unfolding commit_disconnected store refuses
commit_disconnected-IsBounded w reserved frame payload_len size wire off room b = record {
  valid = commit_disconnected-IsValid w reserved frame size b.valid;
  recovery = ground arith;
  live = λ on. absurd (ground arith);
  held = ground arith;
  held_packets = ground arith;
}

trim-IsBounded : (test : ℕ → ℕ → Bool) (w : BackedWriter) → IsBounded w → IsBounded (trim test w)
trim-IsBounded test w b =
    let shrunk : (trim test w).backup_size ≤ w.backup_size =
      unfold trim in
      let t = trim_loop-Trimmed (length w.backup) test w.backup w.backup_size (omega arith) in
      omega (
        arith,
        t.in_step b.valid.in_step,
        b.valid.in_step,
        ap wire_sum t.newest,
        wire_sum-take-le (length (trim_loop (length w.backup) test w.backup w.backup_size).0)
            w.backup,
      ) in
    record {
      valid = trim-IsValid test w b.valid;
      recovery = omega (arith, b.recovery, shrunk);
      live = unfold trim in λ on. omega (arith, b.live on, shrunk);
      held = unfold trim in b.held;
      held_packets = unfold trim in b.held_packets;
    }

pub acknowledge-IsBounded : (w : BackedWriter) (a : ℤ) → IsBounded w → IsBounded (acknowledge w a)
unfolding acknowledge
acknowledge-IsBounded w (negsuc n) b = b
acknowledge-IsBounded w (pos a) b = elim (Bool-cases (not w.connected || ltb w.sequence a)) [
  | inl ignored ↦ simp ignored b
  | inr taken ↦ simp taken (
      trim-IsBounded _ _ (record {
        valid = record {
          in_step = b.valid.in_step;
          counted = b.valid.counted;
          acked = (ground arith, omega arith);
        };
        recovery = b.recovery;
        live = b.live;
        held = b.held;
        held_packets = b.held_packets;
      }))
]

pub revive-IsBounded : (w : BackedWriter) → IsBounded w → IsBounded (revive w)
unfolding revive
revive-IsBounded w b =
    let v : IsValid
        (record w { connected = true; disconnected_bytes = 0; disconnected_packets = 0 }) =
      record { in_step = b.valid.in_step; counted = b.valid.counted; acked = b.valid.acked } in
    let cap : (revive w).backup_size ≤ max_backup_bytes =
      trim_size over_hard_bytes _ v (λ s n h. ground arith) in
    record {
      valid = revive-IsValid w b.valid;
      recovery = omega (arith, cap);
      live = λ _. cap;
      held = unfold trim in omega arith;
      held_packets = unfold trim in omega arith;
    }

pub invalidate-IsBounded : (w : BackedWriter) → IsBounded w → IsBounded (invalidate w)
unfolding invalidate
invalidate-IsBounded w b = record {
  valid = record { in_step = b.valid.in_step; counted = b.valid.counted; acked = b.valid.acked };
  recovery = b.recovery;
  live = λ on. absurd (ground arith);
  held = b.held;
  held_packets = b.held_packets;
}

-- The length of a sealed frame is the reserved one.
length-encrypt_reserved :
    (s : Sodium)
    → IsSodium s
    → (header : ℕ) (payload nonce key : List ℕ)
    → length (encrypt_reserved s (reservation header (length payload) nonce key) payload)
      ≡ 2 + length payload + mac_len + 4
unfolding encrypt_reserved reservation
length-encrypt_reserved s laws header payload nonce key =
    let size : ℕ = (2 + length payload + mac_len) % 2 ^ 32 in
    omega (
      arith,
      length-append (be_bytes 4 size ++ (1 ∷ header ∷ [])) (s.seal key nonce payload),
      length-append (be_bytes 4 size) (1 ∷ header ∷ []),
      length-be_bytes 4 size,
      laws.length-seal key nonce payload,
    )

-- The three outcomes of a write.
write_packet_refused :
    (s : Sodium) (w : BackedWriter) (header : ℕ) (payload : List ℕ)
    → refuses w (length payload) ≡ true
    → write_packet s w header payload ≡ (w, ok skipped)
unfolding write_packet reserve_write
write_packet_refused s w header payload full = ground arith

abbrev with_nonce : BackedWriter → BackedWriter
with_nonce w = record w { crypto = bump w.crypto }

abbrev reserved_for : BackedWriter → ℕ → ℕ → ReservedWrite
reserved_for w header n = reservation header n (bump w.crypto).nonce (bump w.crypto).base_key

write_packet_connected :
    (s : Sodium) (w : BackedWriter) (header : ℕ) (payload : List ℕ)
    → refuses w (length payload) ≡ false
    → w.connected ≡ true
    → let r = reserved_for w header (length payload) in
      (write_packet s w header payload).0
      ≡ commit_connected (with_nonce w) r (encrypt_reserved s r payload)
unfolding write_packet reserve_write commit_write
write_packet_connected s w header payload room on = ground arith

write_packet_disconnected :
    (s : Sodium) (w : BackedWriter) (header : ℕ) (payload : List ℕ)
    → refuses w (length payload) ≡ false
    → w.connected ≡ false
    → let r = reserved_for w header (length payload) in
      (write_packet s w header payload).0
      ≡ commit_disconnected (with_nonce w) r (encrypt_reserved s r payload)
unfolding write_packet reserve_write commit_write
write_packet_disconnected s w header payload room off = ground arith

with_nonce-IsBounded : (w : BackedWriter) → IsBounded w → IsBounded (with_nonce w)
with_nonce-IsBounded w b = record {
  valid = record { in_step = b.valid.in_step; counted = b.valid.counted; acked = b.valid.acked };
  recovery = b.recovery;
  live = b.live;
  held = b.held;
  held_packets = b.held_packets;
}

-- Writing a packet, refused or not, keeps the counters true to the backup and within the caps.
pub write_packet-IsBounded :
    (s : Sodium)
    → IsSodium s
    → (w : BackedWriter) (header : ℕ) (payload : List ℕ) → IsBounded w
    → IsBounded (write_packet s w header payload).0
write_packet-IsBounded s laws w header payload b =
    let r : ReservedWrite = reserved_for w header (length payload) in
    let size : length (encrypt_reserved s r payload) ≡ 2 + length payload + mac_len + 4 =
      length-encrypt_reserved s laws header payload (bump w.crypto).nonce
        (bump w.crypto).base_key in
    elim (Bool-cases (refuses w (length payload))) [
      | inl full ↦ rw (write_packet_refused s w header payload full) b
      | inr room ↦ elim (Bool-cases w.connected) [
        | inl on ↦ rw (write_packet_connected s w header payload room on) (
            commit_connected-IsBounded (with_nonce w) r (encrypt_reserved s r payload)
              (unfold reservation in size) (with_nonce-IsBounded w b))
        | inr off ↦ rw (write_packet_disconnected s w header payload room off) (
            commit_disconnected-IsBounded (with_nonce w) r (encrypt_reserved s r payload)
              (length payload) (unfold reservation in size) (unfold reservation in refl) off
              (unfold refuses in room) (with_nonce-IsBounded w b))
      ]
    ]

pub new-IsBounded : (crypto : CryptoHandler) (connected : Bool) → IsBounded (new crypto connected)
unfolding new
new-IsBounded crypto connected = record {
  valid = new-IsValid crypto connected;
  recovery = omega arith;
  live = λ _. omega arith;
  held = omega arith;
  held_packets = omega arith;
}
