-- ===== src/Writer.antt =====
-- crates/et-core/src/backed_writer.rs: the sending half of a connection. Every packet is sealed
-- and kept for replay, the newest first, before it is sent or held for a reconnect.
-- The `i64` counters only hold lengths and counts, so they are natural numbers here; where the
-- code subtracts, the difference of natural numbers is taken (see Writer/Invariant).
pub mod Invariant
pub mod History
pub mod Retention
pub mod Bounds
pub mod Runs
pub mod Sending
use et_rs.Prelude.{
  ltb, leb, ◌==◌, if◌then◌else◌, length, take, drop, Result, ok, err, ◌>>=◌, ℤ, pos, negsuc,
  be_bytes, ℕ, ◌+◌, ◌-◌, ◌%◌, ◌^◌, min, Bool, true, false, ◌&&◌, ◌||◌, not, Option, none, some,
  List, [], ◌∷◌, ◌++◌, map, reverse,
}
use et_rs.Backup.{
  disconnect_buffer_bytes, max_recovery_backup_bytes, max_disconnect_packets, Frame, wire_sum,
  trim_loop, over_connected_cap, over_hard_cap, over_hard_bytes, slack_keep, over_keep,
}
use et_rs.Crypto.{
  mac_len, Sodium, EncryptError, ProofError, CryptoHandler, next_nonce_and_key, encrypt_detached,
  rekey,
}

pub data WriterOutcome : Type 0 where
  skipped : WriterOutcome
  buffered_only : WriterOutcome
  send : Frame → WriterOutcome

pub record ReservedWrite : Type 0 where
  pub prefix : List ℕ
  pub nonce : List ℕ
  pub key : List ℕ
  pub packet_wire_len : ℕ

pub data RecoverError : Type 0 where
  ahead_of_server too_far_behind : RecoverError

pub record BackedWriter : Type 0 where
  pub crypto : CryptoHandler
  pub backup : List Frame
  pub backup_size : ℕ
  pub disconnected_bytes : ℕ
  pub disconnected_packets : ℕ
  pub sequence : ℕ
  pub connected : Bool
  pub acknowledged : Option ℕ
  pub unacknowledged_bytes : ℕ

unfoldable pub new : CryptoHandler → Bool → BackedWriter
new crypto connected = record {
  crypto = crypto;
  backup = [];
  backup_size = 0;
  disconnected_bytes = 0;
  disconnected_packets = 0;
  sequence = 0;
  connected = connected;
  acknowledged = none;
  unacknowledged_bytes = 0;
}

abbrev pub i64_max : ℕ
i64_max = 2 ^ 63 - 1

-- `i64::checked_add(a, b).is_some_and(|total| total <= limit)`.
abbrev pub fits_i64 : ℕ → ℕ → ℕ → Bool
fits_i64 a b limit = leb (a + b) i64_max && leb (a + b) limit

-- The limits on what is held for a peer that is not connected.
unfoldable pub refuses : BackedWriter → ℕ → Bool
refuses w payload_len =
    let packet_len = 2 + payload_len in
    let wire_len = min (packet_len + mac_len) i64_max in
    let disconnected_fits =
      leb packet_len i64_max && fits_i64 w.disconnected_bytes packet_len disconnect_buffer_bytes in
    let recovery_fits = fits_i64 w.backup_size wire_len max_recovery_backup_bytes in
    not w.connected
    && (not disconnected_fits
        || (leb max_disconnect_packets w.disconnected_packets || not recovery_fits))

unfoldable pub reservation : ℕ → ℕ → List ℕ → List ℕ → ReservedWrite
reservation header payload_len nonce key =
    let packet_wire_len = 2 + payload_len + mac_len in
    record {
      prefix = be_bytes 4 (packet_wire_len % 2 ^ 32) ++ (1 ∷ header ∷ []);
      nonce = nonce;
      key = key;
      packet_wire_len = packet_wire_len;
    }

unfoldable pub reserve_write : BackedWriter → ℕ → ℕ → BackedWriter × Option ReservedWrite
unfolding next_nonce_and_key
reserve_write w header payload_len =
    if refuses w payload_len
    then (w, none)
    else (let (crypto', nonce, key) = next_nonce_and_key w.crypto in
        (record w { crypto = crypto' }, some (reservation header payload_len nonce key)))

unfoldable pub encrypt_reserved : Sodium → ReservedWrite → List ℕ → Frame
unfolding encrypt_detached
encrypt_reserved s r payload = encrypt_detached s r.prefix payload r.nonce r.key

unfoldable pub trim : (ℕ → ℕ → Bool) → BackedWriter → BackedWriter
trim test w =
    let (backup', size') = trim_loop (length w.backup) test w.backup w.backup_size in
    record w { backup = backup'; backup_size = size' }

-- `self.acknowledged.map_or(usize::MAX, |acked| self.sequence - acked)`.
abbrev pub usize_max : ℕ
usize_max = 2 ^ 64 - 1

abbrev pub unacknowledged_packets : Option ℕ → ℕ → ℕ
unacknowledged_packets none sequence = usize_max
unacknowledged_packets (some acked) sequence = sequence - acked

-- The frame goes to the front, and the counters follow.
unfoldable pub store : BackedWriter → ℕ → Frame → BackedWriter
store w packet_wire_len frame = record w {
  backup = frame ∷ w.backup;
  backup_size = w.backup_size + packet_wire_len;
  sequence = w.sequence + 1;
  unacknowledged_bytes = w.unacknowledged_bytes + packet_wire_len;
}

-- Acknowledged history yields to the connected caps, and anything to the hard cap.
unfoldable pub commit_connected : BackedWriter → ReservedWrite → Frame → BackedWriter
unfolding store trim
commit_connected w reserved frame =
    let stored = store w reserved.packet_wire_len frame in
    let unacknowledged = unacknowledged_packets stored.acknowledged stored.sequence in
    trim over_hard_cap (trim (over_connected_cap unacknowledged) stored)

unfoldable pub commit_disconnected : BackedWriter → ReservedWrite → Frame → BackedWriter
unfolding store
commit_disconnected w reserved frame = record (store w reserved.packet_wire_len frame) {
  disconnected_bytes = w.disconnected_bytes + reserved.packet_wire_len;
  disconnected_packets = w.disconnected_packets + 1;
}

unfoldable pub commit_write : BackedWriter → ReservedWrite → Frame → BackedWriter × WriterOutcome
commit_write w reserved frame =
    if w.connected
    then (commit_connected w reserved frame, send frame)
    else (commit_disconnected w reserved frame, buffered_only)

unfoldable pub write_packet :
    Sodium → BackedWriter → ℕ → List ℕ → BackedWriter × Result WriterOutcome EncryptError
write_packet s w header payload =
    let (w', reservation) = reserve_write w header (length payload) in
    elim reservation [
      | none ↦ (w', ok skipped)
      | some reserved ↦
          let (w'', outcome) = commit_write w' reserved (encrypt_reserved s reserved payload) in
          (w'', ok outcome)
    ]

-- The frames behind the peer's sequence, the oldest first, without their length prefix. A negative
-- sequence asks for more than was ever written.
unfoldable pub recover : BackedWriter → ℤ → Result (List (List ℕ)) RecoverError
recover w (pos last_valid) =
    if ltb w.sequence last_valid
    then err ahead_of_server
    else (let count = w.sequence - last_valid in
        if count == 0
        then ok []
        else if ltb (length w.backup) count
        then err too_far_behind
        else ok (reverse (map (drop 4) (take count w.backup))))
recover w (negsuc n) =
    if ltb (length w.backup) (w.sequence + n + 1)
    then err too_far_behind
    else ok (reverse (map (drop 4) (take (w.sequence + n + 1) w.backup)))

unfoldable pub acknowledge : BackedWriter → ℤ → BackedWriter
unfolding slack_keep trim
acknowledge w (negsuc n) = w
acknowledge w (pos acknowledged) =
    if not w.connected || ltb w.sequence acknowledged
    then w
    else (let unacknowledged = w.sequence - acknowledged in
        let kept = min unacknowledged (length w.backup) in
        let keep = kept + slack_keep 0 0 (drop kept w.backup) in
        trim (over_keep keep) (record w {
          acknowledged = some acknowledged;
          unacknowledged_bytes = wire_sum (take unacknowledged w.backup);
        }))

unfoldable pub delivery_backlog : BackedWriter → Option (ℕ × ℕ)
delivery_backlog w = elim w.acknowledged [
  | none ↦ none
  | some acknowledged ↦ some (acknowledged, w.unacknowledged_bytes)
]

unfoldable pub revive : BackedWriter → BackedWriter
unfolding trim
revive w =
    trim over_hard_bytes
      (record w { connected = true; disconnected_bytes = 0; disconnected_packets = 0 })

unfoldable pub reset : Sodium → BackedWriter → List ℕ → Result BackedWriter ProofError
unfolding rekey
reset s w salt = rekey s w.crypto salt >>= λ crypto. ok (record {
  crypto = crypto;
  backup = [];
  backup_size = 0;
  disconnected_bytes = 0;
  disconnected_packets = 0;
  sequence = 0;
  connected = false;
  acknowledged = none;
  unacknowledged_bytes = 0;
})

unfoldable pub invalidate : BackedWriter → BackedWriter
invalidate w = record w { connected = false }

unfoldable pub has_capacity : BackedWriter → ℕ → Bool
has_capacity w bytes =
    w.connected
    || (fits_i64 w.disconnected_bytes bytes disconnect_buffer_bytes
        && (ltb w.disconnected_packets max_disconnect_packets
            && fits_i64 w.backup_size bytes max_recovery_backup_bytes))
