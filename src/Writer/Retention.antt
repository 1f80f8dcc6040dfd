-- ===== src/Writer/Retention.antt =====
-- What crates/et-core/src/backed_writer.rs keeps of its history on an acknowledgement and on a
-- connected write.
use et_rs.Prelude.{
  ltb, ltb→lt, length, take, drop, length-drop, pos, ℕ, suc, ◌+◌, ◌-◌, ◌≤◌, ◌<◌, min, ◌≡◌, sym, ap,
  ◌∙◌, inl, inr, Bool, true, false, ◌||◌, not, some, List, [], ◌∷◌, arith,
}
use et_rs.Backup.{
  max_backup_bytes, max_backup_packets, ack_retain_slack_packets, ack_retain_floor_packets, Frame,
  frame_wire_len, wire_sum, trim_loop, over_connected_cap, over_hard_cap, slack_keep, over_keep,
}
use et_rs.Backup.Trim.{wire_sum-take-le, trim_loop-Trimmed, trim_loop_keeps, trim_loop_idle}
use et_rs.Writer.Invariant.{IsValid, store-IsValid}
use et_rs.Writer.{
  ReservedWrite, BackedWriter, trim, unacknowledged_packets, store, commit_connected, acknowledge,
}

slack_keep_bounds :
    (n b : ℕ) (rest : List Frame)
    → (min (ack_retain_floor_packets - n) (length rest) ≤ slack_keep n b rest)
      × (slack_keep n b rest ≤ ack_retain_slack_packets - n)
      × (slack_keep n b rest ≤ length rest)
unfolding slack_keep
slack_keep_bounds n b [] = omega arith
slack_keep_bounds n b (frame ∷ rest) =
    let ih = slack_keep_bounds (n + 1) (b + frame_wire_len frame) rest in
    (ground (arith, ih), ground (arith, ih), ground (arith, ih))

-- The number of frames that an acknowledgement keeps.
abbrev kept_frames : BackedWriter → ℕ → ℕ
kept_frames w a =
    let kept = min (w.sequence - a) (length w.backup) in kept + slack_keep 0 0 (drop kept w.backup)

kept_frames_bounds :
    (w : BackedWriter) (a : ℕ)
    → (min (w.sequence - a + ack_retain_floor_packets) (length w.backup) ≤ kept_frames w a)
      × (kept_frames w a ≤ w.sequence - a + ack_retain_slack_packets)
      × (kept_frames w a ≤ length w.backup)
kept_frames_bounds w a =
    let kept : ℕ = min (w.sequence - a) (length w.backup) in
    let slack = slack_keep_bounds 0 0 (drop kept w.backup) in
    let rest : length (drop kept w.backup) ≡ length w.backup - kept = length-drop kept w.backup in
    (
      omega (arith, slack.0, slack.1, slack.2),
      omega (arith, slack.0, slack.1, slack.2),
      omega (arith, slack.0, slack.1, slack.2),
    )

-- The loop that follows leaves that many.
trim_to_keep :
    (backup : List Frame) (size keep : ℕ)
    → keep ≤ length backup
    → length (trim_loop (length backup) (over_keep keep) backup size).0 ≡ keep
trim_to_keep backup size keep fits =
    let t = trim_loop-Trimmed (length backup) (over_keep keep) backup size (omega arith) in
    let lower : keep ≤ length (trim_loop (length backup) (over_keep keep) backup size).0 =
      trim_loop_keeps (length backup) (over_keep keep) backup size keep (λ s n h. ltb→lt keep n h)
        fits in
    elim t.finished [ inl stop ↦ ground arith | inr none_left ↦ omega (arith, ap length none_left) ]

-- How many frames an accepted acknowledgement leaves.
acknowledge_kept :
    (w : BackedWriter) (a : ℕ)
    → w.connected ≡ true
    → a ≤ w.sequence
    → length (acknowledge w (pos a)).backup ≡ kept_frames w a
unfolding acknowledge trim
acknowledge_kept w a on written =
    let taken : (not w.connected || ltb w.sequence a) ≡ false = ground arith in
    simp taken (trim_to_keep w.backup w.backup_size (kept_frames w a) (kept_frames_bounds w a).2)

-- What an accepted acknowledgement leaves are the newest frames.
acknowledge_newest :
    (w : BackedWriter) (a : ℕ)
    → w.connected ≡ true
    → a ≤ w.sequence
    → (acknowledge w (pos a)).backup ≡ take (length (acknowledge w (pos a)).backup) w.backup
unfolding acknowledge trim
acknowledge_newest w a on written =
    let taken : (not w.connected || ltb w.sequence a) ≡ false = ground arith in
    simp taken
      (trim_loop-Trimmed (length w.backup) (over_keep (kept_frames w a)) w.backup w.backup_size
        (omega arith)).newest

-- An accepted acknowledgement keeps every frame that a peer may still ask for: the newest frames
-- stay, in their order, and what could be recovered from the acknowledged sequence on, or from up to
-- 16 packets before it, still can be. Beyond the unacknowledged frames at most 1024 are kept.
pub acknowledge_retains :
    (w : BackedWriter) (a r : ℕ)
    → w.connected ≡ true
    → a ≤ w.sequence
    → a ≤ r + ack_retain_floor_packets
    → w.sequence ≤ r + length w.backup
    → ((acknowledge w (pos a)).backup ≡ take (length (acknowledge w (pos a)).backup) w.backup)
      × (w.sequence ≤ r + length (acknowledge w (pos a)).backup)
      × (length (acknowledge w (pos a)).backup ≤ w.sequence - a + ack_retain_slack_packets)
acknowledge_retains w a r on written near recoverable =
    let bounds = kept_frames_bounds w a in
    let size = acknowledge_kept w a on written in
    (
      acknowledge_newest w a on written,
      omega (arith, bounds.0, size),
      omega (arith, bounds.1, size),
    )

over_connected_cap_above : (m size len : ℕ) → over_connected_cap m size len ≡ true → m < len
over_connected_cap_above m size len h = ground arith

over_hard_cap-false :
    (size len : ℕ)
    → size ≤ max_backup_bytes
    → len ≤ max_backup_packets
    → over_hard_cap size len ≡ false
over_hard_cap-false size len hs hl = ground arith

-- While a written frame fits the hard caps, a connected write drops no unacknowledged frame: what
-- a peer at the acknowledged sequence or later could recover before, it still can, and the new frame
-- with it. What is left are the newest frames, in their order.
pub commit_connected_retains :
    (w : BackedWriter) (reserved : ReservedWrite) (frame : Frame) (a r : ℕ)
    → IsValid w
    → length frame ≡ reserved.packet_wire_len + 4
    → w.acknowledged ≡ some a
    → a ≤ r
    → w.backup_size + reserved.packet_wire_len ≤ max_backup_bytes
    → length w.backup + 1 ≤ max_backup_packets
    → w.sequence ≤ r + length w.backup
    → ((commit_connected w reserved frame).backup
        ≡ take (length (commit_connected w reserved frame).backup) (frame ∷ w.backup))
      × (w.sequence + 1 ≤ r + length (commit_connected w reserved frame).backup)
unfolding commit_connected trim store
commit_connected_retains w reserved frame a r v size ack near bytes packets recoverable =
    let stored = store-IsValid w reserved.packet_wire_len frame size v in
    let test : ℕ → ℕ → Bool =
      over_connected_cap (unacknowledged_packets w.acknowledged (w.sequence + 1)) in
    let total : ℕ = w.backup_size + reserved.packet_wire_len in
    let first : List Frame × ℕ = trim_loop (suc (length w.backup)) test (frame ∷ w.backup) total in
    let t = trim_loop-Trimmed (suc (length w.backup)) test (frame ∷ w.backup) total (omega arith) in
    let smaller : first.1 ≤ total = omega (
      arith,
      t.in_step stored.in_step,
      stored.in_step,
      ap wire_sum t.newest,
      wire_sum-take-le (length first.0) (frame ∷ w.backup),
    ) in
    let idle : trim_loop (length first.0) over_hard_cap first.0 first.1 ≡ first =
      trim_loop_idle (length first.0) over_hard_cap first.0 first.1
        (over_hard_cap-false first.1 (length first.0) (omega arith) (omega (arith, t.shorter))) in
    let unacknowledged : unacknowledged_packets w.acknowledged (w.sequence + 1)
        ≡ w.sequence + 1 - a =
      ap (λ o. unacknowledged_packets o (w.sequence + 1)) ack in
    let lower : min (w.sequence + 1 - a) (suc (length w.backup)) ≤ length first.0 =
      trim_loop_keeps (suc (length w.backup)) test (frame ∷ w.backup) total
        (min (w.sequence + 1 - a) (suc (length w.backup)))
        (λ s n h. omega (
          arith,
          over_connected_cap_above (unacknowledged_packets w.acknowledged (w.sequence + 1)) s n h,
          unacknowledged,
        ))
        (omega arith) in
    let same : (trim_loop (length first.0) over_hard_cap first.0 first.1).0 ≡ first.0 =
      ap (λ (x : List Frame × ℕ). x.0) idle in
    (
      same ∙ t.newest ∙ ap (λ n. take n (frame ∷ w.backup)) (sym (ap length same)),
      omega (arith, lower, ap length same),
    )
