-- ===== src/KeepAlive/Schedule.antt =====
-- When a keep-alive of crates/et-core/src/keepalive.rs carries an acknowledgement, and which.
use et_rs.Prelude.{
  Bool-cases, pos, ℕ, ◌+◌, ◌^◌, ◌≤◌, ◌<◌, ◌≡◌, refl, ◌≢◌, ◌⊎◌, inl, inr, Bool, true, false, Option,
  none, some, List, arith,
}
use et_rs.KeepAlive.Payload.{decode_ack-encode_ack}
use et_rs.Backup.{ack_retain_floor_packets}
use et_rs.KeepAlive.{decode_ack, AckSide, responder, AckSchedule, attaches, next}

-- How far the peer's knowledge lags behind the reader.
abbrev pub IsCurrent : Option ℕ → ℕ → ℕ → Type 0
IsCurrent none sequence data_sequence = ⊥
IsCurrent (some a) sequence data_sequence =
    (sequence < a + ack_retain_floor_packets) × (data_sequence ≤ a)

-- Where no acknowledgement is due the latest is current.
not_due :
    (o : Option ℕ) (side : AckSide) (sequence data_sequence : ℕ) (volume : Bool)
    → attaches o side sequence data_sequence true volume ≡ false
    → IsCurrent o sequence data_sequence
unfolding attaches
not_due none side sequence data_sequence volume e = ground arith
not_due (some k) side sequence data_sequence volume e = (ground arith, ground arith)

-- What a keep-alive may be: one without a payload, where the latest acknowledgement is current and
-- stays the latest, or one whose payload the peer decodes to the sequence that is now the latest.
abbrev pub IsInformed : AckSchedule → ℕ → ℕ → AckSchedule × Option (List ℕ) → Type 0
IsInformed a sequence data_sequence (a', none) =
    (a' ≡ a) × IsCurrent a.attached sequence data_sequence
IsInformed a sequence data_sequence (a', some payload) =
    (a'.attached ≡ some sequence) × (decode_ack payload ≡ some (pos sequence))

-- Towards a peer that acknowledges, every keep-alive leaves it informed: it carries a payload that is
-- decoded to all that was read, or the latest one that was sent covers all data packets, and all but
-- at most 15 packets of what was read.
pub next-IsInformed :
    (a : AckSchedule) (side : AckSide) (sequence data_sequence : ℕ) (volume : Bool)
    → sequence < 2 ^ 63
    → IsInformed a sequence data_sequence (next a side sequence data_sequence true volume)
unfolding next
next-IsInformed a side sequence data_sequence volume h =
    elim (Bool-cases (attaches a.attached side sequence data_sequence true volume)) [
      | inl e ↦ rw e (refl, (decode_ack-encode_ack sequence h).0)
      | inr e ↦ rw e (refl, not_due a.attached side sequence data_sequence volume e)
    ]

-- A peer that has never acknowledged gets at most the first acknowledgement of a connection, and
-- that from the initiator only.
pub next_legacy :
    (a : AckSchedule) (side : AckSide) (sequence data_sequence : ℕ) (volume : Bool)
    → ((a.attached ≢ none) ⊎ (side ≡ responder))
    → next a side sequence data_sequence false volume ≡ (a, none)
unfolding next
next_legacy a side sequence data_sequence volume h = ground arith
