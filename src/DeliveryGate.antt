-- ===== src/DeliveryGate.antt =====
-- crates/et-bin/src/delivery_gate.rs: when the client stops its producers, because the server has
-- not acknowledged enough of what was written. Times and durations are nanoseconds.
pub mod Patience
use et_rs.Prelude.{
  ltb, leb, ◌==◌, if◌then◌else◌, ℕ, ◌+◌, ◌-◌, ◌*◌, Bool, true, false, Option, none, some,
}

abbrev pub max_unacknowledged_bytes : ℕ
max_unacknowledged_bytes = 4 * 1024 * 1024

pub record DeliveryGate : Type 0 where
  pub stalled : Option (ℕ × ℕ)
  pub released : Option ℕ

unfoldable pub release_after : Option (ℕ × ℕ) → ℕ → Option ℕ
release_after none patience = none
release_after (some (seen, since)) patience = some (since + patience)

unfoldable pub release_at : DeliveryGate → ℕ → Option ℕ
unfolding release_after
release_at g patience = release_after g.stalled patience

-- A full backlog. The first argument is `self.stalled`.
unfoldable pub stall : Option (ℕ × ℕ) → DeliveryGate → ℕ → ℕ → ℕ → DeliveryGate × Bool
stall none g acknowledged now patience = (record g { stalled = some (acknowledged, now) }, true)
stall (some (seen, since)) g acknowledged now patience =
    if seen == acknowledged
    then (if leb patience (now - since)
        then (record { released = some acknowledged; stalled = none }, false)
        else (g, true))
    else (record g { stalled = some (acknowledged, now) }, true)

unfoldable pub check_unreleased : DeliveryGate → ℕ → ℕ → ℕ → ℕ → DeliveryGate × Bool
check_unreleased g acknowledged unacknowledged now patience =
    if ltb unacknowledged max_unacknowledged_bytes
    then (record g { stalled = none }, false)
    else stall g.stalled g acknowledged now patience

-- The first argument is `self.released`.
unfoldable pub check_released : Option ℕ → DeliveryGate → ℕ → ℕ → ℕ → ℕ → DeliveryGate × Bool
check_released none g acknowledged unacknowledged now patience =
    check_unreleased g acknowledged unacknowledged now patience
check_released (some released_at) g acknowledged unacknowledged now patience =
    if leb acknowledged released_at
    then (g, false)
    else check_unreleased (record g { released = none }) acknowledged unacknowledged now patience

unfoldable pub check : DeliveryGate → Option (ℕ × ℕ) → ℕ → ℕ → DeliveryGate × Bool
check g none now patience = (g, false)
check g (some (acknowledged, unacknowledged)) now patience =
    check_released g.released g acknowledged unacknowledged now patience

unfoldable pub observe : DeliveryGate → Bool → Option (ℕ × ℕ) → ℕ → ℕ → DeliveryGate × Bool
observe g connected backlog now patience =
    if connected
    then check g backlog now patience
    else (record { stalled = none; released = none }, false)
