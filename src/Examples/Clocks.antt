-- ===== src/Examples/Clocks.antt =====
-- The clocks of a client at concrete values.
use et_rs.Prelude.{ℕ, ◌+◌, ◌≤◌, ◌≡◌, refl, true, false, none, some, [], ◌∷◌}
use et_rs.DeliveryGate.{
  max_unacknowledged_bytes, DeliveryGate, release_at, stall, check_unreleased, check_released,
  check, observe,
}
use et_rs.DeliveryGate.Patience.{observe_patience}
use et_rs.KeepaliveClock.{KeepaliveClock, new, alive}
use et_rs.KeepaliveClock.Verdict.{reads, react_all}

-- A gate that waits for the acknowledgement of more than 4 MiB, and is open after its patience.
abbrev gate : DeliveryGate
gate = record { stalled = none; released = none }

gate-closed : (observe gate true (some (5, 5000000)) 100 7).1 ≡ true
unfolding observe check check_released check_unreleased stall release_at
gate-closed = refl

observe_patience_example :
    let g = (observe gate true (some (5, 5000000)) 100 7).0 in
    (max_unacknowledged_bytes ≤ 5000000)
    × ((until : ℕ) × (release_at g 7 ≡ some until)
        × ((observe g true (some (5, 6000000)) (until + 3) 7).1 ≡ false))
observe_patience_example = observe_patience gate 5 5000000 6000000 100 3 7 gate-closed

-- A probe every 5 seconds; nothing is heard after second 7.
abbrev clock : KeepaliveClock
clock = alive (react_all (new 5000000000 0) (reads 6000000000 ∷ [])) 7000000000
