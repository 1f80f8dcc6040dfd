-- ===== src/KeepaliveClock/Verdict.antt =====
-- When crates/et-bin/src/keepalive_clock.rs takes a link for dead.
use et_rs.Prelude.{ℕ, List, [], ◌∷◌}
use et_rs.KeepaliveClock.{KeepaliveClock, alive, probe_sent}

-- What a client's loop does with its clock.
pub data Event : Type 0 where
  reads : ℕ → Event
  probes : ℕ → Event

unfoldable pub react : KeepaliveClock → Event → KeepaliveClock
react c (reads now) = alive c now
react c (probes now) = probe_sent c now

unfoldable pub react_all : KeepaliveClock → List Event → KeepaliveClock
react_all c [] = c
react_all c (e ∷ es) = react_all (react c e) es
