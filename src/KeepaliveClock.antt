-- ===== src/KeepaliveClock.antt =====
-- crates/et-bin/src/keepalive_clock.rs: when the client probes a quiet link, and when it takes the
-- link for dead. Times and durations are nanoseconds.
pub mod Verdict
use et_rs.Prelude.{
  leb, if◌then◌else◌, ℕ, ◌+◌, ◌-◌, ◌*◌, min, max, Bool, true, false, ◌&&◌, not, Option, none, some,
}

abbrev pub probe_lag : ℕ
probe_lag = 1000000000

abbrev pub min_reply_window : ℕ
min_reply_window = 1000000000

pub record KeepaliveClock : Type 0 where
  pub probe_after : ℕ
  pub reply_window : ℕ
  pub deadline : ℕ
  pub probe_outstanding : Bool

-- The time after which a quiet link is probed.
abbrev pub probe_time : ℕ → ℕ
probe_time interval = max (min (interval + probe_lag) (interval * 2 - min_reply_window)) interval

unfoldable pub new : ℕ → ℕ → KeepaliveClock
new interval now = record {
  probe_after = probe_time interval;
  reply_window = interval * 2 - probe_time interval;
  deadline = now + probe_time interval;
  probe_outstanding = false;
}

unfoldable pub alive : KeepaliveClock → ℕ → KeepaliveClock
alive c now = record c { deadline = now + c.probe_after; probe_outstanding = false }

unfoldable pub probe_sent : KeepaliveClock → ℕ → KeepaliveClock
probe_sent c now = record c { deadline = now + c.reply_window; probe_outstanding = true }

unfoldable pub probe_due : KeepaliveClock → ℕ → Bool
probe_due c now = not c.probe_outstanding && leb c.deadline now

unfoldable pub dead : KeepaliveClock → ℕ → Bool → Bool
dead c now reading = reading && (c.probe_outstanding && leb c.deadline now)

unfoldable pub wake_at : KeepaliveClock → Bool → Bool → Option ℕ
wake_at c reading can_probe =
    let armed = if c.probe_outstanding then reading else can_probe in
    if armed then some c.deadline else none
