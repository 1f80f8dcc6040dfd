-- ===== src/OutputWindow/Release.antt =====
-- crates/et-core/src/output_window.rs: whether terminal output waits for an acknowledgement.
use et_rs.Prelude.{ltb, leb, ◌==◌, if◌then◌else◌, ℕ, ◌+◌, ◌-◌, ◌*◌, ◌||◌, not, Option, none, some}
use et_rs.OutputWindow.{patience, packet_overhead, OutputWindow, window, unacknowledged_terminal}

-- The bound is in force: wait for an acknowledgement, or for the end of the patience. The first
-- argument is `self.stalled`.
unfoldable pub hold : Option (ℕ × ℕ) → OutputWindow → ℕ → ℕ → OutputWindow × Option ℕ
hold none w acknowledged now =
    (record w { stalled = some (acknowledged, now) }, some (now + patience))
hold (some (seen, since)) w acknowledged now =
    if seen == acknowledged
    then (if leb patience (now - since)
        then (record w { released = some acknowledged; stalled = none }, none)
        else (w, some (since + patience)))
    else (record w { stalled = some (acknowledged, now) }, some (now + patience))

unfoldable pub blocked_unreleased : OutputWindow → ℕ → ℕ → ℕ → OutputWindow × Option ℕ
blocked_unreleased w acknowledged unacknowledged now =
    if ltb (unacknowledged_terminal w unacknowledged) (window w)
    then (record w { stalled = none }, none)
    else hold w.stalled w acknowledged now

-- An enforced bound. The first argument is `self.released`.
unfoldable pub blocked_enforced : Option ℕ → OutputWindow → ℕ → ℕ → ℕ → OutputWindow × Option ℕ
blocked_enforced none w acknowledged unacknowledged now =
    blocked_unreleased w acknowledged unacknowledged now
blocked_enforced (some released) w acknowledged unacknowledged now =
    if leb acknowledged released
    then (w, none)
    else blocked_unreleased (record w { released = none }) acknowledged unacknowledged now

unfoldable pub blocked : OutputWindow → ℕ → ℕ → ℕ → OutputWindow × Option ℕ
blocked w acknowledged unacknowledged now =
    if not w.armed || not w.acknowledged_here
    then (record w { stalled = none }, none)
    else blocked_enforced w.released w acknowledged unacknowledged now

unfoldable pub unacknowledged_payload : ℕ → ℕ → ℕ → ℕ
unacknowledged_payload acknowledged unacknowledged_wire sequence =
    let packets = sequence - acknowledged in unacknowledged_wire - packets * packet_overhead
