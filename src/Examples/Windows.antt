-- ===== src/Examples/Windows.antt =====
-- The windows on concrete states: when an acknowledgement is attached, what a socket read asks
-- for, and the bound on unacknowledged output.
use et_rs.Prelude.{
  get_elem?, replicate, All, ℕ, ◌+◌, ◌*◌, ◌≤◌, ◌≡◌, refl, ◌⊎◌, true, false, none, some, [], arith,
}
use et_rs.KeepAlive.{ack_interval_bytes, AckSide, AckSchedule, next}
use et_rs.KeepAlive.Schedule.{IsInformed, next-IsInformed}
use et_rs.OutputWindow.{min_pipe_bytes, OutputWindow, window, unacknowledged_terminal}
use et_rs.OutputWindow.Release.{hold, blocked_unreleased, blocked_enforced, blocked}
use et_rs.OutputWindow.Size.{window_for, window_least}
use et_rs.OutputWindow.Patience.{blocked_deadline}

abbrev schedule : AckSchedule
schedule = record { attached = some 3 }

-- A client that acknowledges has 2 MiB of terminal output before it.
abbrev output_window : OutputWindow
output_window = record {
  marks = [];
  since_mark = 0;
  written = 2 * 1024 * 1024;
  delivered = 0;
  terminal_written = 2 * 1024 * 1024;
  terminal_delivered = 0;
  delivered_at = none;
  delivered_sent = none;
  min_rtt = some 1000000;
  pipe = replicate 8 0;
  next_pipe = 0;
  ack_written = none;
  peer_reads_acks = true;
  armed = true;
  acknowledged_here = true;
  stalled = none;
  released = none;
}

next-IsInformed_example :
    IsInformed schedule 20 2 (next schedule (AckSide.initiator) 20 2 true false)
next-IsInformed_example = next-IsInformed schedule (AckSide.initiator) 20 2 false (omega arith)

window_least_example :
    All (λ p. window_for p ≤ window output_window) output_window.pipe
    × (ack_interval_bytes + min_pipe_bytes ≤ window output_window)
    × ((window output_window ≡ ack_interval_bytes + min_pipe_bytes)
        ⊎ ((i : ℕ) × (p : ℕ) × (get_elem? output_window.pipe i ≡ some p)
            × (window output_window ≡ window_for p)))
window_least_example = window_least output_window

blocked_deadline_example :
    (blocked (blocked output_window 7 (2 * 1024 * 1024) 5).0 7 (3 * 1024 * 1024) 10000000006).1
    ≡ none
unfolding blocked blocked_enforced blocked_unreleased hold window unacknowledged_terminal
blocked_deadline_example =
    blocked_deadline output_window 7 (2 * 1024 * 1024) 5 10000000005 10000000006 (3 * 1024 * 1024)
      refl (omega arith)
