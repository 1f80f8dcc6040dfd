-- ===== src/PendingWrite/Deadline.antt =====
-- The deadline of a write that a peer does not take: `defer_while_peer_talks` of crates/et-
-- net/src/connection_pending.rs.
use et_rs.Prelude.{
  leb, err, ℕ, ◌+◌, ◌-◌, ◌≤◌, ◌<◌, min, ◌≡◌, refl, true, false, none, some, List, [], ◌∷◌, arith,
}
use et_rs.PendingWrite.{
  InboundMark, mark_eq, PendingWrite, SendAnswer, heard_at, defer_while_peer_talks, advance,
}
use et_rs.Recovery.Calls.{timed_out}

-- Checks of an elapsed deadline, at the given times, with nothing new from the peer.
unfoldable pub checks : PendingWrite → InboundMark → ℕ → ℕ → List ℕ → PendingWrite
checks p inbound silence timeout [] = p
checks p inbound silence timeout (now ∷ times) =
    checks (defer_while_peer_talks p inbound now silence timeout) inbound silence timeout times

pub mark_eq_refl : (m : InboundMark) → mark_eq m m ≡ true
mark_eq_refl (a, b) = ground arith

defer_known :
    (p : PendingWrite) (inbound : InboundMark) (now silence timeout at : ℕ)
    → p.heard ≡ some (inbound, at)
    → p.deadline ≤ at + silence
    → ((defer_while_peer_talks p inbound now silence timeout).heard ≡ some (inbound, at))
      × ((defer_while_peer_talks p inbound now silence timeout).deadline ≤ at + silence)
unfolding defer_while_peer_talks
defer_known p inbound now silence timeout at h d =
    let same : heard_at p.heard p.deadline timeout inbound now ≡ at =
      rw (h, mark_eq_refl inbound) refl in
    rw same (refl, ground arith)

-- `heard` already holds the mark.
checks_known :
    (p : PendingWrite) (inbound : InboundMark) (silence timeout at : ℕ) (times : List ℕ)
    → p.heard ≡ some (inbound, at)
    → p.deadline ≤ at + silence
    → (checks p inbound silence timeout times).deadline ≤ at + silence
unfolding checks
checks_known p inbound silence timeout at [] h d = d
checks_known p inbound silence timeout at (now ∷ times) h d =
    let once = defer_known p inbound now silence timeout at h d in
    checks_known (defer_while_peer_talks p inbound now silence timeout) inbound silence timeout at
      times once.0 once.1

-- The first check of a frame counts its start, one timeout before its deadline.
defer_first :
    (p : PendingWrite) (inbound : InboundMark) (now silence timeout : ℕ)
    → p.heard ≡ none
    → timeout ≤ p.deadline
    → timeout ≤ silence
    → ((defer_while_peer_talks p inbound now silence timeout).heard
        ≡ some (inbound, p.deadline - timeout))
      × ((defer_while_peer_talks p inbound now silence timeout).deadline
          ≤ p.deadline - timeout + silence)
unfolding defer_while_peer_talks
defer_first p inbound now silence timeout h early short =
    let same : heard_at p.heard p.deadline timeout inbound now ≡ p.deadline - timeout =
      rw h (ground arith) in
    rw same (refl, ground arith)

checks_silent :
    (p : PendingWrite) (inbound : InboundMark) (silence timeout : ℕ) (times : List ℕ)
    → p.heard ≡ none
    → timeout ≤ p.deadline
    → timeout ≤ silence
    → (checks p inbound silence timeout times).deadline ≤ p.deadline - timeout + silence
unfolding checks
checks_silent p inbound silence timeout [] h early short = omega arith
checks_silent p inbound silence timeout (now ∷ times) h early short =
    let once = defer_first p inbound now silence timeout h early short in
    checks_known (defer_while_peer_talks p inbound now silence timeout) inbound silence timeout
      (p.deadline - timeout) times once.0 once.1

-- A write to a peer of which nothing new is heard fails once `silence` has passed since its start,
-- however often its deadline was looked at and moved, and whatever the socket would take.
pub advance-checks :
    (p : PendingWrite) (inbound : InboundMark) (silence timeout : ℕ) (times : List ℕ) (now : ℕ)
    (kernel : List ℕ → SendAnswer)
    → p.heard ≡ none
    → timeout ≤ p.deadline
    → timeout ≤ silence
    → p.deadline - timeout + silence ≤ now
    → (advance (checks p inbound silence timeout times) now kernel).1 ≡ err timed_out
unfolding advance
advance-checks p inbound silence timeout times now kernel h early short late =
    let bound = checks_silent p inbound silence timeout times h early short in
    let elapsed : leb (checks p inbound silence timeout times).deadline now ≡ true = ground arith in
    rw elapsed refl

-- A peer that has sent something since the last look keeps the write alive: the deadline is ahead.
pub defer_while_peer_talks_heard :
    (p : PendingWrite) (seen inbound : InboundMark) (at now silence timeout : ℕ)
    → p.heard ≡ some (seen, at)
    → mark_eq seen inbound ≡ false
    → 0 < silence
    → 0 < timeout
    → (defer_while_peer_talks p inbound now silence timeout).deadline
      ≡ min (now + silence) (now + timeout)
unfolding defer_while_peer_talks
defer_while_peer_talks_heard p seen inbound at now silence timeout h changed some_silence
      some_time =
    let moved : heard_at p.heard p.deadline timeout inbound now ≡ now = rw (h, changed) refl in
    rw moved (ground arith)
