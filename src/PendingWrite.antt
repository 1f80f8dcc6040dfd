-- ===== src/PendingWrite.antt =====
-- crates/et-net/src/connection_pending.rs: a frame that waits to be written to the socket, and what
-- the socket takes of it. The replay history already owns the frame.
-- send(2) is given to each step, and the bytes that it takes are a result.
pub mod Steps
pub mod Ending
pub mod Deadline
use et_rs.Prelude.{
  ltb, leb, ◌==◌, if◌then◌else◌, length, take, drop, Result, ok, err, ℕ, ◌+◌, ◌-◌, ◌*◌, ◌≤◌, min,
  ◌≡◌, Bool, true, false, ◌&&◌, Option, none, some, List, [], ◌∷◌, ◌++◌,
}
use et_rs.Recovery.Calls.{IoError, timed_out, write_zero}

abbrev pub write_quantum : ℕ
write_quantum = 256 * 1024

-- The peer's sequence, and how many of its bytes wait in the kernel.
abbrev pub InboundMark : Type 0
InboundMark = ℕ × ℕ

abbrev pub mark_eq : InboundMark → InboundMark → Bool
mark_eq (a, b) (c, d) = a == c && b == d

pub record PendingWrite : Type 0 where
  pub frame : List ℕ
  pub offset : ℕ
  pub deadline : ℕ
  pub heard : Option (InboundMark × ℕ)

-- What a call of send(2) answers to the bytes that it is offered: `again` is EAGAIN or EINTR.
pub data SendAnswer : Type 0 where
  took : ℕ → SendAnswer
  again : SendAnswer
  send_error : IoError → SendAnswer

-- `self.heard` and what it makes of the peer's mark.
abbrev pub heard_at : Option (InboundMark × ℕ) → ℕ → ℕ → InboundMark → ℕ → ℕ
heard_at none deadline timeout inbound now =
    if leb timeout deadline then deadline - timeout else now
heard_at (some (seen, at)) deadline timeout inbound now = if mark_eq seen inbound then at else now

unfoldable pub defer_while_peer_talks : PendingWrite → InboundMark → ℕ → ℕ → ℕ → PendingWrite
defer_while_peer_talks p inbound now silence timeout =
    let at = heard_at p.heard p.deadline timeout inbound now in
    let limit = at + silence in
    record p {
      heard = some (inbound, at);
      deadline = if ltb now limit then min limit (now + timeout) else p.deadline;
    }

-- The bytes that one call of send(2) is offered.
abbrev pub offered : PendingWrite → List ℕ
offered p =
    take (min (length p.frame) (p.offset + write_quantum) - p.offset) (drop p.offset p.frame)

abbrev pub is_complete : PendingWrite → Bool
is_complete p = p.offset == length p.frame

-- What the call answers, and the bytes that it has taken.
unfoldable pub sent_quantum :
    PendingWrite → SendAnswer → PendingWrite × Result Bool IoError × List ℕ
sent_quantum p (took count) =
    let p' = record p { offset = p.offset + count } in
    if count == 0
    then (p, err write_zero, [])
    else (p', ok (is_complete p'), take count (offered p))
sent_quantum p again = (p, ok false, [])
sent_quantum p (send_error e) = (p, err e, [])

unfoldable pub advance :
    PendingWrite → ℕ → (List ℕ → SendAnswer) → PendingWrite × Result Bool IoError × List ℕ
unfolding sent_quantum
advance p now kernel =
    if leb p.deadline now then (p, err timed_out, []) else sent_quantum p (kernel (offered p))

-- send(2) takes no more than it is offered.
abbrev pub IsSend : (List ℕ → SendAnswer) → Type 0
IsSend kernel = (bytes : List ℕ) (count : ℕ) → kernel bytes ≡ took count → count ≤ length bytes

-- One round of the blocking write: the time, send(2), and how the wait for room ends.
pub record Round : Type 0 where
  pub now : ℕ
  pub kernel : List ℕ → SendAnswer
  pub waited : Option IoError

abbrev pub is_timed_out : IoError → Bool
is_timed_out timed_out = true
is_timed_out _ = false

-- A wait that times out goes on: the next round meets the deadline itself.
abbrev pub ends_wait : Option IoError → Option IoError
ends_wait none = none
ends_wait (some e) = if is_timed_out e then none else some e

abbrev pub stops : Option IoError → Result Bool IoError → Option (Result (Unit {0}) IoError)
stops waited (err e) = some (err e)
stops waited (ok true) = some (ok tt)
stops waited (ok false) = elim (ends_wait waited) [ none ↦ none | some e ↦ some (err e) ]

-- `while !self.advance()?`: the frame at the end, its result, and the bytes taken. `none` means that
-- the rounds are used up and the write still waits.
unfoldable pub finish_loop :
    PendingWrite → List Round → PendingWrite × Option (Result (Unit {0}) IoError) × List ℕ
unfolding advance
finish_loop p [] = (p, none, [])
finish_loop p (round ∷ rounds) =
    let (p', result, bytes) = advance p round.now round.kernel in
    let (p'', outcome, more) = finish_loop p' rounds in
    elim (stops round.waited result) [
      | some r ↦ (p', some r, bytes)
      | none ↦ (p'', outcome, bytes ++ more)
    ]
