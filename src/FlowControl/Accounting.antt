-- ===== src/FlowControl/Accounting.antt =====
-- What the counters of crates/et-core/src/flow_control.rs stand for.
use et_rs.Prelude.{
  Bool-cases, length, All, length-append, append-All, front-All, ℕ, ◌+◌, ◌-◌, ◌≡◌, inl, inr, Bool,
  true, false, List, [], ◌∷◌, ◌++◌, arith,
}
use et_rs.FlowControl.{OutputQueue, packet_cost, is_terminal_output}
use et_rs.FlowControl.Admission.{evict}
use et_rs.Packet.{Packet}

abbrev pub cost_sum : List Packet → ℕ
cost_sum [] = 0
cost_sum (p ∷ ps) = packet_cost p + cost_sum ps

pub cost_sum-append : (xs ys : List Packet) → cost_sum (xs ++ ys) ≡ cost_sum xs + cost_sum ys
cost_sum-append [] ys = omega arith
cost_sum-append (x ∷ xs) ys = omega (arith, cost_sum-append xs ys)

-- One lane, its counters, and what of it is in flight: taken, and not completed yet.
pub record IsLane (terminal : Bool) (lane flying : List Packet) (bytes packets : ℕ) : Type 0 where
  pub bytes_sum : bytes ≡ cost_sum lane + cost_sum flying
  pub count : packets ≡ length lane + length flying
  pub own : All (λ p. is_terminal_output p ≡ terminal) lane
  pub own_flying : All (λ p. is_terminal_output p ≡ terminal) flying

pub record IsAccounted {S : Type 0} (q : OutputQueue S) (terminal control : List Packet)
    : Type 0 where
  pub terminal_counters : IsLane true q.terminal terminal q.terminal_bytes q.terminal_packets
  pub control_counters : IsLane false q.control control q.control_bytes q.control_packets

pub pushed-IsLane :
    (k : Bool) (lane flying : List Packet) (bytes packets : ℕ) (p : Packet)
    → is_terminal_output p ≡ k
    → IsLane k lane flying bytes packets
    → IsLane k (lane ++ (p ∷ [])) flying (bytes + packet_cost p) (packets + 1)
pushed-IsLane k lane flying bytes packets p own l = record {
  bytes_sum = omega (arith, l.bytes_sum, cost_sum-append lane (p ∷ []));
  count = omega (arith, l.count, length-append lane (p ∷ []));
  own = append-All (λ x. is_terminal_output x ≡ k) lane (p ∷ []) l.own (own, tt);
  own_flying = l.own_flying;
}

-- The packet at the front takes off, and comes back.
pub taken-IsLane :
    (k : Bool) (p : Packet) (lane flying : List Packet) (bytes packets : ℕ)
    → IsLane k (p ∷ lane) flying bytes packets
    → IsLane k lane (p ∷ flying) bytes packets
taken-IsLane k p lane flying bytes packets l = record {
  bytes_sum = omega (arith, l.bytes_sum);
  count = omega (arith, l.count);
  own = l.own.1;
  own_flying = (l.own.0, l.own_flying);
}

pub restored-IsLane :
    (k : Bool) (p : Packet) (lane flying : List Packet) (bytes packets : ℕ)
    → IsLane k lane (p ∷ flying) bytes packets
    → IsLane k (p ∷ lane) flying bytes packets
restored-IsLane k p lane flying bytes packets l = record {
  bytes_sum = omega (arith, l.bytes_sum);
  count = omega (arith, l.count);
  own = (l.own_flying.0, l.own);
  own_flying = l.own_flying.1;
}

pub completed-IsLane :
    (k : Bool) (p : Packet) (lane flying : List Packet) (bytes packets : ℕ)
    → IsLane k lane (p ∷ flying) bytes packets
    → IsLane k lane flying (bytes - packet_cost p) (packets - 1)
completed-IsLane k p lane flying bytes packets l = record {
  bytes_sum = omega (arith, l.bytes_sum);
  count = omega (arith, l.count);
  own = l.own;
  own_flying = l.own_flying.1;
}

-- Evicting the oldest packets keeps the lane's counters.
pub evict-IsLane :
    (k : Bool) (over : ℕ → ℕ → Bool) (lane flying : List Packet) (bytes packets : ℕ)
    → IsLane k lane flying bytes packets
    → let r = evict over lane bytes packets in IsLane k r.0 flying r.1 r.2
unfolding evict
evict-IsLane k over [] flying bytes packets l = l
evict-IsLane k over (p ∷ ps) flying bytes packets l = elim (Bool-cases (over bytes packets)) [
  | inl go ↦
      rw (go, evict)
        (evict-IsLane k over ps flying (bytes - packet_cost p) (packets - 1) (record {
          bytes_sum = omega (arith, l.bytes_sum);
          count = omega (arith, l.count);
          own = l.own.1;
          own_flying = l.own_flying;
        }))
  | inr stop ↦ rw (stop, evict) l
]

-- A packet that stands for another of the lane.
pub replaced-IsLane :
    (k : Bool) (rest : List Packet) (old p : Packet) (flying : List Packet) (bytes packets : ℕ)
    → is_terminal_output p ≡ k
    → IsLane k (rest ++ (old ∷ [])) flying bytes packets
    → IsLane k (rest ++ (p ∷ [])) flying (bytes - packet_cost old + packet_cost p) packets
replaced-IsLane k rest old p flying bytes packets own l = record {
  bytes_sum =
      omega (arith, l.bytes_sum, cost_sum-append rest (old ∷ []), cost_sum-append rest (p ∷ []));
  count = omega (arith, l.count, length-append rest (old ∷ []), length-append rest (p ∷ []));
  own =
      append-All (λ x. is_terminal_output x ≡ k) rest (p ∷ [])
        (front-All (λ x. is_terminal_output x ≡ k) rest (old ∷ []) l.own) (own, tt);
  own_flying = l.own_flying;
}
