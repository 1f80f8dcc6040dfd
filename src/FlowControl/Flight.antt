-- ===== src/FlowControl/Flight.antt =====
-- The counters of the lanes of crates/et-core/src/flow_control.rs while packets are taken,
-- completed and restored.
use et_rs.Prelude.{
  ltb, Bool-cases, take, drop, ℕ, ◌+◌, ◌-◌, ◌≡◌, refl, subst, ◌⊎◌, inl, inr, Bool, true, false,
  ◌||◌, not, Option, none, some, List, [], ◌∷◌, arith,
}
use et_rs.FlowControl.{flush_threshold, Codec, Stream, OutputQueue, packet_cost, is_terminal_output}
use et_rs.FlowControl.Rewrite.{
  with_body, repack, promote_bytes, promote_collected, promote_terminal_control,
}
use et_rs.FlowControl.Drain.{taken, take_lanes, take_packet, complete, complete_taken, pop}
use et_rs.FlowControl.Accounting.{
  IsLane, IsAccounted, taken-IsLane, restored-IsLane, completed-IsLane,
}
use et_rs.Packet.{Packet}

with_body-own :
    (codec : Codec) (p : Packet) (body : List ℕ) (is_stderr : Option Bool)
    → is_terminal_output p ≡ true
    → is_terminal_output (with_body codec p body is_stderr) ≡ true
unfolding is_terminal_output
with_body-own codec p body is_stderr own = own

-- Rewriting the packets of the lane moves its size with them.
repack-IsLane :
    (codec : Codec) (lane : List Packet) (spans : List (ℕ × Option Bool)) (remaining : List ℕ)
    (flying : List Packet) (bytes packets : ℕ)
    → IsLane true lane flying bytes packets
    → let r = repack codec lane spans remaining bytes in IsLane true r.0 flying r.1 packets
unfolding repack
repack-IsLane codec [] spans remaining flying bytes packets l = l
repack-IsLane codec (p ∷ ps) [] remaining flying bytes packets l = l
repack-IsLane codec (p ∷ ps) ((size, is_stderr) ∷ spans) remaining flying bytes packets l =
    let p' : Packet = with_body codec p (take size remaining) is_stderr in
    let rewritten : IsLane true ps (p' ∷ flying) (bytes - packet_cost p + packet_cost p') packets =
      record {
        bytes_sum = omega (arith, l.bytes_sum);
        count = omega (arith, l.count);
        own = l.own.1;
        own_flying = (with_body-own codec p _ is_stderr l.own.0, l.own_flying);
      } in
    restored-IsLane true p' _ flying _ packets
      (repack-IsLane codec ps spans (drop size remaining) (p' ∷ flying) _ packets rewritten)

-- The packet that came out of the queue, if any, is in flight in its own lane.
abbrev pub IsTaken :
    {S : Type 0} → OutputQueue S × Option Packet → List Packet → List Packet → Type 0
IsTaken (q, none) t c = IsAccounted q t c
IsTaken (q, some p) t c =
    ((is_terminal_output p ≡ true) × IsAccounted q (p ∷ t) c)
    ⊎ ((is_terminal_output p ≡ false) × IsAccounted q t (p ∷ c))

module _ {S : Type 0} (stream : Stream S) (codec : Codec) where
  promote_bytes-IsAccounted :
      (q : OutputQueue S) (spans : List (ℕ × Option Bool)) (o : Option (List ℕ)) (t c : List Packet)
      → IsAccounted q t c
      → IsAccounted (promote_bytes stream codec q spans o) t c
  unfolding promote_bytes
  promote_bytes-IsAccounted q spans none t c a = a
  promote_bytes-IsAccounted q spans (some promoted) t c a = record {
    terminal_counters =
        repack-IsLane codec q.terminal spans promoted t q.terminal_bytes q.terminal_packets
          a.terminal_counters;
    control_counters = a.control_counters;
  }

  promote_collected-IsAccounted :
      (q : OutputQueue S) (o : Option (List (ℕ × Option Bool) × List ℕ)) (t c : List Packet)
      → IsAccounted q t c
      → IsAccounted (promote_collected stream codec q o) t c
  unfolding promote_collected
  promote_collected-IsAccounted q none t c a = a
  promote_collected-IsAccounted q (some (spans, bytes)) t c a =
      promote_bytes-IsAccounted q spans (stream.promote_control q.stream bytes) t c a

  promote-IsAccounted :
      (q : OutputQueue S) (t c : List Packet)
      → IsAccounted q t c
      → IsAccounted (promote_terminal_control stream codec q) t c
  unfolding promote_terminal_control
  promote-IsAccounted q t c a =
      elim (Bool-cases (not q.promotion_pending || ltb q.terminal_bytes flush_threshold)) [
        | inl idle ↦ simp idle a
        | inr due ↦ simp due (
            promote_collected-IsAccounted (record q { promotion_pending = false }) _ t c
              (record {
                terminal_counters = a.terminal_counters;
                control_counters = a.control_counters;
              }))
      ]

  taken_terminal :
      (q : OutputQueue S) (p : Packet) (t c : List Packet)
      → is_terminal_output p ≡ true
      → IsAccounted q (p ∷ t) c
      → IsTaken (taken stream codec q p) t c
  unfolding taken
  taken_terminal q p t c own a = simp own (
      inl (
        refl,
        record { terminal_counters = a.terminal_counters; control_counters = a.control_counters },
      ))

  taken_control :
      (q : OutputQueue S) (p : Packet) (t c : List Packet)
      → is_terminal_output p ≡ false
      → IsAccounted q t (p ∷ c)
      → IsTaken (taken stream codec q p) t c
  unfolding taken
  taken_control q p t c own a = simp own (
      inr (
        refl,
        record { terminal_counters = a.terminal_counters; control_counters = a.control_counters },
      ))

  front_terminal :
      (q : OutputQueue S) (p : Packet) (ps t c : List Packet)
      → q.terminal ≡ p ∷ ps
      → IsAccounted q t c
      → IsTaken (taken stream codec (record q { terminal = ps }) p) t c
  front_terminal q p ps t c e a =
      let lane : IsLane true (p ∷ ps) t q.terminal_bytes q.terminal_packets =
        subst (λ xs. IsLane true xs t q.terminal_bytes q.terminal_packets) e a.terminal_counters in
      taken_terminal (record q { terminal = ps }) p t c lane.own.0
        (record {
          terminal_counters = taken-IsLane true p ps t q.terminal_bytes q.terminal_packets lane;
          control_counters = a.control_counters;
        })

  front_control :
      (q : OutputQueue S) (p : Packet) (ps t c : List Packet)
      → q.control ≡ p ∷ ps
      → IsAccounted q t c
      → IsTaken (taken stream codec (record q { control = ps }) p) t c
  front_control q p ps t c e a =
      let lane : IsLane false (p ∷ ps) c q.control_bytes q.control_packets =
        subst (λ xs. IsLane false xs c q.control_bytes q.control_packets) e a.control_counters in
      taken_control (record q { control = ps }) p t c lane.own.0
        (record {
          terminal_counters = a.terminal_counters;
          control_counters = taken-IsLane false p ps c q.control_bytes q.control_packets lane;
        })

  take_lanes-IsTaken :
      (prefer : Bool) (ts cs : List Packet) (q : OutputQueue S) (t c : List Packet)
      → q.terminal ≡ ts
      → q.control ≡ cs
      → IsAccounted q t c
      → IsTaken (take_lanes stream codec prefer ts cs q) t c
  unfolding take_lanes
  take_lanes-IsTaken prefer [] [] q t c et ec a = a
  take_lanes-IsTaken prefer (p ∷ ps) [] q t c et ec a = front_terminal q p ps t c et a
  take_lanes-IsTaken prefer [] (p ∷ ps) q t c et ec a = front_control q p ps t c ec a
  take_lanes-IsTaken true (p ∷ ps) (p' ∷ ps') q t c et ec a = front_terminal q p ps t c et a
  take_lanes-IsTaken false (p ∷ ps) (p' ∷ ps') q t c et ec a = front_control q p' ps' t c ec a

  -- Taking the next packet, after any promotion of control lines, puts exactly the packet that is
  -- returned in flight, in its own lane, and keeps the counters true of the rest.
  pub take_packet-IsTaken :
      (q : OutputQueue S) (t c : List Packet)
      → IsAccounted q t c
      → IsTaken (take_packet stream codec q) t c
  unfolding take_packet
  take_packet-IsTaken q t c a =
      let q' : OutputQueue S = promote_terminal_control stream codec q in
      take_lanes-IsTaken q'.prefer_terminal q'.terminal q'.control q' t c refl refl
        (promote-IsAccounted q t c a)

  complete_taken-IsAccounted :
      (r : OutputQueue S × Option Packet) (t c : List Packet)
      → IsTaken r t c
      → IsAccounted (complete_taken stream codec r).0 t c
  unfolding complete_taken complete
  complete_taken-IsAccounted (q, none) t c a = a
  complete_taken-IsAccounted (q, some p) t c (inl (own, a)) = simp own (record {
    terminal_counters =
        completed-IsLane true p q.terminal t q.terminal_bytes q.terminal_packets
          a.terminal_counters;
    control_counters = a.control_counters;
  })
  complete_taken-IsAccounted (q, some p) t c (inr (own, a)) = simp own (record {
    terminal_counters = a.terminal_counters;
    control_counters =
        completed-IsLane false p q.control c q.control_bytes q.control_packets a.control_counters;
  })

  -- A packet that is popped is taken and completed: the counters describe what is left, with the
  -- same packets in flight as before.
  pub pop-IsAccounted :
      (q : OutputQueue S) (t c : List Packet)
      → IsAccounted q t c
      → IsAccounted (pop stream codec q).0 t c
  unfolding pop
  pop-IsAccounted q t c a =
      complete_taken-IsAccounted (take_packet stream codec q) t c (take_packet-IsTaken q t c a)
