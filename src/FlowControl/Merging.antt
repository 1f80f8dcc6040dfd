-- ===== src/FlowControl/Merging.antt =====
-- Admitting a terminal packet in crates/et-core/src/flow_control.rs: merging it into the last one,
-- appending it, and evicting older ones for it.
use et_rs.Prelude.{
  Bool-cases, Option-cases, last-All, ℕ, ◌≡◌, ap, subst, inl, inr, Bool, true, Option, none, some,
  List, [], ◌∷◌, ◌++◌, arith,
}
use et_rs.FlowControl.{
  coalesced_terminal_bytes, Codec, Stream, FlowControlMode, backpressure, discard, OutputQueue,
  packet_cost, is_terminal_output,
}
use et_rs.FlowControl.Admission.{
  split_back, evict, over_lane, may_promote, note_promotion, push_back, merge_back, merge_or_push,
  append_terminal, admit_discarding, admit_terminal,
}
use et_rs.FlowControl.Accounting.{IsLane, IsAccounted, pushed-IsLane, evict-IsLane, replaced-IsLane}
use et_rs.Packet.{Packet, append_terminal_buffer}

append_terminal_buffer_header :
    (p : Packet) (bytes : List ℕ) (is_stderr : Bool) (limit : ℕ)
    → (append_terminal_buffer p bytes is_stderr limit).0.header ≡ p.header
unfolding append_terminal_buffer
append_terminal_buffer_header p bytes is_stderr limit = ground arith

split_back_lem :
    (ps : List Packet) (rest : List Packet) (back : Packet)
    → split_back ps ≡ some (rest, back)
    → ps ≡ rest ++ (back ∷ [])
unfolding split_back
split_back_lem [] rest back e = absurd (ground arith)
split_back_lem (p ∷ []) rest back e = ground arith
split_back_lem (p ∷ q ∷ ps) rest back e = elim (Option-cases (split_back (q ∷ ps))) [
  | inl stop ↦ absurd (ground arith)
  | inr ((rest', back'), go) ↦ let ih = split_back_lem (q ∷ ps) rest' back' go in ground arith
]

pub own_header :
    (p p' : Packet)
    → p'.header ≡ p.header
    → is_terminal_output p ≡ true
    → is_terminal_output p' ≡ true
unfolding is_terminal_output
own_header p p' same own = rw same own

module _ {S : Type 0} (stream : Stream S) (codec : Codec) where
  push_back-IsAccounted :
      (q : OutputQueue S) (p : Packet) (t c : List Packet)
      → is_terminal_output p ≡ true
      → IsAccounted q t c
      → IsAccounted (push_back stream codec q p) t c
  unfolding push_back
  push_back-IsAccounted q p t c own a = record {
    terminal_counters =
        pushed-IsLane true q.terminal t q.terminal_bytes q.terminal_packets p own
          a.terminal_counters;
    control_counters = a.control_counters;
  }

  merge_back-IsAccounted :
      (q : OutputQueue S) (p : Packet) (rest : List Packet) (back : Packet) (bytes : List ℕ)
      (is_stderr : Bool) (t c : List Packet)
      → q.terminal ≡ rest ++ (back ∷ [])
      → is_terminal_output p ≡ true
      → IsAccounted q t c
      → IsAccounted (merge_back stream codec q p rest back bytes is_stderr) t c
  unfolding merge_back
  merge_back-IsAccounted q p rest back bytes is_stderr t c e own a =
      let appended = append_terminal_buffer back bytes is_stderr coalesced_terminal_bytes in
      let lane : IsLane true (rest ++ (back ∷ [])) t q.terminal_bytes q.terminal_packets =
        subst (λ ps. IsLane true ps t q.terminal_bytes q.terminal_packets) e a.terminal_counters in
      let own_back : is_terminal_output appended.0 ≡ true =
        own_header back appended.0
          (append_terminal_buffer_header back bytes is_stderr coalesced_terminal_bytes)
          (last-All (λ x. is_terminal_output x ≡ true) rest back lane.own) in
      elim (Bool-cases appended.1) [
        | inl merged ↦ simp merged (record {
          terminal_counters =
              replaced-IsLane true rest back appended.0 t q.terminal_bytes q.terminal_packets
                own_back lane;
          control_counters = a.control_counters;
        })
        | inr apart ↦ simp apart (push_back-IsAccounted q p t c own a)
      ]

  note_promotion-IsAccounted :
      (q : OutputQueue S) (p : Packet) (t c : List Packet)
      → IsAccounted q t c
      → IsAccounted (note_promotion stream codec q p) t c
  unfolding note_promotion
  note_promotion-IsAccounted q p t c a = elim (Bool-cases (may_promote stream codec q p)) [
    | inl may ↦
        simp may (record {
          terminal_counters = a.terminal_counters;
          control_counters = a.control_counters;
        })
    | inr never ↦ simp never a
  ]

  note_promotion_terminal :
      (q : OutputQueue S) (p : Packet) → (note_promotion stream codec q p).terminal ≡ q.terminal
  unfolding note_promotion
  note_promotion_terminal q p = ground arith

  merge_or_push-IsAccounted :
      (q : OutputQueue S) (p : Packet) (last : Option (List Packet × Packet))
      (body : Option (List ℕ × Bool)) (t c : List Packet)
      → split_back q.terminal ≡ last
      → is_terminal_output p ≡ true
      → IsAccounted q t c
      → IsAccounted (merge_or_push stream codec q p last body) t c
  unfolding merge_or_push
  merge_or_push-IsAccounted q p none body t c e own a = push_back-IsAccounted q p t c own a
  merge_or_push-IsAccounted q p (some last) none t c e own a = push_back-IsAccounted q p t c own a
  merge_or_push-IsAccounted q p (some (rest, back)) (some (bytes, is_stderr)) t c e own a =
      merge_back-IsAccounted q p rest back bytes is_stderr t c
        (split_back_lem q.terminal rest back e) own a

  append_terminal-IsAccounted :
      (q : OutputQueue S) (p : Packet) (t c : List Packet)
      → is_terminal_output p ≡ true
      → IsAccounted q t c
      → IsAccounted (append_terminal stream codec q p) t c
  unfolding append_terminal
  append_terminal-IsAccounted q p t c own a =
      merge_or_push-IsAccounted (note_promotion stream codec q p) p _ _ t c
        (ap split_back (note_promotion_terminal q p)) own (note_promotion-IsAccounted q p t c a)

  admit_discarding-IsAccounted :
      (q : OutputQueue S) (p : Packet) (t c : List Packet)
      → is_terminal_output p ≡ true
      → IsAccounted q t c
      → IsAccounted (admit_discarding stream codec q p).0 t c
  unfolding admit_discarding
  admit_discarding-IsAccounted q p t c own a =
      let left =
        evict (over_lane (packet_cost p) q.limit) q.terminal q.terminal_bytes q.terminal_packets in
      let evicted : IsAccounted
          (record q { terminal = left.0; terminal_bytes = left.1; terminal_packets = left.2 }) t c =
        record {
          terminal_counters =
              evict-IsLane true (over_lane (packet_cost p) q.limit) q.terminal t q.terminal_bytes
                q.terminal_packets a.terminal_counters;
          control_counters = a.control_counters;
        } in
      elim (Bool-cases left.3) [
        | inl fits ↦ simp fits (append_terminal-IsAccounted _ p t c own evicted)
        | inr never ↦ simp never evicted
      ]

  pub admit_terminal-IsAccounted :
      (mode : FlowControlMode) (q : OutputQueue S) (p : Packet) (t c : List Packet)
      → is_terminal_output p ≡ true
      → IsAccounted q t c
      → IsAccounted (admit_terminal stream codec mode q p).0 t c
  unfolding admit_terminal
  admit_terminal-IsAccounted discard q p t c own a = admit_discarding-IsAccounted q p t c own a
  admit_terminal-IsAccounted backpressure q p t c own a =
      elim (Bool-cases (over_lane (packet_cost p) q.limit q.terminal_bytes q.terminal_packets)) [
        | inl over ↦ simp over a
        | inr fits ↦ simp fits (append_terminal-IsAccounted q p t c own a)
      ]
