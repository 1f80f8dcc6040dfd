-- ===== src/Writer/Invariant.antt =====
-- What the counters of a `BackedWriter` of crates/et-core/src/backed_writer.rs say of its backup.
use et_rs.Prelude.{
  ltb, Bool-cases, length, take, ℤ, pos, negsuc, ℕ, suc, ◌+◌, ◌-◌, ◌≤◌, ◌≡◌, refl, ap, inl, inr,
  Bool, ◌||◌, not, Option, none, some, List, ◌∷◌, arith,
}
use et_rs.Crypto.{CryptoHandler}
use et_rs.Backup.{Frame, wire_sum, over_hard_cap, over_hard_bytes}
use et_rs.Backup.Trim.{wire_sum-take-le, wire_sum-take-take-le, trim_loop-Trimmed}
use et_rs.Writer.{
  ReservedWrite, BackedWriter, new, trim, store, commit_connected, commit_disconnected,
  commit_write, acknowledge, revive,
}

-- What the peer acknowledged was written, and the backlog counts every unacknowledged frame that
-- is still kept.
abbrev pub Acked : Option ℕ → ℕ → List Frame → ℕ → Type 0
Acked none sequence backup backlog = wire_sum backup ≤ backlog
Acked (some a) sequence backup backlog =
    (a ≤ sequence) × (wire_sum (take (sequence - a) backup) ≤ backlog)

pub record IsValid (w : BackedWriter) : Type 0 where
  pub in_step : w.backup_size ≡ wire_sum w.backup
  pub counted : length w.backup ≤ w.sequence
  pub acked : Acked w.acknowledged w.sequence w.backup w.unacknowledged_bytes

-- A shorter backup of the same history.
shrunk-Acked :
    (o : Option ℕ) (sequence : ℕ) (backup rest : List Frame) (backlog : ℕ)
    → rest ≡ take (length rest) backup
    → Acked o sequence backup backlog
    → Acked o sequence rest backlog
shrunk-Acked none sequence backup rest backlog newest a =
    omega (arith, ap wire_sum newest, wire_sum-take-le (length rest) backup)
shrunk-Acked (some n) sequence backup rest backlog newest a = (
  a.0,
  omega (
    arith,
    ap (λ b. wire_sum (take (sequence - n) b)) newest,
    wire_sum-take-take-le (sequence - n) (length rest) backup,
    a.1,
  ),
)

pub trim-IsValid : (test : ℕ → ℕ → Bool) (w : BackedWriter) → IsValid w → IsValid (trim test w)
unfolding trim
trim-IsValid test w v =
    let t = trim_loop-Trimmed (length w.backup) test w.backup w.backup_size (omega arith) in
    record {
      in_step = t.in_step v.in_step;
      counted = omega (arith, t.shorter, v.counted);
      acked =
          shrunk-Acked w.acknowledged w.sequence w.backup _ w.unacknowledged_bytes t.newest v.acked;
    }

stored-Acked :
    (o : Option ℕ) (sequence : ℕ) (backup : List Frame) (backlog n : ℕ) (frame : Frame)
    → length frame ≡ n + 4
    → Acked o sequence backup backlog
    → Acked o (sequence + 1) (frame ∷ backup) (backlog + n)
stored-Acked none sequence backup backlog n frame size a = omega arith
stored-Acked (some k) sequence backup backlog n frame size a =
    let step : sequence + 1 - k ≡ suc (sequence - k) = omega (arith, a.0) in
    (omega (arith, a.0), rw step (omega (arith, a.1)))

pub store-IsValid :
    (w : BackedWriter) (n : ℕ) (frame : Frame)
    → length frame ≡ n + 4
    → IsValid w
    → IsValid (store w n frame)
unfolding store
store-IsValid w n frame size v = record {
  in_step = omega (arith, v.in_step);
  counted = omega (arith, v.counted);
  acked =
      stored-Acked w.acknowledged w.sequence w.backup w.unacknowledged_bytes n frame size v.acked;
}

pub commit_connected-IsValid :
    (w : BackedWriter) (reserved : ReservedWrite) (frame : Frame)
    → length frame ≡ reserved.packet_wire_len + 4
    → IsValid w
    → IsValid (commit_connected w reserved frame)
unfolding commit_connected
commit_connected-IsValid w reserved frame size v =
    trim-IsValid over_hard_cap _
      (trim-IsValid _ _ (store-IsValid w reserved.packet_wire_len frame size v))

pub commit_disconnected-IsValid :
    (w : BackedWriter) (reserved : ReservedWrite) (frame : Frame)
    → length frame ≡ reserved.packet_wire_len + 4
    → IsValid w
    → IsValid (commit_disconnected w reserved frame)
unfolding commit_disconnected
commit_disconnected-IsValid w reserved frame size v =
    let stored = store-IsValid w reserved.packet_wire_len frame size v in
    record { in_step = stored.in_step; counted = stored.counted; acked = stored.acked }

-- Committing a frame of the reserved length keeps the counters true, connected or not.
pub commit_write-IsValid :
    (w : BackedWriter) (reserved : ReservedWrite) (frame : Frame)
    → length frame ≡ reserved.packet_wire_len + 4
    → IsValid w
    → IsValid (commit_write w reserved frame).0
unfolding commit_write
commit_write-IsValid w reserved frame size v = elim (Bool-cases w.connected) [
  | inl on ↦ simp on (commit_connected-IsValid w reserved frame size v)
  | inr off ↦ simp off (commit_disconnected-IsValid w reserved frame size v)
]

pub acknowledge-IsValid : (w : BackedWriter) (a : ℤ) → IsValid w → IsValid (acknowledge w a)
unfolding acknowledge
acknowledge-IsValid w (negsuc n) v = v
acknowledge-IsValid w (pos a) v = elim (Bool-cases (not w.connected || ltb w.sequence a)) [
  | inl ignored ↦ rw ignored v
  | inr taken ↦ rw taken (
      trim-IsValid _ _
        (record { in_step = v.in_step; counted = v.counted; acked = (ground arith, omega arith) }))
]

pub revive-IsValid : (w : BackedWriter) → IsValid w → IsValid (revive w)
unfolding revive
revive-IsValid w v =
    trim-IsValid over_hard_bytes _
      (record { in_step = v.in_step; counted = v.counted; acked = v.acked })

pub new-IsValid : (crypto : CryptoHandler) (connected : Bool) → IsValid (new crypto connected)
unfolding new
new-IsValid crypto connected = record { in_step = refl; counted = omega arith; acked = omega arith }
