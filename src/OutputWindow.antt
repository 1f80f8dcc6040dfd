-- ===== src/OutputWindow.antt =====
-- crates/et-core/src/output_window.rs: the bound on terminal output that a client has not
-- acknowledged. Times and durations are nanoseconds.
pub mod Size
pub mod Release
pub mod Patience
pub mod Marks
use et_rs.Prelude.{
  ltb, leb, ◌==◌, if◌then◌else◌, length, drop, replicate, ℕ, zero, suc, ◌+◌, ◌-◌, ◌*◌, ◌/◌, ◌%◌,
  ◌^◌, min, max, Bool, true, false, ◌&&◌, ◌||◌, Option, none, some, List, [], ◌∷◌, ◌++◌,
}
use et_rs.Crypto.{mac_len}
use et_rs.KeepAlive.{ack_interval_bytes}

abbrev pub min_pipe_bytes : ℕ
min_pipe_bytes = 512 * 1024

abbrev pub pipe_gain : ℕ
pipe_gain = 2

abbrev pub max_window_bytes : ℕ
max_window_bytes = 16 * 1024 * 1024

abbrev pub patience : ℕ
patience = 10 * 1000000000

abbrev pub packet_overhead : ℕ
packet_overhead = 2 + mac_len

abbrev pub mark_spacing : ℕ
mark_spacing = 16 * 1024

abbrev pub marks_per_window : ℕ
marks_per_window = 64

abbrev pub max_marks : ℕ
max_marks = 256

abbrev pub pipe_samples : ℕ
pipe_samples = 8

abbrev pub u64_max : ℕ
u64_max = 2 ^ 64 - 1

abbrev pub saturating_add : ℕ → ℕ → ℕ
saturating_add a b = min (a + b) u64_max

pub record Mark : Type 0 where
  pub sequence : ℕ
  pub sent : ℕ
  pub terminal : ℕ
  pub delivered : ℕ
  pub delivered_at : ℕ
  pub first_sent : ℕ

pub record OutputWindow : Type 0 where
  pub marks : List Mark
  pub since_mark : ℕ
  pub written : ℕ
  pub delivered : ℕ
  pub terminal_written : ℕ
  pub terminal_delivered : ℕ
  pub delivered_at : Option ℕ
  pub delivered_sent : Option ℕ
  pub min_rtt : Option ℕ
  pub pipe : List ℕ
  pub next_pipe : ℕ
  pub ack_written : Option ℕ
  pub peer_reads_acks : Bool
  pub armed : Bool
  pub acknowledged_here : Bool
  pub stalled : Option (ℕ × ℕ)
  pub released : Option ℕ

unfoldable pub initial : OutputWindow
initial = record {
  marks = [];
  since_mark = 0;
  written = 0;
  delivered = 0;
  terminal_written = 0;
  terminal_delivered = 0;
  delivered_at = none;
  delivered_sent = none;
  min_rtt = none;
  pipe = replicate pipe_samples 0;
  next_pipe = 0;
  ack_written = none;
  peer_reads_acks = false;
  armed = false;
  acknowledged_here = false;
  stalled = none;
  released = none;
}

unfoldable pub for_new_transport : OutputWindow → OutputWindow
unfolding initial
for_new_transport w = record initial {
  written = w.written;
  delivered = w.delivered;
  terminal_written = w.terminal_written;
  terminal_delivered = w.terminal_delivered;
  peer_reads_acks = w.peer_reads_acks;
  armed = w.armed;
}

abbrev pub unwrap_or {ℓ} : {A : Type ℓ} → Option A → A → A
unwrap_or none d = d
unwrap_or (some a) d = a

unfoldable pub seed_round_trip : OutputWindow → ℕ → OutputWindow
seed_round_trip w rtt = record w { min_rtt = some (min (unwrap_or w.min_rtt rtt) rtt) }

-- `iter().copied().max().unwrap_or(0)`.
abbrev pub maximum : List ℕ → ℕ
maximum [] = 0
maximum (x ∷ xs) = max x (maximum xs)

unfoldable pub window : OutputWindow → ℕ
window w =
    let pipe = max (min (maximum w.pipe * pipe_gain) u64_max) min_pipe_bytes in
    min (saturating_add ack_interval_bytes pipe) max_window_bytes

unfoldable pub unacknowledged_terminal : OutputWindow → ℕ → ℕ
unacknowledged_terminal w unacknowledged =
    min (w.terminal_written - w.terminal_delivered) unacknowledged

-- A full list of marks forgets the oldest.
unfoldable pub push_mark : List Mark → Mark → List Mark
push_mark marks mark = (if length marks == max_marks then drop 1 marks else marks) ++ (mark ∷ [])

-- The counters of a write.
unfoldable pub count_write : OutputWindow → ℕ → ℕ → Bool → Bool → OutputWindow
count_write w sequence payload_len terminal carries_ack = record w {
  written = saturating_add w.written payload_len;
  terminal_written =
      if terminal then saturating_add w.terminal_written payload_len else w.terminal_written;
  ack_written = elim w.ack_written [
    | some first ↦ some first
    | none ↦ if carries_ack then some sequence else none
  ];
}

unfoldable pub mark_write : OutputWindow → ℕ → ℕ → ℕ → OutputWindow
mark_write w sequence payload_len now =
    let spacing = max (window w / marks_per_window) mark_spacing in
    let due = length w.marks == 0 || leb spacing w.since_mark in
    let mark : Mark = record {
      sequence = sequence;
      sent = now;
      terminal = w.terminal_written;
      delivered = w.delivered;
      delivered_at = unwrap_or w.delivered_at now;
      first_sent = unwrap_or w.delivered_sent now;
    } in
    record w {
      marks = if due then push_mark w.marks mark else w.marks;
      since_mark = saturating_add (if due then 0 else w.since_mark) payload_len;
    }

unfoldable pub on_write : OutputWindow → ℕ → ℕ → Bool → Bool → ℕ → OutputWindow
on_write w sequence payload_len terminal carries_ack now =
    let w' = count_write w sequence payload_len terminal carries_ack in
    if w.acknowledged_here then mark_write w' sequence payload_len now else w'

-- The loop that takes the acknowledged marks off the front: what is left, and the last one taken.
unfoldable pub take_marks : ℕ → Option Mark → List Mark → List Mark × Option Mark
take_marks acknowledged newest [] = ([], newest)
take_marks acknowledged newest (mark ∷ marks) = elim (ltb acknowledged mark.sequence) [
  | true ↦ (mark ∷ marks, newest)
  | false ↦ take_marks acknowledged (some mark) marks
]

abbrev pub set : List ℕ → ℕ → ℕ → List ℕ
set [] i v = []
set (x ∷ xs) zero v = v ∷ xs
set (x ∷ xs) (suc i) v = x ∷ set xs i v

-- The bandwidth-delay sample of a newly acknowledged mark.
unfoldable pub sample_pipe : OutputWindow → Mark → ℕ → ℕ → ℕ → OutputWindow
sample_pipe w mark seeded delivered now =
    let min_rtt = min seeded (now - mark.sent) in
    let span = max (now - mark.delivered_at) (mark.sent - mark.first_sent) in
    let bytes = delivered - mark.delivered in
    let w' = record w { min_rtt = some min_rtt } in
    if span == 0 then w' else record w' {
      pipe = set w.pipe w.next_pipe (min (bytes * min_rtt / span) u64_max);
      next_pipe = (w.next_pipe + 1) % pipe_samples;
    }

unfoldable pub sample : OutputWindow → Option Mark → Option ℕ → ℕ → ℕ → OutputWindow
sample w none seeded delivered now = w
sample w (some mark) none delivered now = w
sample w (some mark) (some seeded) delivered now = sample_pipe w mark seeded delivered now

unfoldable pub note_newest : OutputWindow → Option Mark → OutputWindow
note_newest w none = w
note_newest w (some mark) = record w {
  terminal_delivered = max w.terminal_delivered mark.terminal;
  delivered_sent = some mark.sent;
}

abbrev pub is_none {ℓ} : {A : Type ℓ} → Option A → Bool
is_none none = true
is_none (some a) = false

unfoldable pub note_delivered : OutputWindow → ℕ → ℕ → OutputWindow
note_delivered w delivered now =
    if ltb w.delivered delivered || is_none w.delivered_at
    then record w { delivered = max w.delivered delivered; delivered_at = some now }
    else w

abbrev pub covers : Option ℕ → ℕ → Bool
covers none acknowledged = false
covers (some sequence) acknowledged = leb sequence acknowledged

unfoldable pub arm : OutputWindow → ℕ → ℕ → OutputWindow
arm w acknowledged unacknowledged =
    let reads = w.peer_reads_acks || covers w.ack_written acknowledged in
    record w {
      acknowledged_here = true;
      peer_reads_acks = reads;
      armed = w.armed || (reads && leb (window w) (unacknowledged_terminal w unacknowledged));
    }

unfoldable pub on_ack : OutputWindow → ℕ → ℕ → ℕ → OutputWindow
on_ack w acknowledged unacknowledged now =
    let delivered = w.written - unacknowledged in
    let (marks, newest) = take_marks acknowledged none w.marks in
    let taken = record w { marks = marks } in
    let sampled = note_newest (sample taken newest w.min_rtt delivered now) newest in
    arm (note_delivered sampled delivered now) acknowledged unacknowledged
