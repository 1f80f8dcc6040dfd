-- ===== src/OutputWindow/Marks.antt =====
-- The measurements of crates/et-core/src/output_window.rs.
use et_rs.Prelude.{
  ltb, ◌==◌, if◌then◌else◌, ==_iff, Bool-cases, length, drop, length-append, length-drop, ℕ, zero,
  suc, ◌-◌, ◌≤◌, ◌<◌, max, ◌≡◌, refl, ap, ◌∙◌, ◌≢◌, inl, inr, Bool, true, false, ◌||◌, Option, none,
  some, List, [], ◌∷◌, arith,
}
use et_rs.OutputWindow.{
  max_marks, pipe_samples, Mark, OutputWindow, push_mark, count_write, mark_write, on_write,
  take_marks, set, sample_pipe, sample, note_newest, is_none, note_delivered, arm, on_ack,
}

-- At most `max_marks` marks, and exactly `pipe_samples` samples with the cursor among them.
abbrev pub IsBounded : OutputWindow → Type 0
IsBounded w =
    (length w.marks ≤ max_marks) × (length w.pipe ≡ pipe_samples) × (w.next_pipe < pipe_samples)

length-push_mark :
    (marks : List Mark) (mark : Mark)
    → length marks ≤ max_marks
    → length (push_mark marks mark) ≤ max_marks
unfolding push_mark
length-push_mark marks mark h = elim (Bool-cases (length marks == max_marks)) [
  | inl full ↦ simp full (
      omega (
        arith,
        length-append (drop 1 marks) (mark ∷ []),
        length-drop 1 marks,
        (==_iff (length marks) max_marks).0 full,
      ))
  | inr room ↦ simp room (
      let apart : length marks ≢ max_marks = ground arith in
      omega (arith, length-append marks (mark ∷ []), h, apart))
]

due_marks :
    (due : Bool) (marks : List Mark) (mark : Mark)
    → length marks ≤ max_marks
    → length (if due then push_mark marks mark else marks) ≤ max_marks
due_marks true marks mark h = length-push_mark marks mark h
due_marks false marks mark h = h

mark_write-IsBounded :
    (w : OutputWindow) (sequence payload_len now : ℕ)
    → IsBounded w
    → IsBounded (mark_write w sequence payload_len now)
unfolding mark_write
mark_write-IsBounded w sequence payload_len now h = (due_marks _ w.marks _ h.0, h.1, h.2)

marks_if-IsBounded :
    (here : Bool) (w : OutputWindow) (sequence payload_len now : ℕ)
    → IsBounded w
    → IsBounded (if here then mark_write w sequence payload_len now else w)
marks_if-IsBounded true w sequence payload_len now h =
    mark_write-IsBounded w sequence payload_len now h
marks_if-IsBounded false w sequence payload_len now h = h

-- A write keeps at most 256 marks, and eight samples with the cursor among them.
pub on_write-IsBounded :
    (w : OutputWindow) (sequence payload_len : ℕ) (terminal carries_ack : Bool) (now : ℕ)
    → IsBounded w
    → IsBounded (on_write w sequence payload_len terminal carries_ack now)
unfolding on_write count_write
on_write-IsBounded w sequence payload_len terminal carries_ack now h =
    marks_if-IsBounded w.acknowledged_here (count_write w sequence payload_len terminal carries_ack)
      sequence payload_len now h

length-set : (xs : List ℕ) (i v : ℕ) → length (set xs i v) ≡ length xs
length-set [] i v = refl
length-set (x ∷ xs) zero v = refl
length-set (x ∷ xs) (suc i) v = ap suc (length-set xs i v)

length-take_marks :
    (acknowledged : ℕ) (newest : Option Mark) (marks : List Mark)
    → length (take_marks acknowledged newest marks).0 ≤ length marks
unfolding take_marks
length-take_marks acknowledged newest [] = omega arith
length-take_marks acknowledged newest (mark ∷ marks) =
    elim (Bool-cases (ltb acknowledged mark.sequence)) [
      | inl e ↦ rw (take_marks, e) (omega arith)
      | inr e ↦
          let rest = length-take_marks acknowledged (some mark) marks in
          rw (take_marks, e) (omega (arith, rest))
    ]

sample_pipe-IsBounded :
    (w : OutputWindow) (mark : Mark) (seeded delivered now : ℕ)
    → IsBounded w
    → IsBounded (sample_pipe w mark seeded delivered now)
unfolding sample_pipe
sample_pipe-IsBounded w mark seeded delivered now h =
    elim (Bool-cases (max (now - mark.delivered_at) (mark.sent - mark.first_sent) == 0)) [
      | inl idle ↦ simp idle h
      | inr busy ↦ simp busy (h.0, length-set w.pipe w.next_pipe _ ∙ h.1, omega arith)
    ]

sample-IsBounded :
    (w : OutputWindow) (newest : Option Mark) (seeded : Option ℕ) (delivered now : ℕ)
    → IsBounded w
    → IsBounded (sample w newest seeded delivered now)
unfolding sample
sample-IsBounded w none seeded delivered now h = h
sample-IsBounded w (some mark) none delivered now h = h
sample-IsBounded w (some mark) (some seeded) delivered now h =
    sample_pipe-IsBounded w mark seeded delivered now h

note_newest-IsBounded :
    (w : OutputWindow) (newest : Option Mark) → IsBounded w → IsBounded (note_newest w newest)
unfolding note_newest
note_newest-IsBounded w none h = h
note_newest-IsBounded w (some mark) h = h

note_delivered-IsBounded :
    (w : OutputWindow) (delivered now : ℕ)
    → IsBounded w
    → IsBounded (note_delivered w delivered now)
unfolding note_delivered
note_delivered-IsBounded w delivered now h =
    elim (Bool-cases (ltb w.delivered delivered || is_none w.delivered_at)) [
      | inl more ↦ simp more h
      | inr same ↦ simp same h
    ]

-- An acknowledgement keeps at most 256 marks, and eight samples with the cursor among them.
pub on_ack-IsBounded :
    (w : OutputWindow) (acknowledged unacknowledged now : ℕ)
    → IsBounded w
    → IsBounded (on_ack w acknowledged unacknowledged now)
unfolding on_ack arm
on_ack-IsBounded w acknowledged unacknowledged now h =
    let taken = take_marks acknowledged none w.marks in
    let left : IsBounded (record w { marks = taken.0 }) =
      (omega (arith, h.0, length-take_marks acknowledged none w.marks), h.1, h.2) in
    let delivered = w.written - unacknowledged in
    note_delivered-IsBounded _ delivered now
      (note_newest-IsBounded _ taken.1 (sample-IsBounded _ taken.1 w.min_rtt delivered now left))
