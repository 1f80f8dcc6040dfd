-- ===== src/OutputWindow/Patience.antt =====
-- The deadline of the bound of crates/et-core/src/output_window.rs on output that a silent client
-- has not acknowledged.
use et_rs.Prelude.{
  ltb, leb, ◌==◌, ==_iff, Bool-cases, ℕ, ◌+◌, ◌-◌, ◌≤◌, ◌≡◌, refl, ap, ◌∙◌, inl, inr, Bool, true,
  false, ◌||◌, not, Option, none, some, arith,
}
use et_rs.OutputWindow.{patience, OutputWindow, window, unacknowledged_terminal}
use et_rs.OutputWindow.Release.{hold, blocked_unreleased, blocked_enforced, blocked}

-- A window that waits until a deadline for an acknowledgement beyond the given one.
record IsWaiting (w : OutputWindow) (acknowledged until : ℕ) : Type 0 where
  enforced : not w.armed || not w.acknowledged_here ≡ false
  unreleased : w.released ≡ none
  since : ℕ
  seen : w.stalled ≡ some (acknowledged, since)
  deadline : since + patience ≡ until

hold-IsWaiting :
    (s : Option (ℕ × ℕ)) (w : OutputWindow) (acknowledged now until : ℕ)
    → w.stalled ≡ s
    → not w.armed || not w.acknowledged_here ≡ false
    → w.released ≡ none
    → (hold s w acknowledged now).1 ≡ some until
    → IsWaiting (hold s w acknowledged now).0 acknowledged until
unfolding hold
hold-IsWaiting none w acknowledged now until same enforced unreleased e = record {
  enforced = enforced;
  unreleased = unreleased;
  since = now;
  seen = refl;
  deadline = ground arith;
}
hold-IsWaiting (some (seen, since)) w acknowledged now until same enforced unreleased e =
    elim (Bool-cases (seen == acknowledged)) [
      | inl old ↦ elim (Bool-cases (leb patience (now - since))) [
        | inl over ↦ absurd (ground arith)
        | inr early ↦
            simp (old, early)
              (record {
                enforced = enforced;
                unreleased = unreleased;
                since = since;
                seen = same ∙ ap (λ n. some (n, since)) ((==_iff seen acknowledged).0 old);
                deadline = ground arith;
              })
      ]
      | inr new ↦ simp new (record {
        enforced = enforced;
        unreleased = unreleased;
        since = now;
        seen = refl;
        deadline = ground arith;
      })
    ]

hold_ends :
    (s : Option (ℕ × ℕ)) (w : OutputWindow) (acknowledged since later : ℕ)
    → s ≡ some (acknowledged, since)
    → since + patience ≤ later
    → (hold s w acknowledged later).1 ≡ none
unfolding hold
hold_ends none w acknowledged since later e h = ground arith
hold_ends (some (seen, since')) w acknowledged since later e h = ground arith

blocked_unreleased-IsWaiting :
    (w : OutputWindow) (acknowledged unacknowledged now until : ℕ)
    → not w.armed || not w.acknowledged_here ≡ false
    → w.released ≡ none
    → (blocked_unreleased w acknowledged unacknowledged now).1 ≡ some until
    → IsWaiting (blocked_unreleased w acknowledged unacknowledged now).0 acknowledged until
unfolding blocked_unreleased
blocked_unreleased-IsWaiting w acknowledged unacknowledged now until enforced unreleased e =
    elim (Bool-cases (ltb (unacknowledged_terminal w unacknowledged) (window w))) [
      | inl room ↦ absurd (ground arith)
      | inr full ↦ simp full (
          hold-IsWaiting w.stalled w acknowledged now until refl enforced unreleased
            (simp full at e))
    ]

blocked_enforced-IsWaiting :
    (o : Option ℕ) (w : OutputWindow) (acknowledged unacknowledged now until : ℕ)
    → w.released ≡ o
    → not w.armed || not w.acknowledged_here ≡ false
    → (blocked_enforced o w acknowledged unacknowledged now).1 ≡ some until
    → IsWaiting (blocked_enforced o w acknowledged unacknowledged now).0 acknowledged until
unfolding blocked_enforced
blocked_enforced-IsWaiting none w acknowledged unacknowledged now until o enforced e =
    blocked_unreleased-IsWaiting w acknowledged unacknowledged now until enforced o e
blocked_enforced-IsWaiting (some r) w acknowledged unacknowledged now until o enforced e =
    elim (Bool-cases (leb acknowledged r)) [
      | inl free ↦ absurd (ground arith)
      | inr held ↦ simp held (
          blocked_unreleased-IsWaiting (record w { released = none }) acknowledged unacknowledged
            now until enforced refl (simp held at e))
    ]

unreleased_ends :
    (w : OutputWindow) (acknowledged unacknowledged later until : ℕ)
    → IsWaiting w acknowledged until
    → until ≤ later
    → (blocked_unreleased w acknowledged unacknowledged later).1 ≡ none
unfolding blocked_unreleased
unreleased_ends w acknowledged unacknowledged later until i h =
    let ends =
      hold_ends w.stalled w acknowledged i.since later i.seen (omega (arith, i.deadline)) in
    elim (Bool-cases (ltb (unacknowledged_terminal w unacknowledged) (window w))) [
      | inl room ↦ simp room refl
      | inr full ↦ simp full ends
    ]

enforced_ends :
    (o : Option ℕ) (w : OutputWindow) (acknowledged unacknowledged later until : ℕ)
    → o ≡ none
    → IsWaiting w acknowledged until
    → until ≤ later
    → (blocked_enforced o w acknowledged unacknowledged later).1 ≡ none
unfolding blocked_enforced
enforced_ends none w acknowledged unacknowledged later until o i h =
    unreleased_ends w acknowledged unacknowledged later until i h
enforced_ends (some r) w acknowledged unacknowledged later until o i h = absurd (ground arith)

blocked_ends :
    (w : OutputWindow) (acknowledged unacknowledged later until : ℕ)
    → IsWaiting w acknowledged until
    → until ≤ later
    → (blocked w acknowledged unacknowledged later).1 ≡ none
unfolding blocked
blocked_ends w acknowledged unacknowledged later until i h =
    rw (i.enforced)
      (enforced_ends w.released w acknowledged unacknowledged later until i.unreleased i h)

blocked-IsWaiting :
    (w : OutputWindow) (acknowledged unacknowledged now until : ℕ)
    → (blocked w acknowledged unacknowledged now).1 ≡ some until
    → IsWaiting (blocked w acknowledged unacknowledged now).0 acknowledged until
unfolding blocked
blocked-IsWaiting w acknowledged unacknowledged now until e =
    elim (Bool-cases (not w.armed || not w.acknowledged_here)) [
      | inl off ↦ absurd (ground arith)
      | inr on ↦ simp on (
          blocked_enforced-IsWaiting w.released w acknowledged unacknowledged now until refl on
            (simp on at e))
    ]

-- Where the window blocks, the deadline that it returns is honoured: asked again at or after the
-- deadline, with no new acknowledgement and any backlog, it does not block.
pub blocked_deadline :
    (w : OutputWindow) (acknowledged unacknowledged now until later unacknowledged' : ℕ)
    → (blocked w acknowledged unacknowledged now).1 ≡ some until
    → until ≤ later
    → (blocked (blocked w acknowledged unacknowledged now).0 acknowledged unacknowledged' later).1
      ≡ none
blocked_deadline w acknowledged unacknowledged now until later unacknowledged' e h =
    blocked_ends _ acknowledged unacknowledged' later until
      (blocked-IsWaiting w acknowledged unacknowledged now until e) h

enforced_flags : (a b : Bool) → not a || not b ≡ false → (a ≡ true) × (b ≡ true)
enforced_flags a b e = ground arith

unreleased_only :
    (w : OutputWindow) (acknowledged unacknowledged now until : ℕ)
    → (blocked_unreleased w acknowledged unacknowledged now).1 ≡ some until
    → window w ≤ unacknowledged_terminal w unacknowledged
unfolding blocked_unreleased
unreleased_only w acknowledged unacknowledged now until e =
    elim (Bool-cases (ltb (unacknowledged_terminal w unacknowledged) (window w))) [
      | inl room ↦ absurd (ground arith)
      | inr full ↦ ground arith
    ]

enforced_only :
    (o : Option ℕ) (w : OutputWindow) (acknowledged unacknowledged now until : ℕ)
    → (blocked_enforced o w acknowledged unacknowledged now).1 ≡ some until
    → window w ≤ unacknowledged_terminal w unacknowledged
unfolding blocked_enforced
enforced_only none w acknowledged unacknowledged now until e =
    unreleased_only w acknowledged unacknowledged now until e
enforced_only (some r) w acknowledged unacknowledged now until e =
    elim (Bool-cases (leb acknowledged r)) [
      | inl free ↦ absurd (ground arith)
      | inr held ↦
          unfold window unacknowledged_terminal in
          unreleased_only (record w { released = none }) acknowledged unacknowledged now until
            (simp held at e)
    ]
