-- ===== src/DeliveryGate/Patience.antt =====
-- When the gate of crates/et-bin/src/delivery_gate.rs closes, and when it opens with no new
-- acknowledgement.
use et_rs.Prelude.{
  ltb, leb, ◌==◌, ==_iff, Bool-cases, ℕ, ◌+◌, ◌-◌, ◌≤◌, ◌≡◌, refl, ap, ◌∙◌, inl, inr, true, false,
  Option, none, some, arith,
}
use et_rs.DeliveryGate.{
  max_unacknowledged_bytes, DeliveryGate, release_after, release_at, stall, check_unreleased,
  check_released, check, observe,
}

-- The gate waits for an acknowledgement beyond the given one.
abbrev IsWaiting : DeliveryGate → ℕ → ℕ → Type 0
IsWaiting g acknowledged since = (g.released ≡ none) × (g.stalled ≡ some (acknowledged, since))

stall-IsWaiting :
    (s : Option (ℕ × ℕ)) (g : DeliveryGate) (acknowledged now patience : ℕ)
    → g.stalled ≡ s
    → g.released ≡ none
    → (stall s g acknowledged now patience).1 ≡ true
    → (since : ℕ) × IsWaiting (stall s g acknowledged now patience).0 acknowledged since
unfolding stall
stall-IsWaiting none g acknowledged now patience same free e = (now, (free, refl))
stall-IsWaiting (some (seen, since)) g acknowledged now patience same free e =
    elim (Bool-cases (seen == acknowledged)) [
      | inl old ↦ elim (Bool-cases (leb patience (now - since))) [
        | inl over ↦ absurd (ground arith)
        | inr early ↦
            simp (old, early)
              (since, (free, same ∙ ap (λ n. some (n, since)) ((==_iff seen acknowledged).0 old)))
      ]
      | inr new ↦ simp new (now, (free, refl))
    ]

unreleased-IsWaiting :
    (g : DeliveryGate) (acknowledged unacknowledged now patience : ℕ)
    → g.released ≡ none
    → (check_unreleased g acknowledged unacknowledged now patience).1 ≡ true
    → (max_unacknowledged_bytes ≤ unacknowledged)
      × ((since : ℕ) × IsWaiting
            (check_unreleased g acknowledged unacknowledged now patience).0
            acknowledged
            since)
unfolding check_unreleased
unreleased-IsWaiting g acknowledged unacknowledged now patience free e =
    elim (Bool-cases (ltb unacknowledged max_unacknowledged_bytes)) [
      | inl room ↦ absurd (ground arith)
      | inr full ↦ simp full (
        ground arith,
        stall-IsWaiting g.stalled g acknowledged now patience refl free (simp full at e),
      )
    ]

released-IsWaiting :
    (o : Option ℕ) (g : DeliveryGate) (acknowledged unacknowledged now patience : ℕ)
    → g.released ≡ o
    → (check_released o g acknowledged unacknowledged now patience).1 ≡ true
    → (max_unacknowledged_bytes ≤ unacknowledged)
      × ((since : ℕ) × IsWaiting
            (check_released o g acknowledged unacknowledged now patience).0
            acknowledged
            since)
unfolding check_released
released-IsWaiting none g acknowledged unacknowledged now patience o e =
    unreleased-IsWaiting g acknowledged unacknowledged now patience o e
released-IsWaiting (some r) g acknowledged unacknowledged now patience o e =
    elim (Bool-cases (leb acknowledged r)) [
      | inl open_gate ↦ absurd (ground arith)
      | inr past ↦ simp past (
          unreleased-IsWaiting (record g { released = none }) acknowledged unacknowledged now
            patience refl (simp past at e))
    ]

stall_ends :
    (s : Option (ℕ × ℕ)) (g : DeliveryGate) (acknowledged since later patience : ℕ)
    → s ≡ some (acknowledged, since)
    → since + patience ≤ later
    → (stall s g acknowledged later patience).1 ≡ false
unfolding stall
stall_ends none g acknowledged since later patience e h = ground arith
stall_ends (some (seen, since')) g acknowledged since later patience e h = ground arith

released_ends :
    (o : Option ℕ) (g : DeliveryGate) (acknowledged unacknowledged since later patience : ℕ)
    → o ≡ none
    → g.stalled ≡ some (acknowledged, since)
    → since + patience ≤ later
    → (check_released o g acknowledged unacknowledged later patience).1 ≡ false
unfolding check_released check_unreleased
released_ends (some r) g acknowledged unacknowledged since later patience free seen h =
    absurd (ground arith)
released_ends none g acknowledged unacknowledged since later patience free seen h =
    elim (Bool-cases (ltb unacknowledged max_unacknowledged_bytes)) [
      | inl room ↦ simp room refl
      | inr full ↦ simp full (stall_ends g.stalled g acknowledged since later patience seen h)
    ]

-- Where the gate closes, a whole 4 MiB is unacknowledged and the gate names the time of its
-- release: asked again then or later, with no new acknowledgement and any backlog, it is open.
pub observe_patience :
    (g : DeliveryGate) (acknowledged unacknowledged unacknowledged' now extra patience : ℕ)
    → (observe g true (some (acknowledged, unacknowledged)) now patience).1 ≡ true
    → let g' = (observe g true (some (acknowledged, unacknowledged)) now patience).0 in
      (max_unacknowledged_bytes ≤ unacknowledged)
      × ((until : ℕ) × (release_at g' patience ≡ some until)
          × ((observe g' true (some (acknowledged, unacknowledged')) (until + extra) patience).1
              ≡ false))
unfolding observe check release_at
observe_patience g acknowledged unacknowledged unacknowledged' now extra patience e =
    let (full, (since, (free, seen))) =
      released-IsWaiting g.released g acknowledged unacknowledged now patience refl e in
    (
      full,
      (
        since + patience,
        ap (λ s. release_after s patience) seen,
        released_ends _ _ acknowledged unacknowledged' since (since + patience + extra) patience
            free seen (omega arith),
      ),
    )
