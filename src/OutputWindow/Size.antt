-- ===== src/OutputWindow/Size.antt =====
-- The size of the window of crates/et-core/src/output_window.rs, by its samples of the pipe.
use et_rs.Prelude.{
  ltb, Bool-cases, get_elem?, All, ℕ, suc, ◌+◌, ◌*◌, ◌≤◌, min, ◌≡◌, refl, ap, ◌∙◌, ◌⊎◌, inl, inr,
  some, List, [], ◌∷◌, arith,
}
use et_rs.KeepAlive.{ack_interval_bytes}
use et_rs.OutputWindow.{min_pipe_bytes, pipe_gain, max_window_bytes, OutputWindow, maximum, window}

-- The window that one sample of the pipe calls for.
abbrev pub window_for : ℕ → ℕ
window_for p = min (ack_interval_bytes + pipe_gain * p) max_window_bytes

covers_samples :
    (w : OutputWindow) (xs : List ℕ)
    → maximum xs ≤ maximum w.pipe
    → All (λ p. window_for p ≤ window w) xs
covers_samples w [] below = tt
covers_samples w (p ∷ xs) below = (unfold window in ground arith, covers_samples w xs (omega arith))

maximum_found : (xs : List ℕ) → (maximum xs ≡ 0) ⊎ ((i : ℕ) × (get_elem? xs i ≡ some (maximum xs)))
maximum_found [] = inl refl
maximum_found (x ∷ xs) = elim (maximum_found xs) [
  | inl low ↦ inr (0, ap some (omega arith))
  | inr (i, found) ↦ elim (Bool-cases (ltb x (maximum xs))) [
    | inl later ↦ inr (suc i, found ∙ ap some (ground arith))
    | inr here ↦ inr (0, ap some (ground arith))
  ]
]

-- The window is the least that has room for the interval at which the client acknowledges and twice
-- the pipe, for every sample that is kept, up to its maximum of 16 MiB: it has room for each of them,
-- and is that of one of the samples, or of the shortest pipe, which it never falls below.
pub window_least :
    (w : OutputWindow)
    → All (λ p. window_for p ≤ window w) w.pipe
      × (ack_interval_bytes + min_pipe_bytes ≤ window w)
      × ((window w ≡ ack_interval_bytes + min_pipe_bytes)
          ⊎ ((i : ℕ) × (p : ℕ) × (get_elem? w.pipe i ≡ some p) × (window w ≡ window_for p)))
window_least w = (
  covers_samples w w.pipe (omega arith),
  unfold window in ground arith,
  elim (maximum_found w.pipe) [
    | inl low ↦ inl (unfold window in ground arith)
    | inr (i, found) ↦ elim (Bool-cases (ltb min_pipe_bytes (maximum w.pipe * pipe_gain))) [
      | inl wide ↦ inr (i, maximum w.pipe, found, unfold window in ground arith)
      | inr narrow ↦ inl (unfold window in ground arith)
    ]
  ],
)
