-- ===== src/Backup/Trim.antt =====
-- The trimming loops of crates/et-core/src/backed_writer.rs: what they leave of a backup.
use et_rs.Prelude.{
  Bool-cases, length, take, length-append, take_all, take-append_le, ℕ, zero, suc, ◌+◌, ◌-◌, ◌≤◌,
  ◌<◌, ◌≡◌, refl, sym, ap, subst, ◌∙◌, ◌⊎◌, inl, inr, Bool, true, false, none, some, List, [], ◌∷◌,
  ◌++◌, arith,
}
use et_rs.Backup.{Frame, frame_wire_len, wire_sum, pop_back, trim_loop}

pub wire_sum-append : (xs ys : List Frame) → wire_sum (xs ++ ys) ≡ wire_sum xs + wire_sum ys
wire_sum-append [] ys = omega arith
wire_sum-append (x ∷ xs) ys = omega (arith, wire_sum-append xs ys)

pub wire_sum-take-le : (n : ℕ) (xs : List Frame) → wire_sum (take n xs) ≤ wire_sum xs
wire_sum-take-le zero xs = omega arith
wire_sum-take-le (suc n) [] = omega arith
wire_sum-take-le (suc n) (x ∷ xs) = omega (arith, wire_sum-take-le n xs)

pub wire_sum-take-take-le :
    (m k : ℕ) (xs : List Frame) → wire_sum (take m (take k xs)) ≤ wire_sum (take m xs)
wire_sum-take-take-le zero k xs = omega arith
wire_sum-take-take-le (suc m) zero [] = omega arith
wire_sum-take-take-le (suc m) zero (x ∷ xs) = omega arith
wire_sum-take-take-le (suc m) (suc k) [] = omega arith
wire_sum-take-take-le (suc m) (suc k) (x ∷ xs) = omega (arith, wire_sum-take-take-le m k xs)

-- `pop_back` splits off the last frame, and fails on the empty buffer only.
pop_back_cases :
    (xs : List Frame)
    → ((xs ≡ []) × (pop_back xs ≡ none))
      ⊎ ((rest : List Frame) × (old : Frame) × (xs ≡ rest ++ (old ∷ []))
          × (pop_back xs ≡ some (rest, old)))
unfolding pop_back
pop_back_cases [] = inl (refl, refl)
pop_back_cases (f ∷ []) = inr ([], f, refl, refl)
pop_back_cases (f ∷ g ∷ fs) = elim (pop_back_cases (g ∷ fs)) [
  | inl (e, p) ↦ absurd (ground arith)
  | inr (rest, old, e, p) ↦ inr (f ∷ rest, old, ap (◌∷◌ f) e, ground arith)
]

pub record Trimmed (test : ℕ → ℕ → Bool) (backup : List Frame) (size : ℕ) (r : List Frame × ℕ)
    : Type 0 where
  pub newest : r.0 ≡ take (length r.0) backup
  pub shorter : length r.0 ≤ length backup
  pub in_step : size ≡ wire_sum backup → r.1 ≡ wire_sum r.0
  pub finished : (test r.1 (length r.0) ≡ false) ⊎ (r.0 ≡ [])

untouched :
    (test : ℕ → ℕ → Bool) (backup : List Frame) (size : ℕ)
    → (test size (length backup) ≡ false) ⊎ (backup ≡ [])
    → Trimmed test backup size (backup, size)
untouched test backup size stop = record {
  newest = sym (take_all (length backup) backup (omega arith));
  shorter = omega arith;
  in_step = λ e. e;
  finished = stop;
}

one_more :
    (test : ℕ → ℕ → Bool) (rest : List Frame) (old : Frame) (size : ℕ) (r : List Frame × ℕ)
    → Trimmed test rest (size - frame_wire_len old) r
    → Trimmed test (rest ++ (old ∷ [])) size r
one_more test rest old size r t = record {
  newest = t.newest ∙ sym (take-append_le (length r.0) rest (old ∷ []) t.shorter);
  shorter = omega (arith, length-append rest (old ∷ []), t.shorter);
  in_step = λ e. t.in_step (omega (arith, wire_sum-append rest (old ∷ [])));
  finished = t.finished;
}

-- The loop ends by its test, or with nothing left, whenever it may make a round for each frame.
pub trim_loop-Trimmed :
    (rounds : ℕ) (test : ℕ → ℕ → Bool) (backup : List Frame) (size : ℕ)
    → length backup ≤ rounds
    → Trimmed test backup size (trim_loop rounds test backup size)
unfolding trim_loop
trim_loop-Trimmed zero test [] size h = untouched test [] size (inr refl)
trim_loop-Trimmed zero test (f ∷ fs) size h = absurd (omega arith)
trim_loop-Trimmed (suc rounds) test backup size h = elim (Bool-cases (test size (length backup))) [
  | inl go ↦ elim (pop_back_cases backup) [
    | inl (e, p) ↦ rw (go, trim_loop, p) (untouched test backup size (inr e))
    | inr (rest, old, e, p) ↦
        let size_lt : length backup ≡ length rest + 1 =
          ap length e ∙ length-append rest (old ∷ []) in
        rw (go, trim_loop, p)
          (subst (λ b. Trimmed test b size (trim_loop rounds test rest (size - frame_wire_len old)))
            (sym e)
            (one_more test rest old size (trim_loop rounds test rest (size - frame_wire_len old))
              (trim_loop-Trimmed rounds test rest (size - frame_wire_len old) (omega arith))))
  ]
  | inr stop ↦ rw (stop, trim_loop) (untouched test backup size (inl stop))
]

-- A loop whose test only passes above `m` frames leaves `m` of them.
pub trim_loop_keeps :
    (rounds : ℕ) (test : ℕ → ℕ → Bool) (backup : List Frame) (size m : ℕ)
    → ((s n : ℕ) → test s n ≡ true → m < n)
    → m ≤ length backup
    → m ≤ length (trim_loop rounds test backup size).0
unfolding trim_loop
trim_loop_keeps zero test backup size m above h = h
trim_loop_keeps (suc rounds) test backup size m above h =
    elim (Bool-cases (test size (length backup))) [
      | inl go ↦ elim (pop_back_cases backup) [
        | inl (e, p) ↦ rw (go, trim_loop, p) h
        | inr (rest, old, e, p) ↦
            let longer : length backup ≡ length rest + 1 =
              ap length e ∙ length-append rest (old ∷ []) in
            let over : m < length backup = above size (length backup) go in
            rw (go, trim_loop, p)
              (trim_loop_keeps rounds test rest (size - frame_wire_len old) m above (omega arith))
      ]
      | inr stop ↦ rw (stop, trim_loop) h
    ]

-- A loop whose test fails on every part of at most the buffer's size drops nothing.
pub trim_loop_idle :
    (rounds : ℕ) (test : ℕ → ℕ → Bool) (backup : List Frame) (size : ℕ)
    → test size (length backup) ≡ false
    → trim_loop rounds test backup size ≡ (backup, size)
unfolding trim_loop
trim_loop_idle zero test backup size h = refl
trim_loop_idle (suc rounds) test backup size h = rw (h, trim_loop)
