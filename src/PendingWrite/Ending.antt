-- ===== src/PendingWrite/Ending.antt =====
-- The blocking write of crates/et-net/src/connection_pending.rs (`finish`) and its deadline.
use et_rs.Prelude.{
  leb, le→leb, Bool-cases, Result, ok, err, ℕ, ◌≤◌, ◌≡◌, refl, sym, subst, inl, inr, Bool, true,
  false, Option, none, some, List, [], ◌∷◌, ◌++◌, arith,
}
use et_rs.Recovery.Calls.{IoError, timed_out}
use et_rs.PendingWrite.{
  PendingWrite, SendAnswer, took, again, send_error, offered, sent_quantum, advance, Round,
  is_timed_out, finish_loop,
}
use et_rs.PendingWrite.Steps.{round_result}

sent_quantum_deadline :
    (p : PendingWrite) (answer : SendAnswer) → (sent_quantum p answer).0.deadline ≡ p.deadline
unfolding sent_quantum
sent_quantum_deadline p (took count) = ground arith
sent_quantum_deadline p again = refl
sent_quantum_deadline p (send_error e) = refl

advance_deadline :
    (p : PendingWrite) (now : ℕ) (kernel : List ℕ → SendAnswer)
    → (advance p now kernel).0.deadline ≡ p.deadline
unfolding advance
advance_deadline p now kernel = elim (Bool-cases (leb p.deadline now)) [
  | inl late ↦ rw (late, advance) refl
  | inr early ↦ rw (early, advance) (sent_quantum_deadline p (kernel (offered p)))
]

abbrev Ends : PendingWrite × Option (Result (Unit {0}) IoError) × List ℕ → Type 0
Ends x = (r : Result (Unit {0}) IoError) × (x.1 ≡ some r)

-- A round ends the loop, or leaves it to the rest.
round_result-Ends :
    (waited : Option IoError) (one : PendingWrite × Result Bool IoError × List ℕ)
    (more : PendingWrite × Option (Result (Unit {0}) IoError) × List ℕ)
    → Ends more
    → Ends (round_result waited one more)
unfolding round_result
round_result-Ends waited (p', err e, bytes) more ends = (err e, refl)
round_result-Ends waited (p', ok true, bytes) more ends = (ok tt, refl)
round_result-Ends none (p', ok false, bytes) more ends = ends
round_result-Ends (some e) (p', ok false, bytes) more ends = elim (Bool-cases (is_timed_out e)) [
  | inl late ↦ rw (late, round_result) ends
  | inr failed ↦ rw (failed, round_result) (err e, refl)
]

advance_late :
    (p : PendingWrite) (now : ℕ) (kernel : List ℕ → SendAnswer)
    → p.deadline ≤ now
    → advance p now kernel ≡ (p, err timed_out, [])
unfolding advance
advance_late p now kernel late = rw (le→leb p.deadline now late) refl

-- However little the socket takes and however its waits end, the write ends by the first round at or
-- after its deadline.
pub finish_loop_ends :
    (p : PendingWrite) (front back : List Round) (last : Round)
    → p.deadline ≤ last.now
    → (r : Result (Unit {0}) IoError) × ((finish_loop p (front ++ (last ∷ back))).1 ≡ some r)
unfolding finish_loop round_result
finish_loop_ends p [] back last late =
    let after = finish_loop (advance p last.now last.kernel).0 back in
    subst
      (λ (x : PendingWrite × Result Bool IoError × List ℕ). Ends (round_result last.waited x after))
      (sym (advance_late p last.now last.kernel late)) (err timed_out, refl)
finish_loop_ends p (round ∷ front) back last late =
    round_result-Ends round.waited (advance p round.now round.kernel)
      (finish_loop (advance p round.now round.kernel).0 (front ++ (last ∷ back)))
      (finish_loop_ends (advance p round.now round.kernel).0 front back last
        (omega (arith, advance_deadline p round.now round.kernel)))
