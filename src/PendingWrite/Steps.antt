-- ===== src/PendingWrite/Steps.antt =====
-- What one call of send(2) does to a frame that waits (crates/et-net/src/connection_pending.rs).
use et_rs.Prelude.{
  leb, ◌==◌, Bool-cases, length, take, drop, All, length-take, length-drop, take-append-drop,
  take-take, drop-drop, nil_of_length, Result, ok, err, ℕ, ◌+◌, ◌-◌, ◌≤◌, min, ◌≡◌, refl, sym, ap,
  ◌∙◌, ◌≢◌, inl, inr, Bool, true, false, Option, none, some, List, [], ◌∷◌, ◌++◌, append_assoc,
  arith,
}
use et_rs.Recovery.Calls.{IoError, timed_out, write_zero}
use et_rs.PendingWrite.{
  write_quantum, PendingWrite, SendAnswer, took, again, send_error, offered, sent_quantum, advance,
  IsSend, Round, is_timed_out, stops, finish_loop,
}

pub drop_all {ℓ} : {A : Type ℓ} (n : ℕ) (xs : List A) → n ≡ length xs → drop n xs ≡ []
drop_all n xs h = nil_of_length (drop n xs) (omega (arith, length-drop n xs))

-- What a step leaves: the frame is the same, the bytes taken are its next ones, and an `ok true`
-- means that it is whole.
pub record Advanced (p p' : PendingWrite) (result : Result Bool IoError) (bytes : List ℕ)
    : Type 0 where
  pub frame : p'.frame ≡ p.frame
  pub in_range : p'.offset ≤ length p'.frame
  pub split : bytes ++ drop p'.offset p'.frame ≡ drop p.offset p.frame
  pub whole : result ≡ ok true → p'.offset ≡ length p'.frame

length-offered : (p : PendingWrite) → length (offered p) ≤ length p.frame - p.offset
length-offered p = omega (
  arith,
  length-take (min (length p.frame) (p.offset + write_quantum) - p.offset) (drop p.offset p.frame),
  length-drop p.offset p.frame,
)

take-offered :
    (p : PendingWrite) (count : ℕ)
    → count ≤ length (offered p)
    → take count (offered p) ≡ take count (drop p.offset p.frame)
take-offered p count h =
    take-take count (min (length p.frame) (p.offset + write_quantum) - p.offset)
      (drop p.offset p.frame)
      (omega (
        arith,
        h,
        length-take (min (length p.frame) (p.offset + write_quantum) - p.offset)
            (drop p.offset p.frame),
      ))

stays :
    (p : PendingWrite) (result : Result Bool IoError)
    → p.offset ≤ length p.frame
    → result ≢ ok true
    → Advanced p p result []
stays p result fits not_done = record {
  frame = refl;
  in_range = fits;
  split = refl;
  whole = λ e. absurd (not_done e);
}

sent_quantum-Advanced :
    (p : PendingWrite) (answer : SendAnswer)
    → p.offset ≤ length p.frame
    → ((count : ℕ) → answer ≡ took count → count ≤ length (offered p))
    → Advanced p (sent_quantum p answer).0 (sent_quantum p answer).1 (sent_quantum p answer).2
unfolding sent_quantum
sent_quantum-Advanced p again fits law = stays p (ok false) fits (λ e. cc)
sent_quantum-Advanced p (send_error e) fits law = stays p (err e) fits (λ e. cc)
sent_quantum-Advanced p (took count) fits law = elim (Bool-cases (count == 0)) [
  | inl zero_bytes ↦ rw zero_bytes (stays p (err write_zero) fits (λ e. cc))
  | inr some_bytes ↦
      let at_most = law count refl in
      let room = length-offered p in
      rw some_bytes (record {
        frame = refl;
        in_range = omega arith;
        split =
            ap (λ b. b ++ drop (p.offset + count) p.frame) (take-offered p count at_most)
            ∙ ap (λ b. take count (drop p.offset p.frame) ++ b)
                (sym (drop-drop count p.offset p.frame))
            ∙ take-append-drop count (drop p.offset p.frame);
        whole = λ e. ground arith;
      })
]

pub advance-Advanced :
    (p : PendingWrite) (now : ℕ) (kernel : List ℕ → SendAnswer)
    → p.offset ≤ length p.frame
    → IsSend kernel
    → Advanced p (advance p now kernel).0 (advance p now kernel).1 (advance p now kernel).2
unfolding advance
advance-Advanced p now kernel fits law = elim (Bool-cases (leb p.deadline now)) [
  | inl late ↦ rw late (stays p (err timed_out) fits (λ e. cc))
  | inr early ↦
      rw early (sent_quantum-Advanced p (kernel (offered p)) fits (λ count. law (offered p) count))
]

-- A wait that ends well has sent all.
abbrev pub as_step : Option (Result (Unit {0}) IoError) → Result Bool IoError
as_step none = ok false
as_step (some (ok done)) = ok true
as_step (some (err e)) = err e

-- One round and the rest of the loop, put together.
Advanced-trans :
    (p p' p'' : PendingWrite) (r r' : Result Bool IoError) (bytes more : List ℕ)
    → Advanced p p' r bytes
    → Advanced p' p'' r' more
    → Advanced p p'' r' (bytes ++ more)
Advanced-trans p p' p'' r r' bytes more a b = record {
  frame = b.frame ∙ a.frame;
  in_range = b.in_range;
  split =
      append_assoc bytes more (drop p''.offset p''.frame) ∙ ap (λ x. bytes ++ x) b.split ∙ a.split;
  whole = b.whole;
}

rejudged :
    (p p' : PendingWrite) (r r' : Result Bool IoError) (bytes : List ℕ)
    → (r' ≡ ok true → r ≡ ok true)
    → Advanced p p' r bytes
    → Advanced p p' r' bytes
rejudged p p' r r' bytes means a = record {
  frame = a.frame;
  in_range = a.in_range;
  split = a.split;
  whole = λ e. a.whole (means e);
}

-- How a round and the loop behind it are combined.
unfoldable pub round_result :
    Option IoError
    → PendingWrite × Result Bool IoError × List ℕ
    → PendingWrite × Option (Result (Unit {0}) IoError) × List ℕ
    → PendingWrite × Option (Result (Unit {0}) IoError) × List ℕ
round_result waited (p', result, bytes) (p'', outcome, more) = elim (stops waited result) [
  | some r ↦ (p', some r, bytes)
  | none ↦ (p'', outcome, bytes ++ more)
]

round-Advanced :
    (p : PendingWrite) (waited : Option IoError) (one : PendingWrite × Result Bool IoError × List ℕ)
    (more : PendingWrite × Option (Result (Unit {0}) IoError) × List ℕ)
    → Advanced p one.0 one.1 one.2
    → Advanced one.0 more.0 (as_step more.1) more.2
    → Advanced p
        (round_result waited one more).0
        (as_step (round_result waited one more).1)
        (round_result waited one more).2
unfolding round_result
round-Advanced p waited (p', err e, bytes) (p'', outcome, more) a b = a
round-Advanced p waited (p', ok true, bytes) (p'', outcome, more) a b = a
round-Advanced p none (p', ok false, bytes) (p'', outcome, more) a b =
    Advanced-trans p p' p'' (ok false) (as_step outcome) bytes more a b
round-Advanced p (some e) (p', ok false, bytes) (p'', outcome, more) a b =
    elim (Bool-cases (is_timed_out e)) [
      | inl late ↦
          rw (late, round_result)
            (Advanced-trans p p' p'' (ok false) (as_step outcome) bytes more a b)
      | inr failed ↦ rw (failed, round_result) (rejudged p p' (ok false) (err e) bytes (λ h. cc) a)
    ]

pub finish_loop-Advanced :
    (p : PendingWrite) (rounds : List Round)
    → p.offset ≤ length p.frame
    → All (λ r. IsSend r.kernel) rounds
    → Advanced p
        (finish_loop p rounds).0
        (as_step (finish_loop p rounds).1)
        (finish_loop p rounds).2
unfolding finish_loop round_result
finish_loop-Advanced p [] fits laws = stays p (ok false) fits (λ e. cc)
finish_loop-Advanced p (round ∷ rounds) fits laws =
    let one = advance-Advanced p round.now round.kernel fits laws.0 in
    let more =
      finish_loop-Advanced (advance p round.now round.kernel).0 rounds one.in_range laws.1 in
    round-Advanced p round.waited (advance p round.now round.kernel)
      (finish_loop (advance p round.now round.kernel).0 rounds) one more
