-- ===== src/SessionTable/Ownership.antt =====
-- Who owns the start of a session in crates/et-server/src/session_table.rs.
use et_rs.Prelude.{
  ◌==◌, if◌then◌else◌, Bool-cases, bytes_eq, Result, ok, err, ℕ, ◌≡◌, refl, sym, ap, subst, ◌∙◌,
  ◌≢◌, inl, inr, Bool, true, false, not, Option, none, some, List, [], ◌∷◌, arith,
}
use et_rs.SessionTable.{
  Registration, SessionConnection, Slot, registered, starting, active, SessionTableError,
  unavailable, shutting_down, obsolete_registration, invalid_transition, starting_busy,
  socket_failed, SessionClaim, new_session, returning, TableState, same_generation, registration_of,
  into_connection, lookup, put, Round, again, answer, claim_slot, claim_found, claim_round, Claimed,
  next_round, claim_loop, claim, owns, activate, drop_start,
}

bytes_eq_refl : (a : List ℕ) → bytes_eq a a ≡ true
bytes_eq_refl [] = refl
bytes_eq_refl (b ∷ bs) =
    let same : (b == b) ≡ true = ground arith in rw (same, bytes_eq_refl bs) refl

same_generation_refl : (r : Registration) → same_generation r r ≡ true
unfolding same_generation
same_generation_refl r =
    let same : (r.identity == r.identity) ≡ true = ground arith in
    rw (bytes_eq_refl r.id, same) refl

lookup-put :
    (r : Registration) (slot : Slot) (t : TableState)
    → lookup r.id (put r.id slot t).slots ≡ some slot
unfolding lookup
lookup-put r slot t = rw (bytes_eq_refl r.id) refl

-- The table and the claim, where a start is given.
record Starts (r : Registration) (socket : ℕ) (stored : Registration) (t : TableState)
    : Type 0 where
  slot : lookup r.id t.slots ≡ some (starting stored socket)
  generation : same_generation stored r ≡ true
  running : t.shutdown ≡ false

-- What a round may be.
data IsRound (r : Registration) (socket : ℕ) : TableState × Round → Type 0 where
  refuses : (t : TableState) (e : SessionTableError) → IsRound r socket (t, answer (err e))
  returns : (t : TableState) (session : ℕ) → IsRound r socket (t, answer (ok (returning session)))
  starts :
      (t : TableState) (stored : Registration) (replaced : Option SessionConnection)
      → Starts r socket stored t
      → IsRound r socket (t, answer (ok (new_session stored replaced)))
  repeats :
      (t : TableState) (replaced : Option SessionConnection)
      → t.shutdown ≡ false
      → lookup r.id t.slots ≡ some (registered r)
      → IsRound r socket (t, again replaced)

claim_slot-IsRound :
    (r : Registration) (socket : ℕ) (replaced : Option SessionConnection) (t : TableState)
    (slot : Slot)
    → t.shutdown ≡ false
    → same_generation (registration_of slot) r ≡ true
    → IsRound r socket (claim_slot r socket replaced t slot)
unfolding claim_slot
claim_slot-IsRound r socket replaced t (registered stored) on same =
    starts (put r.id (starting stored socket) t) stored replaced
      (record { slot = lookup-put r (starting stored socket) t; generation = same; running = on })
claim_slot-IsRound r socket replaced t (starting stored other) on same = refuses t starting_busy
claim_slot-IsRound r socket replaced t (active stored session) on same = returns t session

claim_found-IsRound :
    (r : Registration) (socket : ℕ) (replaced : Option SessionConnection) (t : TableState)
    (o : Option Slot)
    → t.shutdown ≡ false
    → IsRound r socket (claim_found r socket replaced t o)
unfolding claim_found
claim_found-IsRound r socket replaced t none on =
    repeats (put r.id (registered r) t) replaced on (lookup-put r (registered r) t)
claim_found-IsRound r socket replaced t (some slot) on =
    elim (Bool-cases (same_generation (registration_of slot) r)) [
      | inl same ↦ rw same (claim_slot-IsRound r socket replaced t slot on same)
      | inr other ↦ rw other (
          repeats (put r.id (registered r) t) (into_connection slot) on
            (lookup-put r (registered r) t))
    ]

claim_round-IsRound :
    (r : Registration) (socket : ℕ) (replaced : Option SessionConnection) (t : TableState)
    (known : Option Bool)
    → IsRound r socket (claim_round r socket replaced t known)
unfolding claim_round
claim_round-IsRound r socket replaced t none =
    refuses t (if t.shutdown then shutting_down else unavailable)
claim_round-IsRound r socket replaced t (some known) = open_round t.shutdown refl known
  where
    open_round :
        (b : Bool)
        → t.shutdown ≡ b
        → (k : Bool)
        → IsRound r socket (
            if b
            then (t, answer (err shutting_down))
            else if not k
            then (t, answer (err obsolete_registration))
            else claim_found r socket replaced t (lookup r.id t.slots))
    open_round true e k = refuses t shutting_down
    open_round false e true = claim_found-IsRound r socket replaced t (lookup r.id t.slots) e
    open_round false e false = refuses t obsolete_registration

-- What a claim may be.
data IsClaimed (r : Registration) (socket : ℕ) : Claimed → Type 0 where
  refused : (t : TableState) (e : SessionTableError) → IsClaimed r socket (t, some (err e))
  returned : (t : TableState) (session : ℕ) → IsClaimed r socket (t, some (ok (returning session)))
  started :
      (t : TableState) (stored : Registration) (replaced : Option SessionConnection)
      → Starts r socket stored t
      → IsClaimed r socket (t, some (ok (new_session stored replaced)))

next_round-IsClaimed :
    (r : Registration) (socket : ℕ) (next : Option SessionConnection → TableState → Claimed)
    {x : TableState × Round}
    → IsRound r socket x
    → ((replaced : Option SessionConnection) (t : TableState)
        → t.shutdown ≡ false
        → lookup r.id t.slots ≡ some (registered r)
        → IsClaimed r socket (next replaced t))
    → IsClaimed r socket (next_round next x)
next_round-IsClaimed r socket next (refuses t e) h = refused t e
next_round-IsClaimed r socket next (returns t session) h = returned t session
next_round-IsClaimed r socket next (starts t stored replaced s) h = started t stored replaced s
next_round-IsClaimed r socket next (repeats t replaced on at_id) h = h replaced t on at_id

claim_settled :
    (r : Registration) (socket : ℕ) (replaced : Option SessionConnection) (t : TableState)
    → claim_found r socket replaced t (some (registered r))
      ≡ (put r.id (starting r socket) t, answer (ok (new_session r replaced)))
unfolding claim_found claim_slot
claim_settled r socket replaced t = rw (same_generation_refl r) refl

-- A slot that is registered by this generation is taken in one round.
settled_round :
    (r : Registration) (socket : ℕ) (replaced : Option SessionConnection) (t : TableState)
    (known : Option Bool) (next : Option SessionConnection → TableState → Claimed)
    → t.shutdown ≡ false
    → lookup r.id t.slots ≡ some (registered r)
    → IsClaimed r socket (next_round next (claim_round r socket replaced t known))
unfolding claim_round
settled_round r socket replaced t none next on at_id =
    refused t (if t.shutdown then shutting_down else unavailable)
settled_round r socket replaced t (some false) next on at_id =
    let e : claim_round r socket replaced t (some false) ≡ (t, answer (err obsolete_registration)) =
      rw on refl in
    subst (λ x. IsClaimed r socket (next_round next x)) (sym e) (refused t obsolete_registration)
settled_round r socket replaced t (some true) next on at_id =
    let e : claim_round r socket replaced t (some true)
        ≡ claim_found r socket replaced t (lookup r.id t.slots) =
      rw on refl in
    let found : claim_found r socket replaced t (some (registered r))
        ≡ (put r.id (starting r socket) t, answer (ok (new_session r replaced))) =
      claim_settled r socket replaced t in
    subst (λ x. IsClaimed r socket (next_round next x))
      (sym (e ∙ ap (claim_found r socket replaced t) at_id ∙ found))
      (started (put r.id (starting r socket) t) r replaced (record {
        slot = lookup-put r (starting r socket) t;
        generation = same_generation_refl r;
        running = on;
      }))

claim_loop-IsClaimed :
    (contains : ℕ → Option Bool) (r : Registration) (socket : ℕ) (t : TableState)
    → IsClaimed r socket (claim_loop 2 contains r socket none t)
unfolding claim_loop
claim_loop-IsClaimed contains r socket t =
    next_round-IsClaimed r socket (λ replaced' t'. claim_loop 1 contains r socket replaced' t')
      (claim_round-IsRound r socket none t (contains 1))
      (λ replaced t' on at_id.
        settled_round r socket replaced t' (contains 0)
          (λ replaced' t''. claim_loop 0 contains r socket replaced' t'') on at_id)

IsClaimed-answer :
    (r : Registration) (socket : ℕ) {x : Claimed}
    → IsClaimed r socket x
    → (result : Result SessionClaim SessionTableError) × (x.1 ≡ some result)
IsClaimed-answer r socket (refused t e) = (err e, refl)
IsClaimed-answer r socket (returned t session) = (ok (returning session), refl)
IsClaimed-answer r socket (started t stored replaced s) = (ok (new_session stored replaced), refl)

-- The loop of a claim ends: whatever the table holds and whatever the registry answers, two rounds
-- give a result.
pub claim_answers :
    (contains : ℕ → Option Bool) (r : Registration) (stream : Result ℕ ℕ) (t : TableState)
    → (result : Result SessionClaim SessionTableError) × ((claim contains r stream t).1
        ≡ some result)
unfolding claim
claim_answers contains r (err e) t = (err (socket_failed e), refl)
claim_answers contains r (ok socket) t =
    IsClaimed-answer r socket (claim_loop-IsClaimed contains r socket t)

-- A claim that starts a session.
abbrev Started : Registration → ℕ → Claimed → Type 0
Started r socket (t, some (ok (new_session stored replaced))) = Starts r socket stored t
Started r socket (t, some (ok (returning session))) = Unit
Started r socket (t, some (err e)) = Unit
Started r socket (t, none) = Unit

IsClaimed-Started :
    (r : Registration) (socket : ℕ) {x : Claimed} → IsClaimed r socket x → Started r socket x
IsClaimed-Started r socket (refused t e) = tt
IsClaimed-Started r socket (returned t session) = tt
IsClaimed-Started r socket (started t stored replaced s) = s

claim-Starts :
    (contains : ℕ → Option Bool) (r : Registration) (socket : ℕ) (t t' : TableState)
    (stored : Registration) (replaced : Option SessionConnection)
    → claim contains r (ok socket) t ≡ (t', some (ok (new_session stored replaced)))
    → Starts r socket stored t'
unfolding claim
claim-Starts contains r socket t t' stored replaced h =
    subst (Started r socket) h
      (IsClaimed-Started r socket (claim_loop-IsClaimed contains r socket t))

busy_round :
    (r stored : Registration) (socket other : ℕ) (t : TableState)
    → Starts r socket stored t
    → claim_round r other none t (some true) ≡ (t, answer (err starting_busy))
unfolding claim_round claim_found claim_slot
busy_round r stored socket other t s =
    let e : claim_round r other none t (some true)
        ≡ claim_found r other none t (lookup r.id t.slots) =
      let on = s.running in rw on refl in
    let found : claim_found r other none t (some (starting stored socket))
        ≡ (t, answer (err starting_busy)) =
      let same = s.generation in rw same refl in
    e ∙ ap (claim_found r other none t) s.slot ∙ found

-- While a start is under way, a claim of the same generation is refused.
busy_lem :
    (contains : ℕ → Option Bool) (r stored : Registration) (socket other : ℕ) (t : TableState)
    → Starts r socket stored t
    → contains 1 ≡ some true
    → claim contains r (ok other) t ≡ (t, some (err starting_busy))
unfolding claim claim_loop
busy_lem contains r stored socket other t s known =
    let next : Option SessionConnection → TableState → Claimed =
      λ replaced t'. claim_loop 1 contains r other replaced t' in
    ap (λ x. next_round next (claim_round r other none t x)) known
    ∙ ap (next_round next) (busy_round r stored socket other t s)

-- A start of another generation neither commits nor rolls back.
stale_owns :
    (r stale stored : Registration) (socket : ℕ)
    → same_generation stored r ≡ true
    → (stale.identity ≡ r.identity → ⊥)
    → owns stale (some (starting stored socket)) ≡ false
unfolding owns same_generation
stale_owns r stale stored socket same other = ground arith

stale_lem :
    (r stale stored : Registration) (socket session : ℕ) (t : TableState)
    → Starts r socket stored t
    → stale.id ≡ r.id
    → (stale.identity ≡ r.identity → ⊥)
    → (activate stale session t ≡ (t, some invalid_transition)) × (drop_start stale t ≡ t)
unfolding activate drop_start
stale_lem r stale stored socket session t s same_id other =
    let found : lookup stale.id t.slots ≡ some (starting stored socket) =
      ap (λ id. lookup id t.slots) same_id ∙ s.slot in
    let lost : owns stale (lookup stale.id t.slots) ≡ false =
      ap (owns stale) found ∙ stale_owns r stale stored socket s.generation other in
    let on = s.running in (rw (on, lost) refl, rw lost refl)

-- A claim that starts a session takes the id for its connection: as long as the table stays as the
-- claim leaves it, another connection with the same registration is told that the start is under way,
-- and what remains of a start for an older registration of that id can neither commit nor undo it.
pub claim_owns :
    (contains contains' : ℕ → Option Bool) (r stale stored : Registration)
    (socket other session : ℕ) (t t' : TableState) (replaced : Option SessionConnection)
    → claim contains r (ok socket) t ≡ (t', some (ok (new_session stored replaced)))
    → contains' 1 ≡ some true
    → stale.id ≡ r.id
    → stale.identity ≢ r.identity
    → (claim contains' r (ok other) t' ≡ (t', some (err starting_busy)))
      × (activate stale session t' ≡ (t', some invalid_transition))
      × (drop_start stale t' ≡ t')
claim_owns contains contains' r stale stored socket other session t t' replaced h known same_id
      old =
    let s = claim-Starts contains r socket t t' stored replaced h in
    let stays = stale_lem r stale stored socket session t' s same_id old in
    (busy_lem contains' r stored socket other t' s known, stays.0, stays.1)
