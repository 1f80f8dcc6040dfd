-- ===== src/SessionTable.antt =====
-- crates/et-server/src/session_table.rs and session_slot.rs: which connection of a client owns the
-- start of its session. Of a registration the table reads the id and the identity, a shared pointer,
-- which is the number of its allocation here; sockets and sessions are numbers too.
pub mod Ownership
use et_rs.Prelude.{
  ◌==◌, if◌then◌else◌, bytes_eq, Result, ok, err, ℕ, zero, suc, Bool, true, false, ◌&&◌, not,
  Option, none, some, List, [], ◌∷◌,
}

pub record Registration : Type 0 where
  pub id : List ℕ
  pub identity : ℕ

pub data SessionConnection : Type 0 where
  starting_connection active_connection : ℕ → SessionConnection

pub data Slot : Type 0 where
  registered : Registration → Slot
  starting : Registration → ℕ → Slot
  active : Registration → ℕ → Slot

pub data SessionTableError : Type 0 where
  unavailable shutting_down obsolete_registration timeout invalid_transition starting_busy :
      SessionTableError
  socket_failed : ℕ → SessionTableError

pub data SessionClaim : Type 0 where
  new_session : Registration → Option SessionConnection → SessionClaim
  returning : ℕ → SessionClaim

pub record TableState : Type 0 where
  pub slots : List (List ℕ × Slot)
  pub shutdown : Bool

unfoldable pub same_generation : Registration → Registration → Bool
same_generation a b = bytes_eq a.id b.id && a.identity == b.identity

abbrev pub registration_of : Slot → Registration
registration_of (registered r) = r
registration_of (starting r socket) = r
registration_of (active r session) = r

abbrev pub into_connection : Slot → Option SessionConnection
into_connection (registered r) = none
into_connection (starting r socket) = some (starting_connection socket)
into_connection (active r session) = some (active_connection session)

-- The hash map, as an association list.
unfoldable pub lookup : List ℕ → List (List ℕ × Slot) → Option Slot
lookup id [] = none
lookup id ((key, slot) ∷ rest) =
    let found = lookup id rest in if bytes_eq key id then some slot else found

unfoldable pub remove : List ℕ → List (List ℕ × Slot) → List (List ℕ × Slot)
remove id [] = []
remove id ((key, slot) ∷ rest) =
    let left = remove id rest in if bytes_eq key id then left else (key, slot) ∷ left

abbrev pub insert : List ℕ → Slot → List (List ℕ × Slot) → List (List ℕ × Slot)
insert id slot slots = (id, slot) ∷ remove id slots

abbrev pub put : List ℕ → Slot → TableState → TableState
put id slot t = record t { slots = insert id slot t.slots }

-- One round of the loop: an answer, or the slot is registered and there is another round.
pub data Round : Type 0 where
  again : Option SessionConnection → Round
  answer : Result SessionClaim SessionTableError → Round

unfoldable pub claim_slot :
    Registration → ℕ → Option SessionConnection → TableState → Slot → TableState × Round
claim_slot r socket replaced t (registered stored) =
    (put r.id (starting stored socket) t, answer (ok (new_session stored replaced)))
claim_slot r socket replaced t (starting stored other) = (t, answer (err starting_busy))
claim_slot r socket replaced t (active stored session) = (t, answer (ok (returning session)))

-- A slot of another generation gives way.
unfoldable pub claim_found :
    Registration → ℕ → Option SessionConnection → TableState → Option Slot → TableState × Round
unfolding claim_slot
claim_found r socket replaced t none = (put r.id (registered r) t, again replaced)
claim_found r socket replaced t (some slot) =
    if not (same_generation (registration_of slot) r)
    then (put r.id (registered r) t, again (into_connection slot))
    else claim_slot r socket replaced t slot

unfoldable pub claim_round :
    Registration → ℕ → Option SessionConnection → TableState → Option Bool → TableState × Round
unfolding claim_found lookup
claim_round r socket replaced t none =
    (t, answer (err (if t.shutdown then shutting_down else unavailable)))
claim_round r socket replaced t (some known) =
    if t.shutdown
    then (t, answer (err shutting_down))
    else if not known
    then (t, answer (err obsolete_registration))
    else claim_found r socket replaced t (lookup r.id t.slots)

abbrev pub Claimed : Type 0
Claimed = TableState × Option (Result SessionClaim SessionTableError)

abbrev pub next_round :
    (Option SessionConnection → TableState → Claimed) → TableState × Round → Claimed
next_round next (t, again replaced) = next replaced t
next_round next (t, answer result) = (t, some result)

-- What the registry says is asked anew in each round. Without rounds left there is no answer.
unfoldable pub claim_loop :
    ℕ → (ℕ → Option Bool) → Registration → ℕ → Option SessionConnection → TableState → Claimed
unfolding claim_round
claim_loop zero contains r socket replaced t = (t, none)
claim_loop (suc rounds) contains r socket replaced t =
    next_round
      (λ (replaced' : Option SessionConnection) (t' : TableState).
        claim_loop rounds contains r socket replaced' t')
      (claim_round r socket replaced t (contains rounds))

-- `stream` is the copy of the socket, or the error of making it. Two rounds are enough.
unfoldable pub claim : (ℕ → Option Bool) → Registration → Result ℕ ℕ → TableState → Claimed
unfolding claim_loop
claim contains r (err e) t = (t, some (err (socket_failed e)))
claim contains r (ok socket) t = claim_loop 2 contains r socket none t

abbrev pub is_starting : Slot → Bool
is_starting (starting r socket) = true
is_starting _ = false

-- The slot that a start may commit or roll back.
unfoldable pub owns : Registration → Option Slot → Bool
owns r none = false
owns r (some slot) = is_starting slot && same_generation (registration_of slot) r

-- `SessionStart::activate`, and the drop of a start that was not committed.
unfoldable pub activate : Registration → ℕ → TableState → TableState × Option SessionTableError
unfolding owns lookup
activate r session t =
    if t.shutdown
    then (t, some shutting_down)
    else if not (owns r (lookup r.id t.slots))
    then (t, some invalid_transition)
    else (put r.id (active r session) t, none)

unfoldable pub drop_start : Registration → TableState → TableState
unfolding owns lookup
drop_start r t = if owns r (lookup r.id t.slots) then put r.id (registered r) t else t

-- The connection of a slot that is removed, if the identity is still that of the slot.
unfoldable pub remove_found :
    Registration → TableState → Option Slot → TableState × Option (Option SessionConnection)
remove_found r t none = (t, none)
remove_found r t (some slot) =
    if same_generation r (registration_of slot)
    then (record t { slots = remove r.id t.slots }, some (into_connection slot))
    else (t, none)

unfoldable pub remove_registration_with :
    Registration → TableState → TableState × Option (Option SessionConnection)
unfolding remove_found lookup
remove_registration_with r t = remove_found r t (lookup r.id t.slots)

abbrev pub keep_connection :
    Option SessionConnection → List SessionConnection → List SessionConnection
keep_connection none rest = rest
keep_connection (some c) rest = c ∷ rest

abbrev pub connections : List (List ℕ × Slot) → List SessionConnection
connections [] = []
connections ((key, slot) ∷ rest) = keep_connection (into_connection slot) (connections rest)

unfoldable pub begin_shutdown : TableState → TableState × List SessionConnection
begin_shutdown t = (record { slots = []; shutdown = true }, connections t.slots)
