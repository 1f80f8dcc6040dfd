-- ===== src/Examples/Tables.antt =====
-- Two connections of a client that has registered again, at concrete values.
use et_rs.Prelude.{
  Result, ok, err, ℕ, ◌≡◌, refl, Bool, true, false, Option, none, some, [], ◌∷◌, arith,
}
use et_rs.SessionTable.{
  Registration, active_connection, starting, active, SessionTableError, invalid_transition,
  starting_busy, SessionClaim, new_session, TableState, same_generation, remove, claim, activate,
  drop_start,
}
use et_rs.SessionTable.Ownership.{claim_answers, claim_owns}

abbrev older_terminal : Registration
older_terminal = record { id = 97 ∷ []; identity = 1 }

abbrev newer_terminal : Registration
newer_terminal = record { id = 97 ∷ []; identity = 2 }

-- The older terminal still has a session.
abbrev table : TableState
table = record { slots = (97 ∷ [], active older_terminal 9) ∷ []; shutdown = false }

abbrev claimed_table : TableState
claimed_table = record { slots = (97 ∷ [], starting newer_terminal 30) ∷ []; shutdown = false }

abbrev knows : ℕ → Option Bool
knows rounds = some true

table-claimed :
    claim knows newer_terminal (ok 30) table
    ≡ (claimed_table, some (ok (new_session newer_terminal (some (active_connection 9)))))
unfolding claim same_generation remove
table-claimed = refl

activated :
    activate newer_terminal 5 claimed_table
    ≡ (record { slots = (97 ∷ [], active newer_terminal 5) ∷ []; shutdown = false }, none)
unfolding activate same_generation remove
activated = refl

claim_owns_example :
    (claim knows newer_terminal (ok 31) claimed_table ≡ (claimed_table, some (err starting_busy)))
    × (activate older_terminal 5 claimed_table ≡ (claimed_table, some invalid_transition))
    × (drop_start older_terminal claimed_table ≡ claimed_table)
claim_owns_example =
    claim_owns knows knows newer_terminal older_terminal newer_terminal 30 31 5 table claimed_table
      (some (active_connection 9)) (table-claimed) refl refl (λ same. omega arith)

claim_answers_example :
    (result : Result SessionClaim SessionTableError) × ((claim knows newer_terminal (ok 30) table).1
      ≡ some result)
claim_answers_example = claim_answers knows newer_terminal (ok 30) table
