-- ===== src/Tx/Tests.antt =====
-- src/btree/tx.ts: two steps that add to a number; the second one fails after it has added.
use acebase.Prelude.{some, ℕ, ◌+◌, ◌-◌, ◌≡◌, ◌⊎◌, List, [], ◌∷◌, refl, none}
use acebase.Tx.{
  settled, thrown, rollback_threw, resolved, rejected, Step, threw, roll_back, ParallelStep,
  execute_parallel, tx_failed, execute_from, execute,
}
use acebase.Tx.Rollback.{Completed, RolledBack, execute-outcome}

abbrev adds : ℕ → Step ℕ ℕ ℕ
adds n = record {
  action = λ r s. (resolved n, s + n);
  rollback = λ s. (settled (resolved n), s - n);
}

abbrev adds_and_fails : ℕ → Step ℕ ℕ ℕ
adds_and_fails n = record {
  action = λ r s. (rejected 404, s + n);
  rollback = λ s. (settled (resolved n), s - n);
}

abbrev steps : List (Step ℕ ℕ ℕ)
steps = adds 5 ∷ adds_and_fails 7 ∷ adds 9 ∷ []

undone : execute steps 100 ≡ (threw 404 none, 100, adds 9 ∷ [])
unfolding execute execute_from roll_back
undone = refl

-- A rollback that throws: those behind it are not called, and its error is thrown.
abbrev cannot_undo : ℕ → Step ℕ ℕ ℕ
cannot_undo n = record { action = λ r s. (resolved n, s + n); rollback = λ s. (thrown 500, s) }

stops_undoing : execute (cannot_undo 5 ∷ steps) 100 ≡ (rollback_threw 500, 117, adds 9 ∷ [])
unfolding execute execute_from roll_back
stops_undoing = refl

execute-outcome_example :
    Completed none steps 100 (execute steps 100) ⊎ RolledBack [] none steps 100 (execute steps 100)
execute-outcome_example = execute-outcome steps 100

abbrev together : List (ParallelStep ℕ ℕ)
together =
    record { action = resolved 5; rollback = some (resolved 0) }
    ∷ record { action = rejected 404; rollback = none }
    ∷ []

fails_together : execute_parallel together ≡ tx_failed (404 ∷ [])
unfolding execute_parallel
fails_together = refl
