-- ===== src/Tx.antt =====
-- src/btree/tx.ts: `TX`, steps that are rolled back when one fails. What the actions change is a state
-- of the caller's choice. What a rollback does to it, it has done when the next one is called.
pub mod Rollback
pub mod Parallel
mod Tests
use acebase.Prelude.{
  ℕ, Bool, true, false, ◌&&◌, List, [], ◌∷◌, ◌++◌, Option, none, some, if◌then◌else◌,
}

-- What an action or a rollback came to.
pub data Settled (R : Type 0) (E : Type 0) : Type 0 where
  resolved : R → Settled R E
  rejected : E → Settled R E

-- What a call of a rollback came to: a promise, or an error that it threw itself.
pub data Called (R : Type 0) (E : Type 0) : Type 0 where
  settled : Settled R E → Called R E
  thrown : E → Called R E

module _ (S : Type 0) (R : Type 0) (E : Type 0) where
  -- A step of the queue; the action gets the result of the one before.
  pub record Step : Type 0 where
    pub action : Option R → S → Settled R E × S
    pub rollback : S → Called R E × S

-- What rolling back came to: all rollbacks were called, and maybe a promise was rejected, first with an
-- error; or one threw an error itself, and those behind it were not called.
pub data Undone (E : Type 0) : Type 0 where
  all_called : Option E → Undone E
  stopped : E → Undone E

-- How `execute` ends: with the last result; or with the error of the action that failed and, where a
-- rollback was rejected too, the error of the first that was; or with the error that a rollback
-- threw.
pub data Ending (R : Type 0) (E : Type 0) : Type 0 where
  returned : Option R → Ending R E
  threw : E → Option E → Ending R E
  rollback_threw : E → Ending R E

abbrev pub first_error : {R : Type 0} {E : Type 0} → Settled R E → Undone E → Undone E
first_error (resolved r) later = later
first_error (rejected e) (all_called later) = all_called (some e)
first_error (rejected e) (stopped f) = stopped f

module _ {S : Type 0} {R : Type 0} {E : Type 0} where
  -- `rollbackSteps.map(step => step())`, and `Promise.all`.
  unfoldable pub roll_back : List (Step S R E) → S → Undone E × S
  roll_back [] s = (all_called none, s)
  roll_back (t ∷ ts) s =
      let (called, s') = t.rollback s in
      let (later, s'') = roll_back ts s' in
      elim called [ settled m ↦ (first_error m later, s'') | thrown e ↦ (stopped e, s') ]

  -- `execute(false)` from some steps on, those before having run; the steps left in the queue last.
  unfoldable pub execute_from :
      List (Step S R E) → Option R → List (Step S R E) → S → Ending R E × S × List (Step S R E)
  unfolding roll_back
  execute_from before result [] s = (returned result, s, [])
  execute_from before result (t ∷ ts) s =
      let (done, s') = t.action result s in
      elim done [
        | resolved r ↦ execute_from (before ++ t ∷ []) (some r) ts s'
        | rejected e ↦
            let (undone, s'') = roll_back (before ++ t ∷ []) s' in
            (
              elim undone [ all_called error ↦ threw e error | stopped f ↦ rollback_threw f ],
              s'',
              ts,
            )
      ]

  unfoldable pub execute : List (Step S R E) → S → Ending R E × S × List (Step S R E)
  unfolding execute_from
  execute queue s = execute_from [] none queue s

module _ {R : Type 0} {E : Type 0} where
  -- The steps that have failed, and their errors.
  abbrev pub errors_of : List (Settled R E) → List E
  errors_of [] = []
  errors_of (resolved r ∷ rest) = errors_of rest
  errors_of (rejected e ∷ rest) = e ∷ errors_of rest

-- How `execute(true)` ends: it returns, or throws 'tx-failed' with the errors of the actions, or
-- 'tx-rollback-failed' with those of the rollbacks too.
pub data ParallelEnding (E : Type 0) : Type 0 where
  all_done : ParallelEnding E
  tx_failed : List E → ParallelEnding E
  tx_rollback_failed : List E → List E → ParallelEnding E

abbrev pub rolled_back : {E : Type 0} → List E → List E → ParallelEnding E
rolled_back errors [] = tx_failed errors
rolled_back errors (e ∷ es) = tx_rollback_failed errors (e ∷ es)

abbrev pub parallel_ending : {E : Type 0} → List E → List E → ParallelEnding E
parallel_ending [] rollback_errors = all_done
parallel_ending (e ∷ es) rollback_errors = rolled_back (e ∷ es) rollback_errors

-- A step as `execute(true)` sees it: what its action comes to, and what its rollback comes to, if it has
-- one. The steps run at the same time, so no step sees what another one did.
pub record ParallelStep (R : Type 0) (E : Type 0) : Type 0 where
  pub action : Settled R E
  pub rollback : Option (Settled R E)

module _ {R : Type 0} {E : Type 0} where
  abbrev pub actions_of : List (ParallelStep R E) → List (Settled R E)
  actions_of [] = []
  actions_of (t ∷ ts) = t.action ∷ actions_of ts

  abbrev pub with_rollback : Option (Settled R E) → List (Settled R E) → List (Settled R E)
  with_rollback none rest = rest
  with_rollback (some r) rest = r ∷ rest

  abbrev pub rollbacks_of : List (ParallelStep R E) → List (Settled R E)
  rollbacks_of [] = []
  rollbacks_of (t ∷ ts) = with_rollback t.rollback (rollbacks_of ts)

  -- `execute(true)`: the rollbacks run only if an action failed, and then those of all steps.
  unfoldable pub execute_parallel : List (ParallelStep R E) → ParallelEnding E
  execute_parallel steps =
      parallel_ending (errors_of (actions_of steps)) (errors_of (rollbacks_of steps))
