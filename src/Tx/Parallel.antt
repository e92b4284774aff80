-- ===== src/Tx/Parallel.antt =====
-- src/btree/tx.ts: how the steps that run at the same time end.
use acebase.Prelude.{◌≡◌, ◌≢◌, ◌↔◌, refl, sym, ap, List, [], ◌∷◌, All}
use acebase.Tx.{
  Settled, resolved, rejected, all_done, tx_failed, ParallelStep, errors_of, actions_of,
  rollbacks_of, parallel_ending, execute_parallel,
}

all_done_iff : {E : Type 0} (es rs : List E) → (parallel_ending es rs ≡ all_done) ↔ (es ≡ [])
all_done_iff [] rs = (λ h. refl, λ h. refl)
all_done_iff (e ∷ es) [] = (λ h. cc, λ h. cc)
all_done_iff (e ∷ es) (r ∷ rs) = (λ h. cc, λ h. cc)

tx_failed_iff :
    {E : Type 0} (es rs errors : List E)
    → (parallel_ending es rs ≡ tx_failed errors) ↔ ((errors ≡ es) × (es ≢ []) × (rs ≡ []))
tx_failed_iff [] rs errors = (λ h. cc, λ h. elim (h.1 refl) [ ])
tx_failed_iff (e ∷ es) [] errors = (λ h. (cc, λ n. cc, refl), λ h. ap tx_failed (sym h.0))
tx_failed_iff (e ∷ es) (r ∷ rs) errors = (λ h. cc, λ h. cc)

module _ {R : Type 0} {E : Type 0} where
  abbrev pub HasResult : Settled R E → Type 0
  HasResult m = (r : R) × (m ≡ resolved r)

  errors_of-none : (ms : List (Settled R E)) → errors_of ms ≡ [] → All HasResult ms
  errors_of-none [] h = tt
  errors_of-none (resolved r ∷ ms) h = ((r, refl), errors_of-none ms h)
  errors_of-none (rejected e ∷ ms) h = cc

  none-errors_of : (ms : List (Settled R E)) → All HasResult ms → errors_of ms ≡ []
  none-errors_of [] h = refl
  none-errors_of (resolved r ∷ ms) h = none-errors_of ms h.1
  none-errors_of (rejected e ∷ ms) ((r, q), h) = cc

  -- `execute` in parallel returns exactly if all actions have a result, and throws 'tx-failed' exactly
  -- with the errors of the actions, if there are some and all rollbacks have a result.
  pub execute_parallel_iff :
      (steps : List (ParallelStep R E))
      → ((execute_parallel steps ≡ all_done) ↔ All HasResult (actions_of steps))
        × ((errors : List E)
            → (execute_parallel steps ≡ tx_failed errors) ↔ (
                (errors ≡ errors_of (actions_of steps))
                × (errors_of (actions_of steps) ≢ [])
                × All HasResult (rollbacks_of steps)))
  unfolding execute_parallel
  execute_parallel_iff steps =
      let done = all_done_iff (errors_of (actions_of steps)) (errors_of (rollbacks_of steps)) in
      let failed = tx_failed_iff (errors_of (actions_of steps)) (errors_of (rollbacks_of steps)) in
      (
        (λ h. errors_of-none _ (done.0 h), λ h. done.1 (none-errors_of _ h)),
        λ errors. (
          λ h. let (e, n, r) = (failed errors).0 h in (e, n, errors_of-none _ r),
          λ h. (failed errors).1 (h.0, h.1, none-errors_of _ h.2),
        ),
      )
