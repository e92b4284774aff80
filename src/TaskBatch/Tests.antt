-- ===== src/TaskBatch/Tests.antt =====
-- src/async-task-batch.ts: a batch of three tasks, two at a time.
use acebase.Prelude.{inr, arith, ℕ, ◌≡◌, true, false, [], ◌∷◌, refl}
use acebase.TaskBatch.{Batch, new_batch, succeed}
use acebase.TaskBatch.Limit.{IsBusy, succeed-IsBusy}

abbrev two_run : Batch ℕ
two_run = record (new_batch 2 false) {
  added = 3;
  scheduled = 2 ∷ [];
  running = 2;
  running_tasks = 0 ∷ 1 ∷ [];
}

two_run-IsBusy : IsBusy two_run
two_run-IsBusy = record { counted = refl; limited = ground arith; full = inr (inr refl) }

abbrev waits : Batch ℕ
waits = record (new_batch 1000 true) { added = 3; scheduled = 0 ∷ 1 ∷ 2 ∷ [] }

-- The third task starts when the first one is ready.
next_runs :
    succeed 0 7 two_run
    ≡ record two_run { scheduled = []; running_tasks = 1 ∷ 2 ∷ []; results = (0, 7) ∷ [] }
unfolding succeed
next_runs = refl

succeed-IsBusy_example : IsBusy (succeed 0 7 two_run)
succeed-IsBusy_example = succeed-IsBusy 0 7 two_run two_run-IsBusy refl
