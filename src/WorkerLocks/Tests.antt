-- ===== src/WorkerLocks/Tests.antt =====
-- src/ipc/ipc.ts: a worker that is asked to exit while it holds a lock, and the theorems on it.
use acebase.WorkerLocks.Answers.{IsOrderly}
use acebase.WorkerLocks.Run.{
  IsReachable, starts, steps, locks, answers, exits, releases, reachable-IsOrderly, exited-denied,
}
use acebase.WorkerLocks.{
  Worker, LockData, LockInfo, new_worker, lock, handle_result, exit, release, done, denied, bye,
  released,
}
use acebase.Prelude.{ℕ, ◌≡◌, true, false, some, [], ◌∷◌, refl, inl}

abbrev answer : LockData ℕ
answer = record { id = 7; tid = "a"; rest = 0 }

abbrev asking : Worker ℕ
asking = (lock "a" new_worker).worker

abbrev holding : Worker ℕ
holding = (handle_result 0 (some answer) asking).worker

abbrev leaving : Worker ℕ
leaving = (exit holding).worker

abbrev held : LockInfo ℕ
held = record { ref = 0; tid = "a"; granted = true; lock = some answer; ended = false }

abbrev giving_back : Worker ℕ
giving_back = (release 0 7 leaving).worker

abbrev gone : Worker ℕ
gone = (handle_result 1 (some answer) giving_back).worker

leaves_last : (handle_result 1 (some answer) giving_back).outputs ≡ bye ∷ released 0 ∷ []
unfolding handle_result release exit lock
leaves_last = refl

gone-IsReachable : IsReachable gone
unfolding handle_result release exit lock
gone-IsReachable =
    steps
      (steps
        (steps (steps (steps starts (locks "a" new_worker)) (answers 0 (some answer) asking))
          (exits holding))
        (releases held 7 leaving (inl refl) refl tt))
      (answers 1 (some answer) giving_back)

reachable-IsOrderly_example : IsOrderly gone
reachable-IsOrderly_example = reachable-IsOrderly gone gone-IsReachable

exited-denied_example :
    (gone.locks ≡ []) × (gone.requests ≡ []) × (lock "b" gone ≡ done gone (denied ∷ []))
unfolding handle_result release exit lock
exited-denied_example = exited-denied "b" gone gone-IsReachable refl
