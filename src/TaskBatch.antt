-- ===== src/TaskBatch.antt =====
-- src/async-task-batch.ts: `AsyncTaskBatch`. A task is its index; that it settles, with a result or an
-- error, is an event of the outside.
pub mod Limit
mod Tests
use acebase.Prelude.{
  ℕ, zero, suc, ◌+◌, ◌-◌, Bool, true, false, not, ◌&&◌, List, [], ◌∷◌, ◌++◌, ltb, ◌==◌,
  if◌then◌else◌, Option, none, some,
}

-- `AsyncTaskBatch`; `running_tasks` are the tasks that have been started and not settled, which the
-- source only counts. `results` are stored under their index. The callbacks
-- of `finish` are called when `done` is set.
pub record Batch (R : Type 0) : Type 0 where
  pub limit : ℕ
  pub wait : Bool
  pub added : ℕ
  pub scheduled : List ℕ
  pub running : ℕ
  pub running_tasks : List ℕ
  pub results : List (ℕ × R)
  pub done : Bool

-- The running tasks without one.
abbrev pub without : ℕ → List ℕ → List ℕ
without i [] = []
without i (j ∷ js) = let rest = without i js in if j == i then js else j ∷ rest

module _ {R : Type 0} where
  abbrev pub new_batch : ℕ → Bool → Batch R
  new_batch limit wait = record {
    limit = limit;
    wait = wait;
    added = 0;
    scheduled = [];
    running = 0;
    running_tasks = [];
    results = [];
    done = false;
  }

  -- `execute` up to its `await`
  abbrev pub execute : ℕ → Batch R → Batch R
  execute index b = record b {
    running = suc b.running;
    running_tasks = b.running_tasks ++ index ∷ [];
  }

  abbrev pub run_next : List ℕ → Batch R → Batch R
  run_next [] b = if b.running == 0 then record b { done = true } else b
  run_next (next ∷ rest) b = execute next (record b { scheduled = rest })

  -- The rest of `execute`, when the task has a result.
  unfoldable pub succeed : ℕ → R → Batch R → Batch R
  succeed index result b = run_next b.scheduled (record b {
    results = b.results ++ (index, result) ∷ [];
    running = b.running - 1;
    running_tasks = without index b.running_tasks;
  })

  -- The rest of `execute`, when the task fails: it stays among the running ones that are counted.
  unfoldable pub fail : ℕ → Batch R → Batch R
  fail index b = record b { done = true; running_tasks = without index b.running_tasks }

  -- `add`; `none` is a thrown error.
  unfoldable pub add : Batch R → Option (Batch R)
  add b =
      if b.done
      then none
      else (let b' : Batch R = record b { added = suc b.added } in
          some (
            if not b.wait && ltb b.running b.limit
            then execute b.added b'
            else record b' { scheduled = b.scheduled ++ b.added ∷ [] }))

  -- `start`: the loop takes tasks until the limit is reached; without a task left `next` is undefined and
  -- the loop throws a `TypeError`, which is `false`.
  abbrev pub start_all : List ℕ → Batch R → Batch R × Bool
  start_all [] b = (b, not (ltb b.running b.limit))
  start_all (next ∷ rest) b =
      let started = start_all rest (execute next (record b { scheduled = rest })) in
      if ltb b.running b.limit then started else (b, true)

  unfoldable pub start : Batch R → Batch R × Bool
  start b = start_all b.scheduled b
