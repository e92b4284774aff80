-- ===== src/TaskBatch/Limit.antt =====
-- src/async-task-batch.ts: the tasks that run, and the limit.
use acebase.Prelude.{
  ℕ, suc, ◌+◌, ◌-◌, ◌≤◌, ◌≡◌, ◌⊎◌, inl, inr, refl, subst, ap, ◌∙◌, arith, Bool, true, false, not,
  ◌&&◌, List, [], ◌∷◌, ◌++◌, ltb, ◌==◌, if◌then◌else◌, some, Bool-cases, length, length-append,
}
use acebase.TaskBatch.{
  Batch, new_batch, execute, run_next, without, succeed, fail, add, start_all, start,
}

abbrev pub holds : ℕ → List ℕ → Bool
holds i [] = false
holds i (j ∷ js) = let rest = holds i js in if j == i then true else rest

length-without : (i : ℕ) (js : List ℕ) → holds i js ≡ true → suc (length (without i js)) ≡ length js
length-without i [] h = cc
length-without i (j ∷ js) h = ground (arith, length-without i js)

execute-counted : (i : ℕ) (ts : List ℕ) (n : ℕ) → length ts ≡ n → length (ts ++ i ∷ []) ≡ suc n
execute-counted i ts n h = length-append ts (i ∷ []) ∙ ground arith

module _ {R : Type 0} where
  -- A batch that has not failed: it counts its running tasks, at most as many as the limit, and if it
  -- does not wait for `start`, tasks are only scheduled while as many run as the limit says.
  pub record IsBusy (b : Batch R) : Type 0 where
    pub counted : length b.running_tasks ≡ b.running
    pub limited : b.running ≤ b.limit
    pub full : (b.wait ≡ true) ⊎ ((b.scheduled ≡ []) ⊎ (b.running ≡ b.limit))

  pub new_batch-IsBusy : (limit : ℕ) (wait : Bool) → IsBusy (new_batch limit wait)
  new_batch-IsBusy limit wait = record {
    counted = refl;
    limited = ground arith;
    full = inr (inl refl);
  }

  -- The only way a task can be scheduled while others run.
  none_scheduled :
      (b : Batch R)
      → (b.wait ≡ true) ⊎ ((b.scheduled ≡ []) ⊎ (b.running ≡ b.limit))
      → (not b.wait && ltb b.running b.limit) ≡ true
      → b.scheduled ≡ []
  none_scheduled b (inl w) t =
      let no : (not true && ltb b.running b.limit) ≡ true =
        subst (λ x. (not x && ltb b.running b.limit) ≡ true) w t in
      cc
  none_scheduled b (inr (inl e)) t = e
  none_scheduled b (inr (inr e)) t = ground arith

  must_wait :
      (b : Batch R)
      → b.running ≤ b.limit
      → (not b.wait && ltb b.running b.limit) ≡ false
      → (b.wait ≡ true) ⊎ (b.running ≡ b.limit)
  must_wait b l f = elim (Bool-cases b.wait) [ inl t ↦ inl t | inr n ↦ inr (ground arith) ]

  either_full :
      {s : List ℕ} (b : Batch R)
      → (b.wait ≡ true) ⊎ (b.running ≡ b.limit)
      → (b.wait ≡ true) ⊎ ((s ≡ []) ⊎ (b.running ≡ b.limit))
  either_full b (inl w) = inl w
  either_full b (inr e) = inr (inr e)

  -- On a busy batch that is not done, `add` does not throw and keeps the batch busy.
  pub add-IsBusy :
      (b : Batch R) → IsBusy b → b.done ≡ false → (b' : Batch R) × (add b ≡ some b') × IsBusy b'
  unfolding add
  add-IsBusy b v d = elim (Bool-cases (not b.wait && ltb b.running b.limit)) [
    | inl t ↦
        rw (d, t)
          (
            _,
            refl,
            record {
              counted = execute-counted b.added b.running_tasks b.running v.counted;
              limited = ground arith;
              full = inr (inl (none_scheduled b v.full t));
            },
          )
    | inr f ↦
        rw (d, f)
          (
            _,
            refl,
            record {
              counted = v.counted;
              limited = v.limited;
              full = either_full b (must_wait b v.limited f);
            },
          )
  ]

  run_next-IsBusy :
      (queue : List ℕ) (b : Batch R)
      → length b.running_tasks ≡ b.running
      → suc b.running ≤ b.limit
      → (b.wait ≡ true) ⊎ ((queue ≡ []) ⊎ (suc b.running ≡ b.limit))
      → b.scheduled ≡ queue
      → IsBusy (run_next queue b)
  run_next-IsBusy [] b c l f q = elim (Bool-cases (b.running == 0)) [
    | inl t ↦ rw t (record { counted = c; limited = ground arith; full = inr (inl q) })
    | inr n ↦ rw n (record { counted = c; limited = ground arith; full = inr (inl q) })
  ]
  run_next-IsBusy (next ∷ rest) b c l f q = record {
    counted = execute-counted next b.running_tasks b.running c;
    limited = l;
    full = still b f;
  }
    where
      still :
          (b : Batch R)
          → (b.wait ≡ true) ⊎ ((next ∷ rest ≡ []) ⊎ (suc b.running ≡ b.limit))
          → (b.wait ≡ true) ⊎ ((rest ≡ []) ⊎ (suc b.running ≡ b.limit))
      still b (inl w) = inl w
      still b (inr (inl e)) = cc
      still b (inr (inr e)) = inr (inr e)

  -- When a running task has its result, the next one starts, and the batch stays busy.
  pub succeed-IsBusy :
      (index : ℕ) (result : R) (b : Batch R)
      → IsBusy b
      → holds index b.running_tasks ≡ true
      → IsBusy (succeed index result b)
  unfolding succeed
  succeed-IsBusy index result b v h =
      let one : suc (length (without index b.running_tasks)) ≡ length b.running_tasks =
        length-without index b.running_tasks h in
      let counted : length (without index b.running_tasks) ≡ b.running - 1 =
        ground (arith, v.counted) in
      let running : suc (b.running - 1) ≡ b.running = ground (arith, v.counted) in
      run_next-IsBusy b.scheduled _ counted (ground (arith, v.limited)) (rw running v.full) refl

  start_all-throws :
      (queue : List ℕ) (b : Batch R)
      → (start_all queue b).1 ≡ not (ltb (b.running + length queue) b.limit)
  start_all-throws [] b = ap (λ n. not (ltb n b.limit)) (ground arith)
  start_all-throws (next ∷ rest) b = elim (Bool-cases (ltb b.running b.limit)) [
    | inr n ↦ rw n (ground arith)
    | inl t ↦ rw t (
        start_all-throws rest (execute next (record b { scheduled = rest }))
        ∙ ap (λ n. not (ltb n b.limit)) (ground arith))
  ]

  -- `start` returns exactly if there are enough tasks to reach the limit; with fewer tasks it throws.
  pub start_returns :
      (b : Batch R) → (start b).1 ≡ not (ltb (b.running + length b.scheduled) b.limit)
  unfolding start
  start_returns b = start_all-throws b.scheduled b

module _ {R : Type 0} where
  -- After the failure of a task the result of another one still starts the next scheduled task.
  pub fail_runs_next :
      (failed ready : ℕ) (result : R) (b : Batch R) (next : ℕ) (rest : List ℕ)
      → b.scheduled ≡ next ∷ rest
      → ((succeed ready result (fail failed b)).scheduled ≡ rest)
        × ((succeed ready result (fail failed b)).running_tasks
            ≡ without ready (without failed b.running_tasks) ++ next ∷ [])
  unfolding succeed fail
  fail_runs_next failed ready result b next rest q = rw q (refl, refl)
