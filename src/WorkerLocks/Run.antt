-- ===== src/WorkerLocks/Run.antt =====
-- src/ipc/ipc.ts: what calls and results may come in any order, and what holds after any of them.

use acebase.WorkerLocks.Pending.{Requests, IsListed, requested-AreSettled, added-AreSettled}
use acebase.WorkerLocks.Removing.{
  is_empty, Leaves, exit-Leaves, exit-rest, Leaves-listed, Leaves-full,
}
use acebase.WorkerLocks.Answers.{IsOrderly, handle_result-IsOrderly}
use acebase.WorkerLocks.{
  done, denied, LockData, LockInfo, for_release, for_move, Worker, Done, new_worker, ref_of, lock,
  release, move_to_parent, exit, handle_result,
}
use acebase.Prelude.{
  ℕ, ◌≡◌, ◌≢◌, Bool, true, false, not, ◌&&◌, List, [], ◌∷◌, ◌++◌, has, has_some, Option, none,
  Bool-cases, inl, inr, refl, sym, ap, ◌∙◌, subst, All, In, if_true, if_false, String,
}
use text.Mathlib.Text.{◌==◌ as str_eq}

-- No request about the object is pending.
abbrev pub IsIdle : ℕ → Requests → Type 0
IsIdle ref rs = All (λ r. ref_of r ≢ ref) rs

both_true : (a b : Bool) → true ≡ (a && b) → (a ≡ true) × (b ≡ true)
both_true true b e = (refl, sym e)
both_true false b e = cc

module _ {D : Type 0} where
  -- The calls, on a lock only if it was granted, is not released, and is not in a call already; and results of
  -- any requests, known or not.
  pub data Step : Worker D → Worker D → Type 0 where
    locks : (tid : String) (w : Worker D) → Step w (lock tid w).worker
    releases :
        (l : LockInfo D) (id : ℕ) (w : Worker D)
        → In l w.locks
        → l.granted ≡ true
        → IsIdle l.ref w.requests
        → Step w (release l.ref id w).worker
    moves :
        (l : LockInfo D) (id : ℕ) (w : Worker D)
        → In l w.locks
        → l.granted ≡ true
        → IsIdle l.ref w.requests
        → Step w (move_to_parent l.ref id w).worker
    answers :
        (id : ℕ) (result : Option (LockData D)) (w : Worker D)
        → Step w (handle_result id result w).worker
    exits : (w : Worker D) → Step w (exit w).worker

  pub data IsReachable : Worker D → Type 0 where
    starts : IsReachable new_worker
    steps : {w v : Worker D} → IsReachable w → Step w v → IsReachable v

  full-append : (ls : List (LockInfo D)) (l : LockInfo D) → is_empty (ls ++ l ∷ []) ≡ false
  full-append [] l = refl
  full-append (x ∷ ls) l = refl

  -- A lock is listed only where `exit` has not ended.
  lock-Leaves :
      (tid : String) (w : Worker D)
      → Leaves w
      → (w.exiting && not (has (λ l. str_eq l.tid tid && l.granted) w.locks)) ≡ false
      → (w.waits ≡ w.exiting) × (w.exited ≡ false)
  lock-Leaves tid w h allowed = elim (Bool-cases w.exiting) [
    | inr f ↦ let (a, b) = h in (a ∙ rw f refl, b ∙ rw f refl)
    | inl t ↦ elim (Bool-cases (has (λ l. str_eq l.tid tid && l.granted) w.locks)) [
      | inl y ↦
          let (l, i, e) = has_some (λ l. str_eq l.tid tid && l.granted) w.locks y in
          Leaves-listed l.ref w (l, i, refl) h
      | inr n ↦
          let e : true ≡ false =
            sym (ap (λ b. w.exiting && not b) n ∙ ap (λ b. b && true) t) ∙ allowed in
          cc
    ]
  ]

  lock-IsOrderly : (tid : String) (w : Worker D) → IsOrderly w → IsOrderly (lock tid w).worker
  unfolding lock
  lock-IsOrderly tid w (s, leaves) =
      let test : Bool = w.exiting && not (has (λ l. str_eq l.tid tid && l.granted) w.locks) in
      elim (Bool-cases test) [
        | inl t ↦ subst (λ (d : Done D). IsOrderly d.worker) (sym (if_true test _ _ t)) (s, leaves)
        | inr f ↦
            let l : LockInfo D = record {
              ref = w.next;
              tid = tid;
              granted = false;
              lock = none;
              ended = false;
            } in
            let (a, b) = lock-Leaves tid w leaves f in
            subst (λ (d : Done D). IsOrderly d.worker) (sym (if_false test _ _ f))
              (
                added-AreSettled w.locks w.requests w.next l refl s,
                Leaves-full (record w { locks = w.locks ++ l ∷ [] }) (full-append w.locks l) a b,
              )
      ]

  step-IsOrderly : (w v : Worker D) → Step w v → IsOrderly w → IsOrderly v
  unfolding release move_to_parent exit
  step-IsOrderly w _ (locks tid _) o = lock-IsOrderly tid w o
  step-IsOrderly w _ (releases l id _ i g idle) (s, leaves) = (
    requested-AreSettled w.locks w.requests w.next (for_release l.ref) (l, i, refl) idle s,
    leaves,
  )
  step-IsOrderly w _ (moves l id _ i g idle) (s, leaves) =
      (requested-AreSettled w.locks w.requests w.next (for_move l.ref) (l, i, refl) idle s, leaves)
  step-IsOrderly w _ (answers id result _) o = handle_result-IsOrderly id result w o
  step-IsOrderly w _ (exits _) (s, leaves) =
      let (a, b, c) = exit-rest w in (rw (a, b, c) s, exit-Leaves w leaves)

  -- After any calls on a new worker and any results of requests, where a lock is released or moved only if it is
  -- listed, was granted, and is in no such call: each pending request is about another listed lock; each
  -- listed lock was granted or is asked for by a pending request; and exit, if it was called, waits as
  -- long as locks are listed, and has ended if there are none.
  pub reachable-IsOrderly : (w : Worker D) → IsReachable w → IsOrderly w
  reachable-IsOrderly w starts = (
    record {
      objects = tt;
      ids = tt;
      about = tt;
      objects_below = tt;
      ids_below = tt;
      listed = tt;
      settled = tt;
    },
    (refl, refl),
  )
  reachable-IsOrderly v (steps r s) = step-IsOrderly _ v s (reachable-IsOrderly _ r)

  nothing_pending :
      (ls : List (LockInfo D)) (rs : Requests)
      → All (λ r. IsListed ls (ref_of r)) rs
      → is_empty ls ≡ true
      → (ls ≡ []) × (rs ≡ [])
  nothing_pending [] [] h e = (refl, refl)
  nothing_pending [] (r ∷ rs) ((l, i, q), h) e = elim i [ ]
  nothing_pending (l ∷ ls) rs h e = cc

  -- When exit of a worker has ended, after any such calls and results, no lock is listed, no request is
  -- pending, and any lock is denied and changes nothing.
  pub exited-denied :
      (tid : String) (w : Worker D)
      → IsReachable w
      → w.exited ≡ true
      → (w.locks ≡ []) × (w.requests ≡ []) × (lock tid w ≡ done w (denied ∷ []))
  unfolding lock
  exited-denied tid w r e =
      let (s, (a, b)) = reachable-IsOrderly w r in
      let (asked, none_left) = both_true w.exiting (is_empty w.locks) (sym e ∙ b) in
      let (no_locks, no_requests) = nothing_pending w.locks w.requests s.listed none_left in
      let test : (w.exiting && not (has (λ l. str_eq l.tid tid && l.granted) w.locks)) ≡ true =
        ap (λ x. x && not (has (λ l. str_eq l.tid tid && l.granted) w.locks)) asked
        ∙ ap (λ ls. not (has (λ (l : LockInfo D). str_eq l.tid tid && l.granted) ls)) no_locks in
      (
        no_locks,
        no_requests,
        if_true (w.exiting && not (has (λ l. str_eq l.tid tid && l.granted) w.locks)) _ _ test,
      )
