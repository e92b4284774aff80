-- ===== src/WorkerLocks.antt =====
-- src/ipc/ipc.ts: the locks of a worker, which it asks the master for, and its exit. A promise that waits is a
-- pending request; objects, requests and their messages have numbers from one counter. `lock` is
-- given as the master answers it: its id, its transaction and the rest.
pub mod Apart
pub mod Pending
pub mod Removing
pub mod Answers
pub mod Run
mod Tests
use acebase.Prelude.{
  ℕ, zero, suc, ◌+◌, Bool, true, false, not, ◌&&◌, List, [], ◌∷◌, ◌++◌, ◌==◌, has, find, keep, map,
  remove_first, if◌then◌else◌, Option, none, some, String,
}
use text.Mathlib.Text.{◌==◌ as str_eq}

-- `ILockResponseData`
pub record LockData (D : Type 0) : Type 0 where
  pub id : ℕ
  pub tid : String
  pub rest : D

-- `InternalLockInfo`, an object; `ended` tells that the state of its lock is DONE.
pub record LockInfo (D : Type 0) : Type 0 where
  pub ref : ℕ
  pub tid : String
  pub granted : Bool
  pub lock : Option (LockData D)
  pub ended : Bool

-- What waits for the result of a request, with the object it is about.
pub data Waiting : Type 0 where
  for_lock for_release for_move : ℕ → Waiting

-- A message to the master, the end of a promise, or the end of the worker.
pub data Output (D : Type 0) : Type 0 where
  lock_request : ℕ → String → Output D
  unlock_request move_lock_request : ℕ → ℕ → Output D
  denied unknown_request bye : Output D
  granted moved : ℕ → LockData D → Output D
  rejected released : ℕ → Output D

-- `_locks`, `_requests`, `_exiting`, whether `exit` waits for `locks-cleared`, and whether it ended.
pub record Worker (D : Type 0) : Type 0 where
  pub locks : List (LockInfo D)
  pub requests : List (ℕ × Waiting)
  pub next : ℕ
  pub exiting : Bool
  pub waits : Bool
  pub exited : Bool

-- A worker after a call, and what the call put out.
pub record Done (D : Type 0) : Type 0 where
  pub worker : Worker D
  pub outputs : List (Output D)

-- The object that a request is about.
abbrev pub ref_of : ℕ × Waiting → ℕ
ref_of (id, for_lock ref) = ref
ref_of (id, for_release ref) = ref
ref_of (id, for_move ref) = ref

module _ {D : Type 0} where
  abbrev pub done : Worker D → List (Output D) → Done D
  done w out = record { worker = w; outputs = out }

  abbrev pub new_worker : Worker D
  new_worker = record {
    locks = [];
    requests = [];
    next = 0;
    exiting = false;
    waits = false;
    exited = false;
  }

  abbrev pub is_of : ℕ → LockInfo D → Bool
  is_of ref l = l.ref == ref

  -- `request`
  abbrev pub request : Waiting → Worker D → Worker D
  request wait w = record w { requests = w.requests ++ (w.next, wait) ∷ []; next = suc w.next }

  -- `lock`
  pub lock : String → Worker D → Done D
  lock tid w =
      if w.exiting && not (has (λ l. str_eq l.tid tid && l.granted) w.locks)
      then done w (denied ∷ [])
      else done
          (request (for_lock w.next) (record w {
            locks =
                w.locks
                ++ record { ref = w.next; tid = tid; granted = false; lock = none; ended = false }
                  ∷ [];
          }))
          (lock_request w.next tid ∷ [])

  -- `release` and `moveToParent` of a lock, with its object and its id
  pub release : ℕ → ℕ → Worker D → Done D
  release ref id w = done (request (for_release ref) w) (unlock_request w.next id ∷ [])

  pub move_to_parent : ℕ → ℕ → Worker D → Done D
  move_to_parent ref id w = done (request (for_move ref) w) (move_lock_request w.next id ∷ [])

  abbrev pub without_last : List (LockInfo D) → List (LockInfo D)
  without_last [] = []
  without_last (l ∷ []) = []
  without_last (l ∷ m ∷ ls) = l ∷ without_last (m ∷ ls)

  -- `splice(indexOf(lockDetails), 1)`: the index of what is not there is -1.
  abbrev pub splice : ℕ → List (LockInfo D) → List (LockInfo D)
  splice ref ls = if has (is_of ref) ls then remove_first (is_of ref) ls else without_last ls

  -- The end of `exit`, once the locks are cleared.
  abbrev pub end_exit : Worker D → Done D
  end_exit w = done (record w { waits = false; exited = true }) (bye ∷ [])

  -- `removeLock`
  pub remove_lock : ℕ → Worker D → Done D
  remove_lock ref w =
      let ls = splice ref w.locks in
      elim ls [
        | [] ↦
            if w.waits
            then end_exit (record w { locks = [] })
            else done (record w { locks = [] }) []
        | l ∷ rest ↦ done (record w { locks = l ∷ rest }) []
      ]

  -- `exit`
  pub exit : Worker D → Done D
  exit w = if w.exiting then done w [] else elim w.locks [
    | [] ↦ end_exit (record w { exiting = true })
    | l ∷ rest ↦ done (record w { exiting = true; waits = true }) []
  ]

  -- Assignments to the fields of the object.
  abbrev pub change : ℕ → (LockInfo D → LockInfo D) → Worker D → Worker D
  change ref f w = record w { locks = map (λ l. if is_of ref l then f l else l) w.locks }

  -- `createIPCLock` of a worker
  abbrev pub create_ipc_lock : ℕ → LockData D → Worker D → Worker D
  create_ipc_lock ref answer w =
      change ref
        (λ l. record l { granted = true; tid = answer.tid; lock = some answer; ended = false }) w

  -- What waits for the request goes on with the data.
  pub resolve : Waiting → LockData D → Worker D → Done D
  unfolding remove_lock
  resolve (for_lock ref) answer w = done (create_ipc_lock ref answer w) (granted ref answer ∷ [])
  resolve (for_release ref) answer w =
      let d = remove_lock ref (change ref (λ l. record l { ended = true }) w) in
      done d.worker (d.outputs ++ released ref ∷ [])
  resolve (for_move ref) answer w = done (create_ipc_lock ref answer w) (moved ref answer ∷ [])

  -- What waits for the request goes on with the error.
  pub reject : Waiting → Worker D → Done D
  unfolding remove_lock
  reject (for_lock ref) w =
      let d = remove_lock ref w in done d.worker (d.outputs ++ rejected ref ∷ [])
  reject (for_release ref) w = done w (rejected ref ∷ [])
  reject (for_move ref) w =
      let d = remove_lock ref (change ref (λ l. record l { ended = true }) w) in
      done d.worker (d.outputs ++ rejected ref ∷ [])

  -- `handleMessage` of a lock-result or an unlock-result: the id of the request, and the data if it is ok.
  pub handle_result : ℕ → Option (LockData D) → Worker D → Done D
  unfolding resolve reject
  handle_result id result w = elim (find (λ r. r.0 == id) w.requests) [
    | none ↦ done w (unknown_request ∷ [])
    | some r ↦
        let known = record w { requests = keep (λ q. not (q.0 == id)) w.requests } in
        elim result [ some answer ↦ resolve r.1 answer known | none ↦ reject r.1 known ]
  ]
