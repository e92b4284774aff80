-- ===== src/Locker.antt =====
-- src/node-lock.ts: `NodeLocker`, which hands out read and write locks on nodes. A `NodeLock` object
-- is known by its `id`. Time is the argument `now` of each operation, in milliseconds. Promises
-- that an operation settles are appended to `effects`, in order. Transaction ids are compared only.
pub mod Ids
pub mod Queue
pub mod Exclusion
pub mod Waiting
pub mod Serve
pub mod Invariant
pub mod Grants
pub mod Quit
mod Tests
use acebase.Prelude.{
  ℕ, suc, ◌+◌, ◌*◌, String, Bool, true, false, not, ◌&&◌, ◌||◌, Option, none, some, List, [], ◌∷◌,
  ◌++◌, map, leb, ◌==◌, if◌then◌else◌, keep, find,
}

pub data LockState : Type 0 where
  pending locked expired done : LockState

abbrev pub is_pending : LockState → Bool
is_pending pending = true
is_pending _ = false

abbrev pub is_locked : LockState → Bool
is_locked locked = true
is_locked _ = false

abbrev pub is_expired : LockState → Bool
is_expired expired = true
is_expired _ = false

-- `granted`, `expires` and `waiting_for` are `none` while the source has no value there;
-- `timer` says whether the timeout handler is scheduled, `timeout_count` is its counter.
pub record NodeLock : Type 0 where
  pub id : ℕ
  pub path : String
  pub tid : ℕ
  pub for_writing : Bool
  pub priority : Bool
  pub state : LockState
  pub requested : ℕ
  pub granted : Option ℕ
  pub expires : Option ℕ
  pub comment : String
  pub waiting_for : Option ℕ
  pub timer : Bool
  pub timeout_count : ℕ

pub data Error : Type 0 where
  tid_expired quitting not_found : Error

pub data Effect : Type 0 where
  resolved : ℕ → Effect
  rejected : ℕ → Error → Effect
  quit_resolved : Effect

-- `last_id` is the module's counter `lastid`, `quit` says that `_quit` is set.
pub record NodeLocker : Type 0 where
  pub locks : List NodeLock
  pub last_id : ℕ
  pub quit : Bool
  pub timeout : ℕ
  pub effects : List Effect

abbrev pub conflicts : ℕ → Bool → NodeLock → Bool
conflicts tid for_writing other =
    not (other.tid == tid) && (is_locked other.state && (for_writing || other.for_writing))

-- `_allowLock`: `none` is `allow: true`.
abbrev pub find_conflict : ℕ → Bool → List NodeLock → Option NodeLock
find_conflict tid for_writing = find (conflicts tid for_writing)

pub is_allowed : NodeLocker → ℕ → Bool → Bool
is_allowed s tid for_writing = elim (find_conflict tid for_writing s.locks) [
  | none ↦ true
  | some _ ↦ false
]

-- What happens to one lock object.
abbrev pub update : ℕ → (NodeLock → NodeLock) → List NodeLock → List NodeLock
update id f = map λ l. if l.id == id then f l else l

-- `splice(indexOf(lock), 1)`
abbrev pub remove : ℕ → List NodeLock → List NodeLock
remove id [] = []
remove id (l ∷ ls) = if l.id == id then ls else l ∷ remove id ls

abbrev id_of : Option NodeLock → Option ℕ
id_of none = none
id_of (some l) = some l.id

-- The branch `proceed` of `lock`.
abbrev pub mark_granted : ℕ → ℕ → Bool → NodeLock → NodeLock
mark_granted now timeout no_timeout l = elim l.granted [
  | some _ ↦ record l { state = locked }
  | none ↦ if no_timeout then record l { state = locked; granted = some now } else record l {
    state = locked;
    granted = some now;
    expires = some (now + timeout);
    timer = true;
  }
]

-- `compareFn(a, b) <= 0` for the comparator of the queue: priority first, then the older request.
pub queue_le : NodeLock → NodeLock → Bool
queue_le a b =
    if a.priority && not b.priority
    then true
    else if not a.priority && b.priority
    then false
    else leb a.requested b.requested

-- `sort` is stable.
pub insert_queue : NodeLock → List NodeLock → List NodeLock
unfolding queue_le
insert_queue a [] = a ∷ []
insert_queue a (b ∷ bs) = if queue_le a b then a ∷ b ∷ bs else b ∷ insert_queue a bs

pub sort_queue : List NodeLock → List NodeLock
unfolding insert_queue
sort_queue [] = []
sort_queue (a ∷ bs) = insert_queue a (sort_queue bs)

abbrev pub emit : Effect → NodeLocker → NodeLocker
emit e s = record s { effects = s.effects ++ e ∷ [] }

-- `_rejectLock`
pub reject_lock : Error → NodeLocker → ℕ → NodeLocker
reject_lock e s id = emit (rejected id e) (record s { locks = remove id s.locks })

pub reject_all : NodeLocker → List NodeLock → NodeLocker
unfolding reject_lock
reject_all s [] = s
reject_all s (l ∷ ls) = reject_all (reject_lock quitting s l.id) ls

abbrev pub is_empty : List NodeLock → Bool
is_empty [] = true
is_empty (l ∷ ls) = false

-- The first part of `_processLockQueue`.
pub reject_pending : NodeLocker → NodeLocker
unfolding reject_all
reject_pending s =
    if s.quit
    then (let s' = reject_all s (keep (λ l. is_pending l.state) s.locks) in
        if is_empty s'.locks then emit quit_resolved s' else s')
    else s

-- The body of `pending.forEach`.
pub try_grant : ℕ → NodeLocker → NodeLock → NodeLocker
try_grant now s p = elim (find_conflict p.tid p.for_writing s.locks) [
  | none ↦ emit (resolved p.id) (record s {
    locks =
        update p.id (λ l. mark_granted now s.timeout false (record l { waiting_for = none }))
          s.locks;
  })
  | some c ↦ record s { locks = update p.id (λ l. record l { waiting_for = some c.id }) s.locks }
]

pub grant_all : ℕ → NodeLocker → List NodeLock → NodeLocker
unfolding try_grant
grant_all now s [] = s
grant_all now s (p ∷ ps) = grant_all now (try_grant now s p) ps

-- `_processLockQueue`
pub process_queue : ℕ → NodeLocker → NodeLocker
unfolding reject_pending sort_queue grant_all
process_queue now s =
    let s' = reject_pending s in
    grant_all now s' (sort_queue (keep (λ l. is_pending l.state) s'.locks))

pub record Options : Type 0 where
  pub with_priority : Bool
  pub no_timeout : Bool

-- What `lock` answers: a lock that is held, a promise that waits, or an error that is thrown.
pub data Outcome : Type 0 where
  granted_now : ℕ → Outcome
  queued : ℕ → Outcome
  failed : Error → Outcome

abbrev pub new_lock : ℕ → ℕ → String → ℕ → Bool → String → Bool → NodeLock
new_lock id now path tid for_writing comment priority = record {
  id = id;
  path = path;
  tid = tid;
  for_writing = for_writing;
  priority = priority;
  state = pending;
  requested = now;
  granted = none;
  expires = none;
  comment = comment;
  waiting_for = none;
  timer = false;
  timeout_count = 0;
}

abbrev pub has_expired : ℕ → List NodeLock → Bool
has_expired tid [] = false
has_expired tid (l ∷ ls) = (l.tid == tid && is_expired l.state) || has_expired tid ls

-- `lock(path, …)` once its guards are passed.
pub enqueue : ℕ → String → ℕ → Bool → String → Options → NodeLocker → NodeLocker × Outcome
enqueue now path tid for_writing comment options s =
    let id = suc s.last_id in
    let l = new_lock id now path tid for_writing comment options.with_priority in
    let locks = s.locks ++ l ∷ [] in
    let s' = record s { locks = locks; last_id = id } in
    elim (find_conflict tid for_writing locks) [
      | none ↦ (
        record s' { locks = update id (mark_granted now s.timeout options.no_timeout) locks },
        granted_now id,
      )
      | some c ↦ (
        record s' { locks = update id (λ l. record l { waiting_for = some c.id }) locks },
        queued id,
      )
    ]

-- `lock(path, tid, forWriting, comment, options)`
pub lock : ℕ → String → ℕ → Bool → String → Options → NodeLocker → NodeLocker × Outcome
unfolding enqueue
lock now path tid for_writing comment options s =
    if has_expired tid s.locks
    then (s, failed tid_expired)
    else if s.quit && not options.with_priority
    then (s, failed quitting)
    else enqueue now path tid for_writing comment options s

-- `unlock`: `none` is a thrown error, and the locker stays as it was.
pub unlock : ℕ → ℕ → Bool → NodeLocker → Option (NodeLocker × NodeLock)
unfolding process_queue
unlock now id process s = elim (find (λ l. l.id == id) s.locks) [
  | none ↦ none
  | some l ↦
      let s' = record s { locks = remove id s.locks } in
      some (if process then process_queue now s' else s', record l { state = done; timer = false })
]

-- Where `unlock` throws, the locker stays as it was.
abbrev pub after_unlock : NodeLocker → Option (NodeLocker × NodeLock) → NodeLocker
after_unlock s none = s
after_unlock s (some (s', _)) = s'

abbrev pub stop_timer : NodeLock → NodeLock
stop_timer l = record l { timer = false }

abbrev pub count_timeout : NodeLock → NodeLock
count_timeout l = record l { timeout_count = suc l.timeout_count }

abbrev pub expire : NodeLock → NodeLock
expire l = record l { state = expired; timer = false; timeout_count = suc l.timeout_count }

-- `timeoutHandler` of the lock object `l` that has this `id`: three warnings, then it expires.
pub timeout_handler : ℕ → ℕ → NodeLock → NodeLocker → NodeLocker
unfolding process_queue
timeout_handler now id l s =
    if not (is_locked l.state)
    then record s { locks = update id stop_timer s.locks }
    else if leb (suc l.timeout_count) 3
    then record s { locks = update id count_timeout s.locks }
    else process_queue now (record s { locks = update id expire s.locks })

-- The timer of the lock `id` fires, if it is set.
pub timer_fires : ℕ → ℕ → NodeLocker → NodeLocker
unfolding timeout_handler
timer_fires now id s = elim (find (λ l. l.id == id && l.timer) s.locks) [
  | none ↦ s
  | some l ↦ timeout_handler now id l s
]

-- The end of `moveToParent` where the move is not allowed: the lock has left, or `unlock` threw, and
-- a lock on the parent is requested with priority.
pub requeue :
    (String → String)
    → ℕ
    → NodeLock
    → NodeLocker
    → Option (NodeLocker × NodeLock)
    → NodeLocker × Outcome
unfolding lock
requeue parent_path now l s none = (s, failed not_found)
requeue parent_path now l s (some (s', _)) =
    lock now (parent_path l.path) l.tid l.for_writing l.comment
      (record { with_priority = true; no_timeout = false }) s'

-- `moveToParent` of the lock object `l`; `parent_path` is `PathInfo.get(path).parentPath`.
pub move_to_parent : (String → String) → ℕ → NodeLock → NodeLocker → NodeLocker × Outcome
unfolding is_allowed unlock requeue
move_to_parent parent_path now l s =
    if is_allowed s l.tid l.for_writing
    then (
      record s {
        locks =
            update l.id (λ k. record k { waiting_for = none; path = parent_path l.path }) s.locks;
      },
      granted_now l.id,
    )
    else requeue parent_path now l s (unlock now l.id false s)

-- `quit()`
pub quit_locker : NodeLocker → NodeLocker
quit_locker s = if is_empty s.locks then emit quit_resolved s else record s { quit = true }

-- A locker as the constructor leaves it; `lock_timeout` is in seconds.
pub new_locker : ℕ → ℕ → NodeLocker
new_locker last_id lock_timeout = record {
  locks = [];
  last_id = last_id;
  quit = false;
  timeout = lock_timeout * 1000;
  effects = [];
}

-- `setTimeout(timeout)`, in seconds
pub set_timeout : ℕ → NodeLocker → NodeLocker
set_timeout timeout s = record s { timeout = timeout * 1000 }

-- The calls that a locker gets, from its users and from its timers.
pub data Call : Type 0 where
  locks_path : String → ℕ → Bool → String → Options → Call
  unlocks : ℕ → Call
  timer_of : ℕ → Call
  moves_to_parent : ℕ → Call
  quits : Call
  sets_timeout : ℕ → Call

module _ (parent_path : String → String) where
  pub step : NodeLocker → ℕ × Call → NodeLocker
  unfolding lock unlock timer_fires move_to_parent quit_locker set_timeout
  step s (now, locks_path path tid for_writing comment options) =
      (lock now path tid for_writing comment options s).0
  step s (now, unlocks id) = after_unlock s (unlock now id true s)
  step s (now, timer_of id) = timer_fires now id s
  step s (now, moves_to_parent id) = elim (find (λ l. l.id == id) s.locks) [
    | none ↦ s
    | some l ↦ (move_to_parent parent_path now l s).0
  ]
  step s (now, quits) = quit_locker s
  step s (now, sets_timeout timeout) = set_timeout timeout s

  pub run : NodeLocker → List (ℕ × Call) → NodeLocker
  unfolding step
  run s [] = s
  run s (c ∷ cs) = run (step s c) cs
