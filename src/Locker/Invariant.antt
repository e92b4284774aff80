-- ===== src/Locker/Invariant.antt =====
-- src/node-lock.ts: the invariants of `NodeLocker` under each operation and in a run.
use acebase.Prelude.{
  Bool-cases, In-append_right, ℕ, suc, String, ◌&&◌, ◌==◌, ◌≡◌, ◌≢◌, ◌⊎◌, inl, inr, Bool, true,
  false, Option, none, some, List, [], ◌∷◌, ◌++◌, refl, sym, ap, ◌∙◌, arith, In, In-append,
  Option-cases, if_both, find, find-some,
}
use acebase.Locker.{
  leb, is_locked, expire, count_timeout, stop_timer, timeout_handler, requeue, expired, not,
  granted_now, after_unlock, has_expired, Outcome, NodeLock, NodeLocker, Options, Call, locks_path,
  unlocks, timer_of, moves_to_parent, quits, sets_timeout, locked, pending, find_conflict, update,
  remove, mark_granted, new_lock, enqueue, lock, unlock, timer_fires, move_to_parent, quit_locker,
  set_timeout, new_locker, step, run, is_allowed, process_queue,
}
use acebase.Locker.Ids.{Ascending, Ascending-update, Ascending-remove, Ascending-append, id_unique}
use acebase.Locker.Exclusion.{
  IsExclusive, IsExclusive-update, IsExclusive-remove, IsExclusive-append, KeepsRequest,
  mark_granted_request, allowed_of_held,
}
use acebase.Locker.Waiting.{
  IsBlocked, AreBlocked, AreBlocked-update, AreBlocked-remove, IsBlocked-append,
}
use acebase.Locker.Serve.{
  AreSafe, AreValid, IsValid, IsServing, IsServing-granted, IsServing-denied, AreValid-of_served,
  process_queue-IsValid,
}

AreSafe-update :
    (id last_id : ℕ) (f : NodeLock → NodeLock) (ls : List NodeLock)
    → KeepsRequest f
    → ((l : NodeLock) → (f l).state ≡ locked → l.state ≡ locked)
    → AreSafe last_id ls
    → AreSafe last_id (update id f ls)
AreSafe-update id last_id f ls k h v = record {
  ascending = Ascending-update id f 0 last_id ls (λ l. (k l).0) v.ascending;
  exclusive = IsExclusive-update id f ls k h v.exclusive;
}

AreSafe-remove :
    (id last_id : ℕ) (ls : List NodeLock) → AreSafe last_id ls → AreSafe last_id (remove id ls)
AreSafe-remove id last_id ls v = record {
  ascending = Ascending-remove id 0 last_id ls v.ascending;
  exclusive = IsExclusive-remove id ls v.exclusive;
}

-- A change of one lock that leaves its request and its state.
AreValid-update :
    (id last_id : ℕ) (f : NodeLock → NodeLock) (ls : List NodeLock)
    → KeepsRequest f
    → ((l : NodeLock) → (f l).state ≡ l.state)
    → AreValid last_id ls
    → AreValid last_id (update id f ls)
AreValid-update id last_id f ls k same v = record {
  safe = AreSafe-update id last_id f ls k (λ l h. sym (same l) ∙ h) v.safe;
  blocked = AreBlocked-update id f ls k (λ l h. same l ∙ h) (λ l h. sym (same l) ∙ h) v.blocked;
}

-- A new lock in the list, before it is answered.
IsServing-append :
    (l : NodeLock) (last_id : ℕ) (ls : List NodeLock)
    → l.id ≡ suc last_id
    → l.state ≡ pending
    → AreValid last_id ls
    → IsServing (l ∷ []) (suc last_id) (ls ++ l ∷ [])
IsServing-append l last_id ls e w v = record {
  safe = record {
    ascending = ascending;
    exclusive = IsExclusive-append l ls (λ h. cc) v.safe.exclusive;
  };
  agrees = λ p a pm am i. agrees p a pm am i;
  blocked = λ a am h. blocked a h (In-append a ls (l ∷ []) am);
}
  where
    ascending : Ascending 0 (suc last_id) (ls ++ l ∷ [])
    ascending = Ascending-append l 0 last_id ls e v.safe.ascending

    agrees :
        (p a : NodeLock)
        → In p (l ∷ [])
        → In a (ls ++ l ∷ [])
        → p.id ≡ a.id
        → (p.tid ≡ a.tid) × (p.for_writing ≡ a.for_writing)
    agrees p a (inl h) am i =
        let l_in : In p (ls ++ l ∷ []) = In-append_right p ls (l ∷ []) (inl h) in
        let same = id_unique p a 0 (suc last_id) (ls ++ l ∷ []) ascending l_in am i in
        (ap (λ (k : NodeLock). k.tid) same, ap (λ (k : NodeLock). k.for_writing) same)
    agrees p a (inr m) am i = elim m [ ]

    blocked :
        (a : NodeLock)
        → a.state ≡ pending
        → In a ls ⊎ In a (l ∷ [])
        → IsBlocked a (ls ++ l ∷ []) ⊎ ((p : NodeLock) × In p (l ∷ []) × (p.id ≡ a.id))
    blocked a h (inl m) = inl (IsBlocked-append a ls (l ∷ []) (v.blocked a m h))
    blocked a h (inr (inl i)) = inr (l, inl refl, ap (λ (k : NodeLock). k.id) (sym i))
    blocked a h (inr (inr m)) = elim m [ ]

enqueue-IsValid :
    (now : ℕ) (path : String) (tid : ℕ) (for_writing : Bool) (comment : String) (o : Options)
    (s : NodeLocker)
    → IsValid s
    → IsValid (enqueue now path tid for_writing comment o s).0
unfolding enqueue
enqueue-IsValid now path tid for_writing comment o s v =
    elim (Option-cases (find_conflict tid for_writing (s.locks ++ l ∷ []))) [
      | inl e ↦
          rw (e, enqueue)
            (AreValid-of_served _ _ (
              IsServing-granted l [] _ _ start (mark_granted now s.timeout o.no_timeout)
                (λ k. let r = mark_granted_request now s.timeout o.no_timeout k in (r.0, r.1, r.2))
                (λ k. (mark_granted_request now s.timeout o.no_timeout k).3) e))
      | inr (c, e) ↦
          rw (e, enqueue)
            (AreValid-of_served _ _
              (IsServing-denied l [] _ _ start _ (λ k. (refl, refl, refl)) c (λ k. refl) e))
    ]
  where
    l : NodeLock
    l = new_lock (suc s.last_id) now path tid for_writing comment o.with_priority

    start : IsServing (l ∷ []) (suc s.last_id) (s.locks ++ l ∷ [])
    start = IsServing-append l s.last_id s.locks refl refl v

lock-IsValid :
    (now : ℕ) (path : String) (tid : ℕ) (for_writing : Bool) (comment : String) (o : Options)
    (s : NodeLocker)
    → IsValid s
    → IsValid (lock now path tid for_writing comment o s).0
unfolding lock
lock-IsValid now path tid for_writing comment o s v =
    if_both Valid (has_expired tid s.locks) _ _ v (
      if_both Valid (s.quit && not o.with_priority) _ _ v
        (enqueue-IsValid now path tid for_writing comment o s v))
  where
    Valid : NodeLocker × Outcome → Type 0
    Valid r = IsValid r.0

expired-ne-locked : expired ≢ locked
expired-ne-locked h = cc

timeout_handler-IsValid :
    (now id : ℕ) (l : NodeLock) (s : NodeLocker) → IsValid s → IsValid (timeout_handler now id l s)
unfolding timeout_handler
timeout_handler-IsValid now id l s v =
    if_both IsValid (not (is_locked l.state)) stopped _
      (AreValid-update id s.last_id stop_timer s.locks (λ k. (refl, refl, refl)) (λ k. refl) v)
      (if_both IsValid (leb (suc l.timeout_count) 3) counted (process_queue now gone)
        (AreValid-update id s.last_id count_timeout s.locks (λ k. (refl, refl, refl)) (λ k. refl) v)
        (process_queue-IsValid now gone (
          AreSafe-update id s.last_id expire s.locks (λ k. (refl, refl, refl))
            (λ k h. absurd (expired-ne-locked h)) v.safe)))
  where
    stopped : NodeLocker
    stopped = record s { locks = update id stop_timer s.locks }

    counted : NodeLocker
    counted = record s { locks = update id count_timeout s.locks }

    gone : NodeLocker
    gone = record s { locks = update id expire s.locks }

timer_fires-IsValid : (now id : ℕ) (s : NodeLocker) → IsValid s → IsValid (timer_fires now id s)
unfolding timer_fires
timer_fires-IsValid now id s v = elim (Option-cases (find (λ l. l.id == id && l.timer) s.locks)) [
  | inl e ↦ rw (e, timer_fires) v
  | inr (l, e) ↦ rw (e, timer_fires) (timeout_handler-IsValid now id l s v)
]

unlock-IsValid :
    (now id : ℕ) (s : NodeLocker) → IsValid s → IsValid (after_unlock s (unlock now id true s))
unfolding unlock
unlock-IsValid now id s v = elim (Option-cases (find (λ l. l.id == id) s.locks)) [
  | inl e ↦ rw (e, unlock) v
  | inr (l, e) ↦
      rw (e, unlock) (process_queue-IsValid now _ (AreSafe-remove id s.last_id s.locks v.safe))
]

-- A lock that is not held leaves, and nobody becomes free to go.
unlock_quiet-IsValid :
    (now : ℕ) (l : NodeLock) (s : NodeLocker)
    → IsValid s
    → In l s.locks
    → l.state ≢ locked
    → IsValid (after_unlock s (unlock now l.id false s))
unfolding unlock
unlock_quiet-IsValid now l s v m n = elim (Option-cases (find (λ k. k.id == l.id) s.locks)) [
  | inl e ↦ rw (e, unlock) v
  | inr (k, e) ↦
      rw (e, unlock)
        (record {
          safe = AreSafe-remove l.id s.last_id s.locks v.safe;
          blocked = AreBlocked-remove l.id s.locks not_held v.blocked;
        })
]
  where
    not_held : (b : NodeLock) → In b s.locks → b.id ≡ l.id → b.state ≢ locked
    not_held b bm i h =
        let same = id_unique b l 0 s.last_id s.locks v.safe.ascending bm m i in n (rw same at h)

-- A held lock in a valid locker is always allowed to move.
pub is_allowed_of_held :
    (l : NodeLock) (s : NodeLocker)
    → IsValid s
    → In l s.locks
    → l.state ≡ locked
    → is_allowed s l.tid l.for_writing ≡ true
unfolding is_allowed
is_allowed_of_held l s v m h = rw (allowed_of_held l s.locks v.safe.exclusive m h, is_allowed) refl

requeue-IsValid :
    (parent_path : String → String) (now : ℕ) (l : NodeLock) (s : NodeLocker)
    (o : Option (NodeLocker × NodeLock))
    → IsValid (after_unlock s o)
    → IsValid (requeue parent_path now l s o).0
unfolding requeue
requeue-IsValid parent_path now l s none v = v
requeue-IsValid parent_path now l s (some (s', _)) v =
    lock-IsValid now (parent_path l.path) l.tid l.for_writing l.comment
      (record { with_priority = true; no_timeout = false }) s' v

move_to_parent-IsValid :
    (parent_path : String → String) (now : ℕ) (l : NodeLock) (s : NodeLocker)
    → IsValid s
    → In l s.locks
    → IsValid (move_to_parent parent_path now l s).0
unfolding move_to_parent requeue
move_to_parent-IsValid parent_path now l s v m =
    elim (Bool-cases (is_allowed s l.tid l.for_writing)) [
      | inl e ↦
          rw (e, move_to_parent)
            (AreValid-update l.id s.last_id _ s.locks (λ k. (refl, refl, refl)) (λ k. refl) v)
      | inr e ↦
          rw (e, move_to_parent)
            (requeue-IsValid parent_path now l s (unlock now l.id false s)
              (unlock_quiet-IsValid now l s v m (λ h. cc (is_allowed_of_held l s v m h, e))))
    ]

module _ (parent_path : String → String) where
  step-IsValid : (s : NodeLocker) (c : ℕ × Call) → IsValid s → IsValid (step parent_path s c)
  unfolding step quit_locker set_timeout
  step-IsValid s (now, locks_path path tid for_writing comment options) v =
      lock-IsValid now path tid for_writing comment options s v
  step-IsValid s (now, unlocks id) v = unlock-IsValid now id s v
  step-IsValid s (now, timer_of id) v = timer_fires-IsValid now id s v
  step-IsValid s (now, moves_to_parent id) v =
      elim (Option-cases (find (λ l. l.id == id) s.locks)) [
        | inl e ↦ rw (e, step) v
        | inr (l, e) ↦
            rw (e, step)
              (move_to_parent-IsValid parent_path now l s v
                (find-some (λ (l : NodeLock). l.id == id) l s.locks e).0)
      ]
  step-IsValid s (now, quits) v = if_both IsValid _ _ _ v v
  step-IsValid s (now, sets_timeout timeout) v = v

  run-IsValid : (s : NodeLocker) (cs : List (ℕ × Call)) → IsValid s → IsValid (run parent_path s cs)
  unfolding run
  run-IsValid s [] v = v
  run-IsValid s (c ∷ cs) v = run-IsValid (step parent_path s c) cs (step-IsValid s c v)

new_locker-IsValid : (last_id lock_timeout : ℕ) → IsValid (new_locker last_id lock_timeout)
unfolding new_locker
new_locker-IsValid last_id lock_timeout = record {
  safe = record { ascending = omega arith; exclusive = λ a b m n p q. elim m [ ] };
  blocked = λ a m h. elim m [ ];
}

-- Whatever calls and timers a new locker sees, in any order: two locks that are held at the same
-- time belong to one transaction, or are both for reading.
pub run-Exclusive :
    (parent_path : String → String) (last_id lock_timeout : ℕ) (cs : List (ℕ × Call))
    → IsExclusive (run parent_path (new_locker last_id lock_timeout) cs).locks
run-Exclusive parent_path last_id lock_timeout cs =
    (run-IsValid parent_path _ cs (new_locker-IsValid last_id lock_timeout)).safe.exclusive

-- Whatever calls and timers a new locker sees, in any order: a lock that waits is blocked by a held
-- lock of another transaction, and one of the two is for writing. No wake-up is lost.
pub run-Blocked :
    (parent_path : String → String) (last_id lock_timeout : ℕ) (cs : List (ℕ × Call))
    → AreBlocked (run parent_path (new_locker last_id lock_timeout) cs).locks
run-Blocked parent_path last_id lock_timeout cs =
    (run-IsValid parent_path _ cs (new_locker-IsValid last_id lock_timeout)).blocked

-- A held lock of a valid locker moves to its parent at once: it never has to give up its place and
-- queue again, and only its path and `waiting_for` change.
pub move_to_parent_held :
    (parent_path : String → String) (now : ℕ) (l : NodeLock) (s : NodeLocker)
    → IsValid s
    → In l s.locks
    → l.state ≡ locked
    → move_to_parent parent_path now l s ≡ (
      record s {
        locks =
            update l.id (λ k. record k { waiting_for = none; path = parent_path l.path }) s.locks;
      },
      granted_now l.id,
    )
unfolding move_to_parent
move_to_parent_held parent_path now l s v m h =
    rw (is_allowed_of_held l s v m h, move_to_parent) refl
