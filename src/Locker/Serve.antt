-- ===== src/Locker/Serve.antt =====
-- src/node-lock.ts: the invariants of `NodeLocker` under `_processLockQueue`.
use acebase.Prelude.{
  ◌∙◌, In-keep_intro, ap, if_both, In-keep, ℕ, ◌≡◌, ◌≢◌, ◌⊎◌, inl, inr, false, none, some, List,
  ◌∷◌, refl, arith, In, Option-cases, sym,
}
use acebase.Locker.{
  keep, [], is_pending, sort_queue, reject_pending, reject_lock, reject_all, process_queue,
  grant_all, NodeLock, NodeLocker, quitting, pending, locked, find_conflict, update, mark_granted,
  try_grant,
}
use acebase.Locker.Queue.{In-sort_queue, In-sort_queue_intro}
use acebase.Locker.Ids.{id_unique, Ascending-remove, Ascending, Ascending-update, In-update}
use acebase.Locker.Exclusion.{
  IsExclusive-remove, IsExclusive, IsExclusive-grant, IsExclusive-update, KeepsRequest,
  mark_granted_request,
}
use acebase.Locker.Waiting.{
  AreBlocked, AreBlockedBut, IsBlocked, IsBlocked-update, IsBlocked-same, IsBlocked-of_conflict,
  KeepsHeld,
}

-- An id names one lock, and the held locks are compatible.
pub record AreSafe (last_id : ℕ) (ls : List NodeLock) : Type 0 where
  pub ascending : Ascending 0 last_id ls
  pub exclusive : IsExclusive ls

-- Moreover nobody waits without a reason.
pub record AreValid (last_id : ℕ) (ls : List NodeLock) : Type 0 where
  pub safe : AreSafe last_id ls
  pub blocked : AreBlocked ls

abbrev pub IsSafe : NodeLocker → Type 0
IsSafe s = AreSafe s.last_id s.locks

abbrev pub IsValid : NodeLocker → Type 0
IsValid s = AreValid s.last_id s.locks

-- The snapshots of `pending` ask what their locks ask.
abbrev pub Agrees : List NodeLock → List NodeLock → Type 0
Agrees ps ls =
    (p a : NodeLock)
    → In p ps
    → In a ls
    → p.id ≡ a.id
    → (p.tid ≡ a.tid) × (p.for_writing ≡ a.for_writing)

pub record IsServing (ps : List NodeLock) (last_id : ℕ) (ls : List NodeLock) : Type 0 where
  pub safe : AreSafe last_id ls
  pub agrees : Agrees ps ls
  pub blocked : AreBlockedBut ps ls

abbrev pub granted_by : ℕ → ℕ → NodeLock → NodeLock
granted_by now timeout l = mark_granted now timeout false (record l { waiting_for = none })

granted_by_request : (now timeout : ℕ) → KeepsRequest (granted_by now timeout)
granted_by_request now timeout l =
    let r = mark_granted_request now timeout false (record l { waiting_for = none }) in
    (r.0, r.1, r.2)

granted_by_locked : (now timeout : ℕ) (l : NodeLock) → (granted_by now timeout l).state ≡ locked
granted_by_locked now timeout l =
    (mark_granted_request now timeout false (record l { waiting_for = none })).3

Agrees-update :
    (id : ℕ) (f : NodeLock → NodeLock) (p : NodeLock) (ps ls : List NodeLock)
    → KeepsRequest f
    → Agrees (p ∷ ps) ls
    → Agrees ps (update id f ls)
Agrees-update id f p ps ls k v q x qm m e =
    let (a, am, c) = In-update x id f ls m in ground (arith, k a, v q a (inr qm) am)

-- The lock whose turn it is gets an answer; the others stay as they were.
AreBlockedBut-update :
    (f : NodeLock → NodeLock) (p : NodeLock) (ps ls : List NodeLock)
    → KeepsRequest f
    → KeepsHeld f
    → ((a : NodeLock) → In a ls → a.id ≡ p.id → (f a).state ≡ pending → IsBlocked a ls)
    → AreBlockedBut (p ∷ ps) ls
    → AreBlockedBut ps (update p.id f ls)
AreBlockedBut-update f p ps ls k h turn v x m e =
    let (a, am, c) = In-update x p.id f ls m in answered a am c
  where
    blocked :
        (a : NodeLock)
        → x.tid ≡ a.tid
        → x.for_writing ≡ a.for_writing
        → IsBlocked a ls
        → IsBlocked x (update p.id f ls)
    blocked a t w b = IsBlocked-same a x (update p.id f ls) t w (IsBlocked-update p.id f a ls k h b)

    others :
        (a : NodeLock)
        → a.id ≢ p.id
        → x ≡ a
        → IsBlocked a ls ⊎ ((q : NodeLock) × In q (p ∷ ps) × (q.id ≡ a.id))
        → IsBlocked x (update p.id f ls) ⊎ ((q : NodeLock) × In q ps × (q.id ≡ x.id))
    others a n r (inl b) = inl (blocked a (ground arith) (ground arith) b)
    others a n r (inr (q, inl qp, i)) = absurd (n (ground arith))
    others a n r (inr (q, inr qm, i)) = inr (q, qm, ground arith)

    answered :
        (a : NodeLock)
        → In a ls
        → ((a.id ≡ p.id) × (x ≡ f a)) ⊎ ((a.id ≢ p.id) × (x ≡ a))
        → IsBlocked x (update p.id f ls) ⊎ ((q : NodeLock) × In q ps × (q.id ≡ x.id))
    answered a am (inl (i, r)) =
        inl (blocked a (ground (arith, k a)) (ground (arith, k a)) (turn a am i (ground arith)))
    answered a am (inr (n, r)) = others a n r (v a am (ground arith))

module _ (p : NodeLock) (ps : List NodeLock) (last_id : ℕ) (ls : List NodeLock)
    (v : IsServing (p ∷ ps) last_id ls) (f : NodeLock → NodeLock) (request : KeepsRequest f) where
  turn_agrees :
      (a : NodeLock) → In a ls → a.id ≡ p.id → (p.tid ≡ a.tid) × (p.for_writing ≡ a.for_writing)
  turn_agrees a m i = v.agrees p a (inl refl) m (sym i)

  turn-Ascending : Ascending 0 last_id (update p.id f ls)
  turn-Ascending = Ascending-update p.id f 0 last_id ls (λ l. (request l).0) v.safe.ascending

  -- The turn of `p` comes and no held lock is in its way.
  pub IsServing-granted :
      ((l : NodeLock) → (f l).state ≡ locked)
      → find_conflict p.tid p.for_writing ls ≡ none
      → IsServing ps last_id (update p.id f ls)
  IsServing-granted held e = record {
    safe = record {
      ascending = turn-Ascending;
      exclusive =
          IsExclusive-grant p.id f ls request
            (λ a b am bm ai bi. ground (arith, turn_agrees a am ai, turn_agrees b bm bi))
            (λ a am ai. let g = turn_agrees a am ai in rw (← g.0, ← g.1) e) v.safe.exclusive;
    };
    agrees = Agrees-update p.id f p ps ls request v.agrees;
    blocked =
        AreBlockedBut-update f p ps ls request (λ l _. held l) (λ a _ _ h. cc (held a, h))
          v.blocked;
  }

  -- The turn of `p` comes and `c` is in its way.
  pub IsServing-denied :
      (c : NodeLock)
      → ((l : NodeLock) → (f l).state ≡ l.state)
      → find_conflict p.tid p.for_writing ls ≡ some c
      → IsServing ps last_id (update p.id f ls)
  IsServing-denied c same e = record {
    safe = record {
      ascending = turn-Ascending;
      exclusive = IsExclusive-update p.id f ls request (λ l h. sym (same l) ∙ h) v.safe.exclusive;
    };
    agrees = Agrees-update p.id f p ps ls request v.agrees;
    blocked =
        AreBlockedBut-update f p ps ls request (λ l h. same l ∙ h)
          (λ a am i _.
            let g = turn_agrees a am i in
            IsBlocked-same p a ls (sym g.0) (sym g.1) (IsBlocked-of_conflict p c ls e))
          v.blocked;
  }

try_grant-IsServing :
    (now : ℕ) (s : NodeLocker) (p : NodeLock) (ps : List NodeLock)
    → IsServing (p ∷ ps) s.last_id s.locks
    → IsServing ps (try_grant now s p).last_id (try_grant now s p).locks
unfolding try_grant
try_grant-IsServing now s p ps v = elim (Option-cases (find_conflict p.tid p.for_writing s.locks)) [
  | inl e ↦
      rw (e, try_grant)
        (IsServing-granted p ps s.last_id s.locks v (granted_by now s.timeout)
          (granted_by_request now s.timeout) (granted_by_locked now s.timeout) e)
  | inr (c, e) ↦
      rw (e, try_grant)
        (IsServing-denied p ps s.last_id s.locks v _ (λ l. (refl, refl, refl)) c (λ l. refl) e)
]

pub AreValid-of_served :
    (last_id : ℕ) (ls : List NodeLock) → IsServing [] last_id ls → AreValid last_id ls
AreValid-of_served last_id ls w = record {
  safe = w.safe;
  blocked = λ a m e. elim (w.blocked a m e) [ inl b ↦ b | inr q ↦ elim q.1 [ ] ];
}

grant_all-IsServing :
    (now : ℕ) (s : NodeLocker) (ps : List NodeLock)
    → IsServing ps s.last_id s.locks
    → IsServing [] (grant_all now s ps).last_id (grant_all now s ps).locks
unfolding grant_all
grant_all-IsServing now s [] v = v
grant_all-IsServing now s (p ∷ ps) v =
    grant_all-IsServing now (try_grant now s p) ps (try_grant-IsServing now s p ps v)

reject_lock-IsSafe : (s : NodeLocker) (id : ℕ) → IsSafe s → IsSafe (reject_lock quitting s id)
unfolding reject_lock
reject_lock-IsSafe s id v = record {
  ascending = Ascending-remove id 0 s.last_id s.locks v.ascending;
  exclusive = IsExclusive-remove id s.locks v.exclusive;
}

reject_all-IsSafe : (s : NodeLocker) (ls : List NodeLock) → IsSafe s → IsSafe (reject_all s ls)
unfolding reject_all
reject_all-IsSafe s [] v = v
reject_all-IsSafe s (l ∷ ls) v =
    reject_all-IsSafe (reject_lock quitting s l.id) ls (reject_lock-IsSafe s l.id v)

pub reject_pending-IsSafe : (s : NodeLocker) → IsSafe s → IsSafe (reject_pending s)
unfolding reject_pending
reject_pending-IsSafe s v =
    let r = reject_all-IsSafe s (keep (λ l. is_pending l.state) s.locks) v in
    if_both IsSafe s.quit _ s (if_both IsSafe _ _ _ r r) v

-- `_processLockQueue` keeps held locks compatible, and when it is done every lock that still waits
-- is blocked by a held lock: no lock that could be granted is left behind.
pub process_queue-IsValid : (now : ℕ) (s : NodeLocker) → IsSafe s → IsValid (process_queue now s)
unfolding process_queue
process_queue-IsValid now s v = AreValid-of_served _ _ (grant_all-IsServing now s' queue start)
  where
    s' : NodeLocker
    s' = reject_pending s

    v' : IsSafe s'
    v' = reject_pending-IsSafe s v

    queue : List NodeLock
    queue = sort_queue (keep (λ l. is_pending l.state) s'.locks)

    start : IsServing queue s'.last_id s'.locks
    start = record {
      safe = v';
      agrees = λ p a pm am e.
          let (m, _) = In-keep (λ l. is_pending l.state) p s'.locks (In-sort_queue p _ pm) in
          let same = id_unique p a 0 s'.last_id s'.locks v'.ascending m am e in
          (ap (λ (l : NodeLock). l.tid) same, ap (λ (l : NodeLock). l.for_writing) same);
      blocked = λ a m e. inr (
        a,
        In-sort_queue_intro a _
            (In-keep_intro (λ l. is_pending l.state) a s'.locks m (ground arith)),
        refl,
      );
    }
