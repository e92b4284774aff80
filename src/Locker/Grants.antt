-- ===== src/Locker/Grants.antt =====
-- src/node-lock.ts: when a request is granted, and with what deadline.
use acebase.Prelude.{
  subst, ℕ, suc, ◌+◌, String, ◌≡◌, ◌≢◌, ◌⊎◌, ◌↔◌, inl, inr, Bool, true, false, not, ◌&&◌, none,
  some, List, [], ◌∷◌, ◌++◌, refl, ap, subst, arith, In, In-append, In-append_left, find-none,
  find-some, Option-cases, Bool-cases,
}
use acebase.Locker.{
  tid_expired, quitting, expired, NodeLock, NodeLocker, Options, Outcome, granted_now, failed,
  locked, has_expired, conflicts, find_conflict, new_lock, enqueue, lock, try_grant, update,
}
use acebase.Locker.Ids.{In-update_hit}
use acebase.Locker.Serve.{granted_by}

-- The request goes well with a held lock.
abbrev pub GoesWith : ℕ → Bool → NodeLock → Type 0
GoesWith tid for_writing b = (b.tid ≡ tid) ⊎ ((for_writing ≡ false) × (b.for_writing ≡ false))

GoesWith-of_conflicts :
    (tid : ℕ) (w : Bool) (b : NodeLock)
    → conflicts tid w b ≡ false
    → b.state ≡ locked
    → GoesWith tid w b
GoesWith-of_conflicts tid w b h k = ground arith

conflicts-held :
    (tid : ℕ) (w : Bool) (b : NodeLock)
    → conflicts tid w b ≡ true
    → (b.state ≡ locked) × (¬ GoesWith tid w b)
conflicts-held tid w b h = (ground arith, λ g. ground arith)

none_expired :
    (tid : ℕ) (ls : List NodeLock)
    → has_expired tid ls ≡ false
    → (b : NodeLock) → In b ls
    → b.tid ≡ tid
    → b.state ≢ expired
none_expired tid [] h b m t x = elim m [ ]
none_expired tid (l ∷ ls) h b (inl e) t x = ground arith
none_expired tid (l ∷ ls) h b (inr m) t x = none_expired tid ls (ground arith) b m t x

none_expired_intro :
    (tid : ℕ) (ls : List NodeLock)
    → ((b : NodeLock) → In b ls → b.tid ≡ tid → b.state ≢ expired)
    → has_expired tid ls ≡ false
none_expired_intro tid [] f = refl
none_expired_intro tid (l ∷ ls) f =
    ground (arith, f l (inl refl), none_expired_intro tid ls (λ b m. f b (inr m)))

module _ (now : ℕ) (path : String) (tid : ℕ) (for_writing : Bool) (comment : String) (o : Options)
    (s : NodeLocker) where
  new : NodeLock
  new = new_lock (suc s.last_id) now path tid for_writing comment o.with_priority

  new_no_conflict : conflicts tid for_writing new ≡ false
  unfolding new
  new_no_conflict = ground arith

  blocking_lock :
      (c : NodeLock)
      → In c s.locks ⊎ In c (new ∷ [])
      → conflicts tid for_writing c ≡ true
      → ¬ ((b : NodeLock) → In b s.locks → b.state ≡ locked → GoesWith tid for_writing b)
  blocking_lock c (inl m) h f = let (held, n) = conflicts-held tid for_writing c h in n (f c m held)
  blocking_lock c (inr (inl e)) h f = cc (ap (conflicts tid for_writing) e, h, new_no_conflict)
  blocking_lock c (inr (inr m)) h f = elim m [ ]

  enqueue_granted_iff :
      ((enqueue now path tid for_writing comment o s).1 ≡ granted_now (suc s.last_id))
      ↔ ((b : NodeLock) → In b s.locks → b.state ≡ locked → GoesWith tid for_writing b)
  unfolding enqueue new
  enqueue_granted_iff = elim (Option-cases (find_conflict tid for_writing (s.locks ++ new ∷ []))) [
    | inl e ↦ (
      λ _ b m h.
          GoesWith-of_conflicts tid for_writing b
            (find-none (conflicts tid for_writing) b (s.locks ++ new ∷ []) e
              (In-append_left b s.locks (new ∷ []) m))
            h,
      λ _. rw (e, enqueue) refl,
    )
    | inr (c, e) ↦
        let (m, h) = find-some (conflicts tid for_writing) c (s.locks ++ new ∷ []) e in
        (
          λ g. ground (arith, e, g),
          λ f. absurd (blocking_lock c (In-append c s.locks (new ∷ []) m) h f),
        )
  ]

  lock_expired :
      has_expired tid s.locks ≡ true
      → lock now path tid for_writing comment o s ≡ (s, failed tid_expired)
  unfolding lock
  lock_expired e = ground arith

  lock_quitting :
      has_expired tid s.locks ≡ false
      → s.quit && not o.with_priority ≡ true
      → lock now path tid for_writing comment o s ≡ (s, failed quitting)
  unfolding lock
  lock_quitting e q = ground arith

  lock_enqueues :
      has_expired tid s.locks ≡ false
      → s.quit && not o.with_priority ≡ false
      → lock now path tid for_writing comment o s ≡ enqueue now path tid for_writing comment o s
  unfolding lock
  lock_enqueues e q = ground arith

  -- `lock` grants a request at once exactly if no lock of the transaction has expired, the locker
  -- is not quitting (or the request has priority), and every lock that is held belongs to the same
  -- transaction or reads, as the request does. The new lock is the one with the next id.
  pub lock_granted_iff :
      ((lock now path tid for_writing comment o s).1 ≡ granted_now (suc s.last_id)) ↔ (
        ((b : NodeLock) → In b s.locks → b.tid ≡ tid → b.state ≢ expired)
        × ((s.quit ≡ false) ⊎ (o.with_priority ≡ true))
        × ((b : NodeLock) → In b s.locks → b.state ≡ locked → GoesWith tid for_writing b))
  lock_granted_iff = elim (Bool-cases (has_expired tid s.locks)) [
    | inl e ↦
        (λ g. cc (ap outcome (lock_expired e), g), λ r. cc (none_expired_intro tid s.locks r.0, e))
    | inr e ↦ elim (Bool-cases (s.quit && not o.with_priority)) [
      | inl q ↦ (λ g. cc (ap outcome (lock_quitting e q), g), λ r. absurd (not_quitting q r.1))
      | inr q ↦ rw (lock_enqueues e q) (
        λ g. (none_expired tid s.locks e, going q, enqueue_granted_iff.0 g),
        λ r. enqueue_granted_iff.1 r.2,
      )
    ]
  ]
    where
      outcome : NodeLocker × Outcome → Outcome
      outcome r = r.1

      not_quitting :
          s.quit && not o.with_priority ≡ true → ¬ ((s.quit ≡ false) ⊎ (o.with_priority ≡ true))
      not_quitting q r = ground arith

      going : s.quit && not o.with_priority ≡ false → (s.quit ≡ false) ⊎ (o.with_priority ≡ true)
      going q = ground arith

granted_by_fresh :
    (now timeout : ℕ) (l : NodeLock)
    → l.granted ≡ none
    → granted_by now timeout l ≡ record l {
      state = locked;
      granted = some now;
      expires = some (now + timeout);
      timer = true;
      waiting_for = none;
    }
granted_by_fresh now timeout l g = ground arith

GoesWith-all :
    (tid : ℕ) (w : Bool) (ls : List NodeLock)
    → ((b : NodeLock) → In b ls → b.state ≡ locked → GoesWith tid w b)
    → find_conflict tid w ls ≡ none
GoesWith-all tid w ls f = elim (Option-cases (find_conflict tid w ls)) [
  | inl e ↦ e
  | inr (c, e) ↦
      let (m, h) = find-some (conflicts tid w) c ls e in
      let (held, n) = conflicts-held tid w c h in absurd (n (f c m held))
]

-- A lock that is granted from the queue gets the deadline `now + timeout` and a timer: the options of
-- the request that waited are forgotten, `noTimeout` among them.
pub queue_grant_deadline :
    (now : ℕ) (s : NodeLocker) (p : NodeLock)
    → In p s.locks
    → p.granted ≡ none
    → ((b : NodeLock) → In b s.locks → b.state ≡ locked → GoesWith p.tid p.for_writing b)
    → In
        (record p {
          state = locked;
          granted = some now;
          expires = some (now + s.timeout);
          timer = true;
          waiting_for = none;
        })
        (try_grant now s p).locks
unfolding try_grant
queue_grant_deadline now s p m g f =
    rw (GoesWith-all p.tid p.for_writing s.locks f, try_grant)
      (subst (λ l. In l (update p.id (granted_by now s.timeout) s.locks))
        (granted_by_fresh now s.timeout p g)
        (In-update_hit p p.id (granted_by now s.timeout) s.locks m refl))
