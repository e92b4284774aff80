-- ===== src/Locker/Quit.antt =====
-- src/node-lock.ts: what `_processLockQueue` does once `quit` was called.
use acebase.Prelude.{
  ◌↔◌, subst, ℕ, ◌≡◌, ◌≢◌, inl, inr, Bool, true, false, List, [], ◌∷◌, ◌++◌, map, refl, sym, ◌∙◌,
  arith, In, keep, In-keep, In-keep_intro, Bool-cases, if◌then◌else◌, ◌==◌,
}
use mathlib.Core.List.{append_assoc, append-nil}
use acebase.Locker.{
  NodeLock, NodeLocker, Effect, rejected, quit_resolved, quitting, pending, is_pending, is_empty,
  remove, reject_lock, reject_all, reject_pending, sort_queue, grant_all, process_queue,
}
use acebase.Locker.Ids.{id_unique, Ascending, Ascending-remove, lt-In, In-remove, In-remove_ne}

In-remove_gone :
    (a : NodeLock) (id lo hi : ℕ) (ls : List NodeLock)
    → Ascending lo hi ls
    → In a (remove id ls)
    → a.id ≢ id
In-remove_gone a id lo hi [] v m = elim m [ ]
In-remove_gone a id lo hi (l ∷ ls) v m = elim (Bool-cases (l.id == id)) [
  | inl e ↦ after (rw e at m) e
  | inr e ↦ before (rw e at m) e (In-remove_gone a id l.id hi ls v.1)
]
  where
    after : In a ls → (l.id == id) ≡ true → a.id ≢ id
    after m e = ground (arith, lt-In a l.id hi ls v.1 m)

    before :
        In a (l ∷ remove id ls)
        → (l.id == id) ≡ false
        → (In a (remove id ls) → a.id ≢ id)
        → a.id ≢ id
    before (inl h) e f = ground arith
    before (inr m) e f = f m

-- After the rejections: who is left, and who was told.
reject_all-In :
    (a : NodeLock) (hi : ℕ) (s : NodeLocker) (ps : List NodeLock)
    → Ascending 0 hi s.locks
    → In a (reject_all s ps).locks
    → In a s.locks × ((p : NodeLock) → In p ps → a.id ≢ p.id)
unfolding reject_all
reject_all-In a hi s [] v m = (m, λ p n. elim n [ ])
reject_all-In a hi s (p ∷ ps) v m =
    let (l, f) =
      reject_all-In a hi (reject_lock quitting s p.id) ps (Ascending-remove p.id 0 hi s.locks v)
        m in
    (In-remove a p.id s.locks l, others l f)
  where
    others :
        In a (remove p.id s.locks)
        → ((q : NodeLock) → In q ps → a.id ≢ q.id)
        → (q : NodeLock) → In q (p ∷ ps)
        → a.id ≢ q.id
    others l f q (inl e) = rw e (In-remove_gone a p.id 0 hi s.locks v l)
    others l f q (inr n) = f q n

reject_all-In_intro :
    (a : NodeLock) (s : NodeLocker) (ps : List NodeLock)
    → ((p : NodeLock) → In p ps → a.id ≢ p.id)
    → In a s.locks
    → In a (reject_all s ps).locks
unfolding reject_all reject_lock
reject_all-In_intro a s [] f m = m
reject_all-In_intro a s (p ∷ ps) f m =
    reject_all-In_intro a (reject_lock quitting s p.id) ps (λ q n. f q (inr n))
      (In-remove_ne a p.id s.locks m (f p (inl refl)))

abbrev pub rejections : List NodeLock → List Effect
rejections = map λ p. rejected p.id quitting

reject_all-effects :
    (s : NodeLocker) (ps : List NodeLock) → (reject_all s ps).effects ≡ s.effects ++ rejections ps
unfolding reject_all reject_lock
reject_all-effects s [] = sym (append-nil s.effects)
reject_all-effects s (p ∷ ps) =
    reject_all-effects (reject_lock quitting s p.id) ps
    ∙ append_assoc s.effects (rejected p.id quitting ∷ []) (rejections ps)

keep-eq-nil {ℓ} :
    {A : Type ℓ} (p : A → Bool) (xs : List A) → ((a : A) → In a xs → p a ≡ false) → keep p xs ≡ []
keep-eq-nil p [] h = refl
keep-eq-nil p (x ∷ xs) h = rw (h x (inl refl)) (keep-eq-nil p xs (λ a m. h a (inr m)))

abbrev waiters : NodeLocker → List NodeLock
waiters s = keep (λ l. is_pending l.state) s.locks

abbrev pub quit_notice : List NodeLock → List Effect
quit_notice ls = if is_empty ls then quit_resolved ∷ [] else []

-- What a locker that quits keeps, and what it reports.
abbrev pub HasQuit : NodeLocker → NodeLocker → Type 0
HasQuit s t =
    ((a : NodeLock) → In a t.locks ↔ (In a s.locks × (a.state ≢ pending)))
    × (t.effects
        ≡ (s.effects ++ rejections (keep (λ l. is_pending l.state) s.locks)) ++ quit_notice t.locks)

pending-test : (a : NodeLock) → a.state ≢ pending → is_pending a.state ≡ false
pending-test a n = ground arith

grant_nobody :
    (now : ℕ) (t : NodeLocker) → waiters t ≡ [] → grant_all now t (sort_queue (waiters t)) ≡ t
unfolding grant_all sort_queue
grant_nobody now t e = rw e refl

module _ (s : NodeLocker) (v : Ascending 0 s.last_id s.locks) (q : s.quit ≡ true) where
  reject_pending-locks : (reject_pending s).locks ≡ (reject_all s (waiters s)).locks
  unfolding reject_pending
  reject_pending-locks = ground arith

  reject_pending-effects :
      (reject_pending s).effects
      ≡ (reject_all s (waiters s)).effects ++ quit_notice (reject_all s (waiters s)).locks
  unfolding reject_pending
  reject_pending-effects = ground (arith, append-nil (reject_all s (waiters s)).effects)

  left-In :
      (a : NodeLock) → In a (reject_all s (waiters s)).locks ↔ (In a s.locks × (a.state ≢ pending))
  left-In a = (stays, λ h. reject_all-In_intro a s (waiters s) (other h.1 h.0) h.0)
    where
      stays : In a (reject_all s (waiters s)).locks → In a s.locks × (a.state ≢ pending)
      stays m =
          let (l, f) = reject_all-In a s.last_id s (waiters s) v m in
          (l, λ p. f a (In-keep_intro (λ k. is_pending k.state) a s.locks l (ground arith)) refl)

      other : a.state ≢ pending → In a s.locks → (p : NodeLock) → In p (waiters s) → a.id ≢ p.id
      other n m p pm e =
          let (l, w) = In-keep (λ k. is_pending k.state) p s.locks pm in
          let same = id_unique a p 0 s.last_id s.locks v m l e in
          let w' : is_pending a.state ≡ true = rw same w in cc (pending-test a n, w')

  nobody_waits : waiters (reject_pending s) ≡ []
  nobody_waits =
      keep-eq-nil _ (reject_pending s).locks
        (λ a m. pending-test a ((left-In a).0 (rw reject_pending-locks at m)).1)

  reject_pending-HasQuit : HasQuit s (reject_pending s)
  reject_pending-HasQuit = (
    λ a. rw reject_pending-locks (left-In a),
    rw (reject_pending-effects, reject_all-effects s (waiters s), reject_pending-locks) refl,
  )

  -- A locker on which `quit` was called, the next time that its queue is processed: the locks that
  -- wait are all rejected with `Quitting`, in the order of the list, and leave; the held and the
  -- expired ones stay; and the promise of `quit` resolves exactly if none is left.
  pub process_queue_quits : (now : ℕ) → HasQuit s (process_queue now s)
  unfolding process_queue
  process_queue_quits now =
      subst (HasQuit s) (sym (grant_nobody now (reject_pending s) nobody_waits))
        reject_pending-HasQuit
