-- ===== src/WorkerLocks/Answers.antt =====
-- src/ipc/ipc.ts: the results of requests.
use acebase.WorkerLocks.Apart.{AreApart, AreApart-map}
use acebase.WorkerLocks.Pending.{
  ref_of-for_lock, IsListed, AreSettled, without_object, without_request, removed-AreSettled,
  changed-AreSettled,
}
use acebase.WorkerLocks.Removing.{
  is_empty, Leaves, splice-listed, remove_lock-rest, remove_lock-Leaves, Leaves-listed, Leaves-full,
  listed-full,
}
use acebase.WorkerLocks.{
  LockData, LockInfo, Waiting, for_lock, for_release, for_move, Worker, Done, ref_of, is_of, change,
  remove_lock, resolve, reject, handle_result, create_ipc_lock,
}
use acebase.Prelude.{
  if_both, ==_iff, ℕ, ◌≡◌, ◌==◌, true, false, not, ◌&&◌, List, [], ◌∷◌, find, find-some, map,
  if◌then◌else◌, Option, none, some, Option-cases, Bool-cases, inl, inr, refl, sym, ap, ◌∙◌, subst,
  All-In, In, In-map_intro, if_true, if_false,
}

module _ {D : Type 0} where
  abbrev pub IsOrderly : Worker D → Type 0
  IsOrderly w = AreSettled w.locks w.requests w.next × Leaves w

  abbrev changed : ℕ → (LockInfo D → LockInfo D) → LockInfo D → LockInfo D
  changed ref f l = if is_of ref l then f l else l

  changed-ref :
      (ref : ℕ) (f : LockInfo D → LockInfo D)
      → ((l : LockInfo D) → (f l).ref ≡ l.ref)
      → (l : LockInfo D) → (changed ref f l).ref ≡ l.ref
  changed-ref ref f same l = elim (Bool-cases (is_of ref l)) [
    | inl t ↦ ap (λ (x : LockInfo D). x.ref) (if_true (is_of ref l) (f l) l t) ∙ same l
    | inr n ↦ ap (λ (x : LockInfo D). x.ref) (if_false (is_of ref l) (f l) l n)
  ]

  is_empty-map :
      (g : LockInfo D → LockInfo D) (ls : List (LockInfo D)) → is_empty (map g ls) ≡ is_empty ls
  is_empty-map g [] = refl
  is_empty-map g (l ∷ ls) = refl

  Leaves-map :
      (g : LockInfo D → LockInfo D) (w : Worker D)
      → Leaves w
      → Leaves (record w { locks = map g w.locks })
  Leaves-map g w (a, b) =
      let same = sym (is_empty-map g w.locks) in
      (a ∙ ap (λ x. w.exiting && not x) same, b ∙ ap (λ x. w.exiting && x) same)

  without_object-changed :
      (ref : ℕ) (f : LockInfo D → LockInfo D) (ls : List (LockInfo D))
      → ((l : LockInfo D) → (f l).ref ≡ l.ref)
      → without_object ref (map (changed ref f) ls) ≡ without_object ref ls
  without_object-changed ref f [] same = refl
  without_object-changed ref f (l ∷ ls) same = elim (Bool-cases (is_of ref l)) [
    | inl t ↦
        let gone : is_of ref (changed ref f l) ≡ true =
          ap (λ k. k == ref) (changed-ref ref f same l) ∙ t in
        rw (gone, t) (without_object-changed ref f ls same)
    | inr n ↦
        let stays : is_of ref (changed ref f l) ≡ false =
          ap (λ k. k == ref) (changed-ref ref f same l) ∙ n in
        rw (stays, n) (ap (◌∷◌ l) (without_object-changed ref f ls same))
  ]

  -- `removeLock` on the object of a request that ends, where other objects are as they were.
  removed-IsOrderly :
      (ls : List (LockInfo D)) (w : Worker D) (r : ℕ × Waiting)
      → AreApart (λ (l : LockInfo D). l.ref) ls
      → IsListed ls (ref_of r)
      → without_object (ref_of r) ls ≡ without_object (ref_of r) w.locks
      → IsOrderly w
      → In r w.requests
      → IsOrderly
          (remove_lock
            (ref_of r)
            (record w { requests = without_request r.0 w.requests; locks = ls })).worker
  removed-IsOrderly ls w r apart listed others (s, leaves) i =
      let ref : ℕ = ref_of r in
      let known : Worker D = record w { requests = without_request r.0 w.requests; locks = ls } in
      let (waits, exited) = Leaves-listed ref w (All-In _ w.requests r s.listed i) leaves in
      let (a, b, c) = remove_lock-rest ref known in
      (
        rw (a ∙ splice-listed ref ls apart listed ∙ others, b, c)
            (removed-AreSettled w.locks w.requests w.next r s i),
        remove_lock-Leaves ref known listed
            (Leaves-full known (listed-full ref ls listed) waits exited),
      )

  -- The same after a change of the object.
  ended-IsOrderly :
      (f : LockInfo D → LockInfo D) (w : Worker D) (r : ℕ × Waiting)
      → ((l : LockInfo D) → (f l).ref ≡ l.ref)
      → IsOrderly w
      → In r w.requests
      → IsOrderly
          (remove_lock
            (ref_of r)
            (change (ref_of r) f (record w { requests = without_request r.0 w.requests }))).worker
  ended-IsOrderly f w r same (s, leaves) i =
      let g : LockInfo D → LockInfo D = changed (ref_of r) f in
      let refs = changed-ref (ref_of r) f same in
      let (l, j, e) = All-In _ w.requests r s.listed i in
      removed-IsOrderly (map g w.locks) w r (AreApart-map _ g w.locks refs s.objects)
        (g l, In-map_intro g l w.locks j, refs l ∙ e)
        (without_object-changed (ref_of r) f w.locks same) (s, leaves) i

  -- A request ends with a new lock for its object.
  granted-IsOrderly :
      (w : Worker D) (r : ℕ × Waiting) (answer : LockData D)
      → IsOrderly w
      → In r w.requests
      → IsOrderly (
          create_ipc_lock
            (ref_of r)
            answer
            (record w { requests = without_request r.0 w.requests }))
  granted-IsOrderly w r answer (s, leaves) i =
      let f : LockInfo D → LockInfo D =
        λ l. record l { granted = true; tid = answer.tid; lock = some answer; ended = false } in
      (
        changed-AreSettled (changed (ref_of r) f) w.locks w.requests w.next r
            (changed-ref (ref_of r) f (λ l. refl))
            (λ l g.
              if_both (λ (x : LockInfo D). x.granted ≡ true) (is_of (ref_of r) l) (f l) l refl g)
            (λ l e.
              let own : is_of (ref_of r) l ≡ true =
                (==_iff l.ref (ref_of r)).1 (sym (ref_of-for_lock r l.ref e)) in
              ap (λ (x : LockInfo D). x.granted) (if_true (is_of (ref_of r) l) (f l) l own))
            s i,
        Leaves-map (changed (ref_of r) f) w leaves,
      )

  map_same : (ls : List (LockInfo D)) → map (λ l. l) ls ≡ ls
  map_same [] = refl
  map_same (l ∷ ls) = ap (◌∷◌ l) (map_same ls)

  -- A request to release ends, and its object stays.
  kept-IsOrderly :
      (w : Worker D) (id ref : ℕ)
      → IsOrderly w
      → In (id, for_release ref) w.requests
      → IsOrderly (record w { requests = without_request id w.requests })
  kept-IsOrderly w id ref (s, leaves) i = (
    subst (λ ls. AreSettled ls (without_request id w.requests) w.next) (map_same w.locks)
        (changed-AreSettled (λ l. l) w.locks w.requests w.next (id, for_release ref) (λ l. refl)
          (λ l g. g) (λ l e. cc) s i),
    leaves,
  )

  resolve-IsOrderly :
      (w : Worker D) (r : ℕ × Waiting) (answer : LockData D)
      → IsOrderly w
      → In r w.requests
      → IsOrderly
          (resolve r.1 answer (record w { requests = without_request r.0 w.requests })).worker
  unfolding resolve
  resolve-IsOrderly w (id, for_lock ref) answer o i =
      granted-IsOrderly w (id, for_lock ref) answer o i
  resolve-IsOrderly w (id, for_release ref) answer o i =
      ended-IsOrderly (λ l. record l { ended = true }) w (id, for_release ref) (λ l. refl) o i
  resolve-IsOrderly w (id, for_move ref) answer o i =
      granted-IsOrderly w (id, for_move ref) answer o i

  reject-IsOrderly :
      (w : Worker D) (r : ℕ × Waiting)
      → IsOrderly w
      → In r w.requests
      → IsOrderly (reject r.1 (record w { requests = without_request r.0 w.requests })).worker
  unfolding reject
  reject-IsOrderly w (id, for_lock ref) (s, leaves) i =
      removed-IsOrderly w.locks w (id, for_lock ref) s.objects
        (All-In _ w.requests (id, for_lock ref) s.listed i) refl (s, leaves) i
  reject-IsOrderly w (id, for_release ref) o i = kept-IsOrderly w id ref o i
  reject-IsOrderly w (id, for_move ref) o i =
      ended-IsOrderly (λ l. record l { ended = true }) w (id, for_move ref) (λ l. refl) o i

  pub handle_result-IsOrderly :
      (id : ℕ) (result : Option (LockData D)) (w : Worker D)
      → IsOrderly w
      → IsOrderly (handle_result id result w).worker
  unfolding handle_result
  handle_result-IsOrderly id result w o = elim (Option-cases (find (λ r. r.0 == id) w.requests)) [
    | inl e ↦ rw (e, handle_result) o
    | inr (r, e) ↦
        let (i, at) = find-some (λ q. q.0 == id) r w.requests e in
        let same : r.0 ≡ id = (==_iff r.0 id).0 at in rw (e, handle_result) (ended r i same result)
  ]
    where
      ended :
          (r : ℕ × Waiting)
          → In r w.requests
          → r.0 ≡ id
          → (result : Option (LockData D))
          → let known = record w { requests = without_request id w.requests } in
            let d : Done D = elim result [
              | some answer ↦ resolve r.1 answer known
              | none ↦ reject r.1 known
            ] in
            IsOrderly d.worker
      ended r i same (some answer) =
          subst
            (λ k.
              IsOrderly
                (resolve r.1 answer (record w { requests = without_request k w.requests })).worker)
            same (resolve-IsOrderly w r answer o i)
      ended r i same none =
          subst
            (λ k.
              IsOrderly (reject r.1 (record w { requests = without_request k w.requests })).worker)
            same (reject-IsOrderly w r o i)
