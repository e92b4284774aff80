-- ===== src/NodeChanges/Difference.antt =====
-- src/node-changes.ts: `create` and the getters `newValue` and `oldValue`.
use acebase.Prelude.{
  if_both, ◌≡◌, true, false, List, [], ◌∷◌, ◌++◌, if◌then◌else◌, Option, none, some, Bool-cases,
  inl, inr, refl, ap, ◌∙◌, All, subst, map, In, In-map, All-intro,
}
use acebase.Order.{Order}
use acebase.Assoc.{same_refl, same, get, same-equal}
use acebase.NodeChanges.{Change, Fields}
use acebase.NodeChanges.Apply.{override, changed, AreSingle}
use acebase.NodeChanges.Track.{IsObject, difference, old_change, of_old, of_new, is_none, only_new}

module _ {K : Type 0} {V : Type 0} ⦃o : Order K⦄ where
  changed-append :
      (k : K) (cs ds : List (Change K V))
      → changed k (cs ++ ds) ≡ override (changed k cs) some (changed k ds)
  changed-append k [] ds = refl
  changed-append k (c ∷ cs) ds = elim (Bool-cases (same c.key k)) [
    | inl t ↦ rw t refl
    | inr f ↦ rw f (changed-append k cs ds)
  ]

  changed-map :
      (f : K × Option V → Change K V) (k : K) (fs : Fields K V)
      → ((e : K × Option V) → (f e).key ≡ e.0)
      → changed k (map f fs) ≡ override (get k fs) (λ v. some (f (k, v))) none
  changed-map f k [] h = refl
  changed-map f k ((q, v) ∷ fs) h = elim (Bool-cases (same q k)) [
    | inl t ↦
        let found : same (f (q, v)).key k ≡ true = ap (λ x. same x k) (h (q, v)) ∙ t in
        rw (found, t) (ap (λ x. some (f (x, v))) (same-equal q k t))
    | inr n ↦
        let other : same (f (q, v)).key k ≡ false = ap (λ x. same x k) (h (q, v)) ∙ n in
        rw (other, n) (changed-map f k fs h)
  ]

  AreSingle-map :
      (f : K × Option V → Change K V) (fs : Fields K V)
      → ((e : K × Option V) → (f e).key ≡ e.0)
      → IsObject fs
      → AreSingle (map f fs)
  AreSingle-map f [] h s = tt
  AreSingle-map f ((k, v) ∷ fs) h (one, s) =
      (rw (h (k, v)) (changed-map f k fs h ∙ rw one refl), AreSingle-map f fs h s)

  AreSingle-append :
      (cs ds : List (Change K V))
      → AreSingle cs
      → AreSingle ds
      → All (λ c. changed c.key ds ≡ none) cs
      → AreSingle (cs ++ ds)
  AreSingle-append [] ds s r a = r
  AreSingle-append (c ∷ cs) ds (one, s) r (n, a) =
      (changed-append c.key cs ds ∙ rw one n, AreSingle-append cs ds s r a)

  get-only_new :
      (k : K) (old new : Fields K V)
      → get k (only_new old new) ≡ (if is_none (get k old) then get k new else none)
  get-only_new k old [] = if_both (λ x. none ≡ x) (is_none (get k old)) none none refl refl
  get-only_new k old ((q, v) ∷ new) = elim (Bool-cases (same q k)) [
    | inl t ↦ elim (Bool-cases (is_none (get k old))) [
      | inl y ↦
          let y' : is_none (get q old) ≡ true =
            ap (λ x. is_none (get x old)) (same-equal q k t) ∙ y in
          rw (y, y') (rw t refl)
      | inr n ↦
          let n' : is_none (get q old) ≡ false =
            ap (λ x. is_none (get x old)) (same-equal q k t) ∙ n in
          rw (n, n') (get-only_new k old new ∙ rw n refl)
    ]
    | inr f ↦ elim (Bool-cases (is_none (get q old))) [
      | inl y ↦ rw (y, f) (get-only_new k old new)
      | inr n ↦ rw (n, f) (get-only_new k old new)
    ]
  ]

  IsObject-only_new : (old new : Fields K V) → IsObject new → IsObject (only_new old new)
  IsObject-only_new old [] s = tt
  IsObject-only_new old ((k, v) ∷ new) (one, s) = elim (Bool-cases (is_none (get k old))) [
    | inl t ↦ rw t (get-only_new k old new ∙ rw t one, IsObject-only_new old new s)
    | inr f ↦ rw f (IsObject-only_new old new s)
  ]

  get-In : (e : K × Option V) (fs : Fields K V) → In e fs → is_none (get e.0 fs) ≡ false
  get-In e [] m = elim m [ ]
  get-In e ((q, v) ∷ fs) m = elim (Bool-cases (same q e.0)) [
    | inl t ↦ rw t refl
    | inr f ↦ rw f (elim m [
      | inl i ↦ let s = subst (λ x. same x e.0 ≡ true) (ap (λ y. y.0) i) (same_refl e.0) in cc
      | inr j ↦ get-In e fs j
    ])
  ]

  old_change-key : (w : Option (Option V)) (k : K) (v : Option V) → (old_change w k v).key ≡ k
  old_change-key none k v = refl
  old_change-key (some x) k v = refl

  abbrev pub changes_of : Fields K V → Fields K V → List (Change K V)
  changes_of old new = map (of_old new) old ++ map of_new (only_new old new)

  pub changed-changes_of :
      (k : K) (old new : Fields K V)
      → changed k (changes_of old new) ≡ difference k (get k old) (get k new)
  changed-changes_of k old new =
      changed-append k (map (of_old new) old) (map of_new (only_new old new))
      ∙ ap (λ d. override d some (changed k (map of_new (only_new old new))))
          (changed-map (of_old new) k old (λ e. old_change-key (get e.0 new) e.0 e.1))
      ∙ ap (override (override (get k old) (λ v. some (old_change (get k new) k v)) none) some) (
          changed-map of_new k (only_new old new) (λ e. refl)
          ∙ ap (λ w. override w (λ v. some (of_new (k, v))) none) (get-only_new k old new))
      ∙ by_cases (get k old) (get k new)
    where
      by_cases :
          (a b : Option (Option V))
          → override
              (override a (λ v. some (old_change b k v)) none)
              some
              (override (if is_none a then b else none) (λ v. some (of_new (k, v))) none)
            ≡ difference k a b
      by_cases none none = refl
      by_cases none (some b) = refl
      by_cases (some a) none = refl
      by_cases (some a) (some b) = refl

  pub AreSingle-changes_of :
      (old new : Fields K V) → IsObject old → IsObject new → AreSingle (changes_of old new)
  AreSingle-changes_of old new s r =
      AreSingle-append (map (of_old new) old) (map of_new (only_new old new))
        (AreSingle-map (of_old new) old (λ e. old_change-key (get e.0 new) e.0 e.1) s)
        (AreSingle-map of_new (only_new old new) (λ e. refl) (IsObject-only_new old new r))
        (All-intro _ (map (of_old new) old) (λ c m.
          let (e, i, same_change) = In-map (of_old new) c old m in
          let key : c.key ≡ e.0 =
            ap (λ d. d.key) same_change ∙ old_change-key (get e.0 new) e.0 e.1 in
          let there : is_none (get c.key old) ≡ false = rw key (get-In e old i) in
          let gone : get c.key (only_new old new) ≡ none =
            get-only_new c.key old new ∙ rw there refl in
          changed-map of_new c.key (only_new old new) (λ x. refl)
          ∙ ap (λ w. override w (λ v. some (of_new (c.key, v))) none) gone))
