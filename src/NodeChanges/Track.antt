-- ===== src/NodeChanges/Track.antt =====
-- src/node-changes.ts: the changes that `create` tracks.
use acebase.Prelude.{
  ◌≡◌, ◌≢◌, Bool, true, false, [], ◌∷◌, ◌++◌, keep, if◌then◌else◌, Option, none, some, Bool-cases,
  inl, inr, refl, sym, ap, ◌∙◌, subst, map,
}
use mathlib.Core.List.{append_assoc, append-nil}
use acebase.Order.{Order}
use acebase.Assoc.{same, get}
use acebase.NodeChanges.{
  Change, update, delete, insert, Fields, Tracker, object, ok, add_olds, add_news, ◌>>=◌, add, push,
  add_insert,
}

abbrev pub is_none {ℓ} : {A : Type ℓ} → Option A → Bool
is_none none = true
is_none (some a) = false

module _ {K : Type 0} {V : Type 0} ⦃o : Order K⦄ where
  -- Each key is there once.
  abbrev pub IsObject : Fields K V → Type 0
  IsObject [] = Unit
  IsObject ((k, v) ∷ fs) = (get k fs ≡ none) × IsObject fs

  -- No field is null.
  abbrev pub IsFull : Fields K V → Type 0
  IsFull [] = Unit
  IsFull ((k, v) ∷ fs) = (v ≢ none) × IsFull fs

  -- The change of a field, from what the old and the new object hold there.
  abbrev pub difference : K → Option (Option V) → Option (Option V) → Option (Change K V)
  difference k none none = none
  difference k (some a) none = some (record { key = k; change_type = delete; old = a; new = none })
  difference k (some a) (some b) = some (record { key = k; change_type = update; old = a; new = b })
  difference k none (some b) = some (record { key = k; change_type = insert; old = none; new = b })

  -- The change of a field of the old object, from what the new object holds.
  abbrev pub old_change : Option (Option V) → K → Option V → Change K V
  old_change none k v = record { key = k; change_type = delete; old = v; new = none }
  old_change (some w) k v = record { key = k; change_type = update; old = v; new = w }

  abbrev pub of_old : Fields K V → K × Option V → Change K V
  of_old new (k, v) = old_change (get k new) k v

  abbrev pub of_new : K × Option V → Change K V
  of_new (k, v) = record { key = k; change_type = insert; old = none; new = v }

  abbrev pub only_new : Fields K V → Fields K V → Fields K V
  only_new old new = keep (λ f. is_none (get f.0 old)) new

  get-IsFull : (k : K) (fs : Fields K V) → IsFull fs → get k fs ≢ some none
  get-IsFull k [] full e = cc
  get-IsFull k ((q, v) ∷ fs) (n, full) e = elim (Bool-cases (same q k)) [
    | inl t ↦
        let x : some v ≡ some none =
          subst (λ b. (if b then some v else get k fs) ≡ some none) t e in
        n cc
    | inr f ↦ get-IsFull k fs full (subst (λ b. (if b then some v else get k fs) ≡ some none) f e)
  ]

  tracks_old :
      (k : K) (v : Option V) (w : Option (Option V)) (t : Tracker K V)
      → v ≢ none
      → w ≢ some none
      → (elim w [ some b ↦ add k v b t | none ↦ add k v none t ]) ≡ ok (push (old_change w k v) t)
  tracks_old k none w t n m = absurd (n refl)
  tracks_old k (some a) none t n m = refl
  tracks_old k (some a) (some none) t n m = absurd (m refl)
  tracks_old k (some a) (some (some b)) t n m = refl

  pub add_olds-map :
      (new fs : Fields K V) (t : Tracker K V)
      → IsFull new
      → IsFull fs
      → add_olds (object new) fs t ≡ ok (record t { changes = t.changes ++ map (of_old new) fs })
  unfolding add_olds
  add_olds-map new [] t n f = ap (λ cs. ok (record t { changes = cs })) (sym (append-nil t.changes))
  add_olds-map new ((k, v) ∷ fs) t n (full, f) =
      let c = of_old new (k, v) in
      ap (λ r. r >>= λ t'. add_olds (object new) fs t')
        (tracks_old k v (get k new) t full (get-IsFull k new n))
      ∙ add_olds-map new fs (push c t) n f
      ∙ ap (λ cs. ok (record t { changes = cs }))
          (append_assoc t.changes (c ∷ []) (map (of_old new) fs))

  pub add_news-map :
      (old fs : Fields K V) (t : Tracker K V)
      → IsFull old
      → IsFull fs
      → add_news (object old) fs t
        ≡ ok (record t { changes = t.changes ++ map of_new (only_new old fs) })
  unfolding add_news
  add_news-map old [] t n f = ap (λ cs. ok (record t { changes = cs })) (sym (append-nil t.changes))
  add_news-map old ((k, v) ∷ fs) t n (full, f) =
      tracks_new (get k old) v (get-IsFull k old n) full (λ t'. add_news-map old fs t' n f)
    where
      tracks_new :
          (w : Option (Option V)) (v : Option V)
          → w ≢ some none
          → v ≢ none
          → ((t' : Tracker K V)
              → add_news (object old) fs t'
                ≡ ok (record t' { changes = t'.changes ++ map of_new (only_new old fs) }))
          → ((elim w [ none ↦ add k none v t | some none ↦ add k none v t | some (some a) ↦ ok t ])
              >>= λ t'. add_news (object old) fs t')
            ≡ ok (record t {
              changes =
                  t.changes
                  ++ map of_new (if is_none w then (k, v) ∷ only_new old fs else only_new old fs);
            })
      tracks_new none none m n' ih = absurd (n' refl)
      tracks_new none (some b) m n' ih =
          ih (add_insert k (some b) t)
          ∙ ap (λ cs. ok (record t { changes = cs }))
              (append_assoc t.changes (of_new (k, some b) ∷ []) (map of_new (only_new old fs)))
      tracks_new (some none) v m n' ih = absurd (m refl)
      tracks_new (some (some a)) v m n' ih = ih t
