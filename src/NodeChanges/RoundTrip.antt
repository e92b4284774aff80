-- ===== src/NodeChanges/RoundTrip.antt =====
-- src/node-changes.ts: `create` and the getters `newValue` and `oldValue`.
use acebase.Prelude.{
  map, ◌≡◌, List, Option, none, some, refl, ap, ◌∙◌, All, Option-cases, inl, inr, All-In, find-some,
}
use acebase.Order.{Order}
use acebase.Assoc.{same, get, same-equal}
use acebase.NodeChanges.{
  Change, Fields, Tracker, Value, Result, get_new_value, get_old_value, object, ok, create,
  new_tracker, ◌>>=◌, get_change,
}
use acebase.NodeChanges.Apply.{
  override, changed, AreSingle, before, after, redo, undo, get-redo, get-undo,
}
use acebase.NodeChanges.Track.{IsObject, IsFull, difference, add_olds-map, add_news-map, of_old}
use acebase.NodeChanges.Difference.{changes_of, changed-changes_of, AreSingle-changes_of}

module _ {K : Type 0} {V : Type 0} ⦃o : Order K⦄ where
  -- An object with what these fields hold at each key.
  abbrev pub Reads : Fields K V → Result (Value K V) → Type 0
  Reads fs r = (gs : Fields K V) × (r ≡ ok (object gs)) × ((k : K) → get k gs ≡ get k fs)

  -- The changes fit the old fields.
  abbrev pub Fit : Fields K V → List (Change K V) → Type 0
  Fit fs cs = AreSingle cs × All (λ c. before c ≡ get c.key fs) cs

  redo_changes :
      (k : K) (old new : Fields K V)
      → IsObject old
      → IsObject new
      → get k (redo (changes_of old new) old) ≡ get k new
  redo_changes k old new s r =
      get-redo k (changes_of old new) old (AreSingle-changes_of old new s r)
      ∙ ap (λ d. override d after (get k old)) (changed-changes_of k old new)
      ∙ by_cases (get k old) (get k new)
    where
      by_cases : (a b : Option (Option V)) → override (difference k a b) after a ≡ b
      by_cases none none = refl
      by_cases none (some b) = refl
      by_cases (some a) none = refl
      by_cases (some a) (some b) = refl

  undo_changes :
      (k : K) (old new : Fields K V)
      → IsObject old
      → IsObject new
      → get k (undo (changes_of old new) new) ≡ get k old
  undo_changes k old new s r =
      get-undo k (changes_of old new) new (AreSingle-changes_of old new s r)
      ∙ ap (λ d. override d before (get k new)) (changed-changes_of k old new)
      ∙ by_cases (get k old) (get k new)
    where
      by_cases : (a b : Option (Option V)) → override (difference k a b) before b ≡ a
      by_cases none none = refl
      by_cases none (some b) = refl
      by_cases (some a) none = refl
      by_cases (some a) (some b) = refl

  -- For two objects without fields that are null, create returns a tracker. Its change of a key is a
  -- delete, an update or an insert, as the key is in the old object only, in both, or in the new one
  -- only; the old value with the changes reads as the new object, and the new value without them as the old one.
  pub create-difference :
      (old new : Fields K V)
      → IsObject old
      → IsObject new
      → IsFull old
      → IsFull new
      → (t : Tracker K V) × (create (object old) (object new) ≡ ok t)
        × ((k : K) → get_change k t ≡ difference k (get k old) (get k new))
        × Reads new (get_new_value (record t { new_value = none }))
        × Reads old (get_old_value (record t { old_value = none }))
  unfolding create get_new_value get_old_value
  create-difference old new s r f g =
      let t0 : Tracker K V = record new_tracker {
        old_value = some (object old);
        new_value = some (object new);
      } in
      let t1 : Tracker K V = record t0 { changes = map (of_old new) old } in
      (
        record t0 { changes = changes_of old new },
        rw (add_olds-map new old t0 g f) (add_news-map old new t1 f g),
        (λ k. changed-changes_of k old new),
        (redo (changes_of old new) old, refl, (λ k. redo_changes k old new s r)),
        (undo (changes_of old new) new, refl, (λ k. undo_changes k old new s r)),
      )

  -- Where no key has two changes, and each change has as old value what the object holds at its key, the
  -- value with the changes is an object, and this without the changes reads as the object before.
  pub old_value-new_value :
      (fs : Fields K V) (cs : List (Change K V))
      → Fit fs cs
      → Reads fs (
          get_new_value (record { changes = cs; old_value = some (object fs); new_value = none })
          >>= λ v. get_old_value (record { changes = cs; old_value = none; new_value = some v }))
  unfolding get_new_value get_old_value
  old_value-new_value fs cs (s, fit) = (undo cs (redo cs fs), refl, back)
    where
      back : (k : K) → get k (undo cs (redo cs fs)) ≡ get k fs
      back k = elim (Option-cases (changed k cs)) [
        | inl e ↦ get-undo k cs (redo cs fs) s ∙ rw e (get-redo k cs fs s ∙ rw e refl)
        | inr (c, e) ↦
            let (i, at) = find-some (λ d. same d.key k) c cs e in
            get-undo k cs (redo cs fs) s
            ∙ rw e (All-In _ cs c fit i ∙ ap (λ x. get x fs) (same-equal c.key k at))
      ]
