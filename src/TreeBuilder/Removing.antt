-- ===== src/TreeBuilder/Removing.antt =====
-- src/btree/tree-builder.ts: `remove`, as the map sees it.
use acebase.TreeBuilder.Sorting.{AreDistinct}
use acebase.Prelude.{
  ◌≢◌, All, ℕ, ◌≡◌, arith, List, [], ◌∷◌, ◌++◌, Option, some, none, true, refl, if◌then◌else◌,
  length, ◌==◌,
}
use acebase.Order.{Order, is_eq}
use acebase.TreeBuilder.{
  MapKey, EntryValue, Builder, returns, throws, undefined, get_values, remove, every_equal,
}

-- Two record pointers are taken for equal if the first is the beginning of the second.
abbrev pub Begins : List ℕ → List ℕ → Type 0
Begins xs p = (more : List ℕ) × (p ≡ xs ++ more)

abbrev pub NoneBegins : {M : Type 0} → List (EntryValue M) → List ℕ → Type 0
NoneBegins vs p = All (λ v. ¬ Begins v.record_pointer p) vs

-- The values of a key that are left when a record pointer is removed: all of them if it is that of none;
-- no entry if it is that of the only one; or else all but the first that has it.
pub data Leaves {M : Type 0}
    : List (EntryValue M) → List ℕ → Option (List (EntryValue M)) → Type 0 where
  none_found : (vs : List (EntryValue M)) (p : List ℕ) → NoneBegins vs p → Leaves vs p (some vs)
  only_found : (v : EntryValue M) (p : List ℕ) → Begins v.record_pointer p → Leaves (v ∷ []) p none
  first_found :
      (before : List (EntryValue M)) (v : EntryValue M) (after : List (EntryValue M)) (p : List ℕ)
      → NoneBegins before p
      → Begins v.record_pointer p
      → (before ++ after) ≢ []
      → Leaves (before ++ v ∷ after) p (some (before ++ after))

pub every_equal-append : (xs ys : List ℕ) → every_equal xs (xs ++ ys) ≡ true
unfolding every_equal
every_equal-append [] ys = refl
every_equal-append (x ∷ xs) ys = ground (arith, every_equal-append xs ys)

-- What `remove_value` finds.
abbrev Finds : {M : Type 0} → List (EntryValue M) → List ℕ → Option (List (EntryValue M)) → Type 0
Finds vs p none = NoneBegins vs p
Finds {M} vs p (some ws) =
    (before : List (EntryValue M)) × (v : EntryValue M) × (after : List (EntryValue M)) × (vs
      ≡ before ++ v ∷ after)
    × (ws ≡ before ++ after)
    × NoneBegins before p
    × Begins v.record_pointer p

module _ {M : Type 0} where
  abbrev values_left :
      List (EntryValue M) → Option (List (EntryValue M)) → Option (List (EntryValue M))
  values_left vs none = some vs
  values_left vs (some ws) = if length vs == 1 then none else some ws

module _ {K : Type 0} {M : Type 0} ⦃o : Order K⦄ (b : Builder K M) (k : K) (p : List ℕ) where
  abbrev pub HasValues : MapKey K → Option (List (EntryValue M)) → Builder K M → Type 0
  HasValues m left b' =
      AreDistinct b'.list
      × ((j : K)
          → get_values ⦃m = m⦄ j b'.list
            ≡ (if is_eq (o.cmp k j) then left else get_values ⦃m = m⦄ j b.list))

  abbrev pub RemovesAs : MapKey K → Option (List (EntryValue M)) → Type 0
  RemovesAs m none = remove ⦃m = m⦄ b k p ≡ throws undefined
  RemovesAs m (some vs) =
      (b' : Builder K M) × (left : Option (List (EntryValue M))) × (remove ⦃m = m⦄ b k p
        ≡ returns b')
      × Leaves vs p left
      × HasValues m left b'
