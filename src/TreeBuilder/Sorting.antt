-- ===== src/TreeBuilder/Sorting.antt =====
-- src/btree/tree-builder.ts: `add` on the map, as the sorted list of its entries sees it.
use acebase.BTree.Add.{insert_entry-InOrder}
use acebase.BTree.Ordered.{InOrder}
use acebase.Prelude.{
  inr, subst, inl, ◌≡◌, arith, All, List, [], ◌∷◌, ◌++◌, true, false, ◌||◌, ap, sym, ◌∙◌, refl,
  none, Bool-cases,
}
use acebase.Order.{Order, is_eq}
use acebase.TreeBuilder.{
  MapKey, is_present, push_existing, push_value, insert_entry, has_key, LeafEntry, EntryValue, sort,
  sort_onto,
}

module _ {K : Type 0} ⦃o : Order K⦄ where
  is_eq_sym : (a b : K) → is_eq (o.cmp a b) ≡ is_eq (o.cmp b a)
  is_eq_sym a b = ground (
    arith,
    o.eq_of_cmp a b,
    o.eq_of_cmp b a,
    o.cmp_self a,
    o.cmp_lt_gt a b,
    o.cmp_lt_gt b a,
    o.cmp_gt_lt a b,
    o.cmp_gt_lt b a,
  )

-- A map that takes two keys for one where they compare equal.
instance abbrev pub order_keys : {K : Type 0} → ⦃o : Order K⦄ → MapKey K
order_keys ⦃o = o⦄ = record { same = λ j k. is_eq (o.cmp j k) }

-- Any map of such keys is that map.
pub order_keys_unique :
    {K : Type 0} ⦃o : Order K⦄ (m : MapKey K)
    → ((j k : K) → m.same j k ≡ is_eq (o.cmp j k))
    → order_keys ≡ m
order_keys_unique m h = λ i. record { same = λ j k. sym (h j k) i }

module _ {K : Type 0} {M : Type 0} ⦃o : Order K⦄ where
  pub is_present-has_key : (k : K) (es : List (LeafEntry K M)) → is_present k es ≡ has_key k es
  is_present-has_key k [] = refl
  is_present-has_key k (e ∷ es) = rw (is_present-has_key k es) refl

  pub push_existing-push_value :
      (k : K) (v : EntryValue M) (es : List (LeafEntry K M))
      → push_existing k v es ≡ push_value k v es
  push_existing-push_value k v [] = refl
  push_existing-push_value k v (e ∷ es) = rw (push_existing-push_value k v es) refl

  -- No two entries have the same key.
  abbrev pub AreDistinct : List (LeafEntry K M) → Type 0
  AreDistinct [] = Unit
  AreDistinct (e ∷ es) = (has_key e.key es ≡ false) × AreDistinct es

  -- No entry of `es` has a key of `sorted`.
  abbrev AreNew : List (LeafEntry K M) → List (LeafEntry K M) → Type 0
  AreNew sorted es = All (λ e. has_key e.key sorted ≡ false) es

  has_key-insert_entry :
      (k : K) (a : LeafEntry K M) (es : List (LeafEntry K M))
      → has_key k (insert_entry a es) ≡ (is_eq (o.cmp a.key k) || has_key k es)
  has_key-insert_entry k a [] = refl
  has_key-insert_entry k a (e ∷ es) = ground (arith, has_key-insert_entry k a es)

  has_key-sort_onto :
      (k : K) (sorted es : List (LeafEntry K M))
      → has_key k (sort_onto sorted es) ≡ (has_key k sorted || has_key k es)
  unfolding sort_onto
  has_key-sort_onto k sorted [] = ground arith
  has_key-sort_onto k sorted (e ∷ es) =
      ground
        (arith, has_key-sort_onto k (insert_entry e sorted) es, has_key-insert_entry k e sorted)

  AreNew-insert_entry :
      (a : LeafEntry K M) (sorted es : List (LeafEntry K M))
      → has_key a.key es ≡ false
      → AreNew sorted es
      → AreNew (insert_entry a sorted) es
  AreNew-insert_entry a sorted [] h n = tt
  AreNew-insert_entry a sorted (e ∷ es) h n = (
    ground (arith, has_key-insert_entry e.key a sorted, is_eq_sym a.key e.key),
    AreNew-insert_entry a sorted es (ground arith) n.1,
  )

  sort_onto-InOrder :
      (sorted es : List (LeafEntry K M))
      → InOrder none none sorted
      → AreDistinct es
      → AreNew sorted es
      → InOrder none none (sort_onto sorted es)
  unfolding sort_onto
  sort_onto-InOrder sorted [] v d n = v
  sort_onto-InOrder sorted (e ∷ es) v d n =
      sort_onto-InOrder (insert_entry e sorted) es
        (insert_entry-InOrder e none none sorted tt tt n.0 v) d.1
        (AreNew-insert_entry e sorted es d.0 n.1)

  AreNew-nil : (es : List (LeafEntry K M)) → AreNew [] es
  AreNew-nil [] = tt
  AreNew-nil (e ∷ es) = (refl, AreNew-nil es)

  -- Sorted, the entries of a map rise strictly.
  pub sort-InOrder : (es : List (LeafEntry K M)) → AreDistinct es → InOrder none none (sort es)
  unfolding sort
  sort-InOrder es d = sort_onto-InOrder [] es (tt, tt) d (AreNew-nil es)

  pub has_key-sort : (k : K) (es : List (LeafEntry K M)) → has_key k (sort es) ≡ has_key k es
  unfolding sort
  has_key-sort k es = has_key-sort_onto k [] es

  sort_onto-append :
      (a : LeafEntry K M) (sorted es : List (LeafEntry K M))
      → sort_onto sorted (es ++ a ∷ []) ≡ insert_entry a (sort_onto sorted es)
  unfolding sort_onto
  sort_onto-append a sorted [] = refl
  sort_onto-append a sorted (e ∷ es) = sort_onto-append a (insert_entry e sorted) es

  pub sort-append :
      (a : LeafEntry K M) (es : List (LeafEntry K M))
      → sort (es ++ a ∷ []) ≡ insert_entry a (sort es)
  unfolding sort
  sort-append a es = sort_onto-append a [] es

  has_key-push_value :
      (j k : K) (v : EntryValue M) (es : List (LeafEntry K M))
      → has_key j (push_value k v es) ≡ has_key j es
  has_key-push_value j k v [] = refl
  has_key-push_value j k v (e ∷ es) = ground (arith, has_key-push_value j k v es)

  pub AreDistinct-push_value :
      (k : K) (v : EntryValue M) (es : List (LeafEntry K M))
      → AreDistinct es
      → AreDistinct (push_value k v es)
  AreDistinct-push_value k v [] d = tt
  AreDistinct-push_value k v (e ∷ es) d =
      ground (arith, has_key-push_value e.key k v es, AreDistinct-push_value k v es d.1)

  pub AreDistinct-append :
      (a : LeafEntry K M) (es : List (LeafEntry K M))
      → has_key a.key es ≡ false
      → AreDistinct es
      → AreDistinct (es ++ a ∷ [])
  AreDistinct-append a [] h d = (refl, tt)
  AreDistinct-append a (e ∷ es) h d = (
    has_key-more_one e.key es d.0 (ground (arith, is_eq_sym a.key e.key)),
    AreDistinct-append a es (ground arith) d.1,
  )
    where
      has_key-more_one :
          (k : K) (es : List (LeafEntry K M))
          → has_key k es ≡ false
          → is_eq (o.cmp a.key k) ≡ false
          → has_key k (es ++ a ∷ []) ≡ false
      has_key-more_one k [] h n = ground arith
      has_key-more_one k (e ∷ es) h n = ground (arith, has_key-more_one k es)

  -- A value that is pushed on a key of the map is pushed on that key of the sorted list.
  push_value_absent :
      (k : K) (v : EntryValue M) (es : List (LeafEntry K M))
      → has_key k es ≡ false
      → push_value k v es ≡ es
  push_value_absent k v [] h = refl
  push_value_absent k v (e ∷ es) h = ground (arith, push_value_absent k v es)

  push_value-insert_entry_other :
      (k : K) (v : EntryValue M) (a : LeafEntry K M) (es : List (LeafEntry K M))
      → is_eq (o.cmp a.key k) ≡ false
      → push_value k v (insert_entry a es) ≡ insert_entry a (push_value k v es)
  push_value-insert_entry_other k v a [] h = ground arith
  push_value-insert_entry_other k v a (e ∷ es) h =
      ground (arith, push_value-insert_entry_other k v a es)

  push_value-insert_entry_same :
      (k : K) (v : EntryValue M) (a : LeafEntry K M) (es : List (LeafEntry K M))
      → is_eq (o.cmp a.key k) ≡ true
      → has_key k es ≡ false
      → push_value k v (insert_entry a es)
        ≡ insert_entry (record a { values = a.values ++ v ∷ [] }) es
  push_value-insert_entry_same k v a [] h n = ground arith
  push_value-insert_entry_same k v a (e ∷ es) h n =
      ground (arith, push_value-insert_entry_same k v a es)

  push_value-sort_onto_old :
      (k : K) (v : EntryValue M) (sorted es : List (LeafEntry K M))
      → has_key k es ≡ false
      → sort_onto (push_value k v sorted) es ≡ push_value k v (sort_onto sorted es)
  unfolding sort_onto
  push_value-sort_onto_old k v sorted [] n = refl
  push_value-sort_onto_old k v sorted (e ∷ es) n =
      ap (λ fs. sort_onto fs es) (sym (push_value-insert_entry_other k v e sorted (ground arith)))
      ∙ push_value-sort_onto_old k v (insert_entry e sorted) es (ground arith)

  push_value-sort_onto :
      (k : K) (v : EntryValue M) (sorted es : List (LeafEntry K M))
      → has_key k sorted ≡ false
      → AreDistinct es
      → sort_onto sorted (push_value k v es) ≡ push_value k v (sort_onto sorted es)
  unfolding sort_onto
  push_value-sort_onto k v sorted [] n d = sym (push_value_absent k v sorted n)
  push_value-sort_onto k v sorted (e ∷ es) n d = elim (Bool-cases (is_eq (o.cmp e.key k))) [
    | inl same ↦
        let absent : has_key k es ≡ false =
          subst (λ j. has_key j es ≡ false) (o.eq_of_cmp e.key k (ground arith)) d.0 in
        rw same (
          ap (λ fs. sort_onto fs es) (sym (push_value-insert_entry_same k v e sorted same n))
          ∙ push_value-sort_onto_old k v (insert_entry e sorted) es absent)
    | inr other ↦ rw other (
        push_value-sort_onto k v (insert_entry e sorted) es
          (ground (arith, has_key-insert_entry k e sorted)) d.1)
  ]

  pub push_value-sort :
      (k : K) (v : EntryValue M) (es : List (LeafEntry K M))
      → AreDistinct es
      → sort (push_value k v es) ≡ push_value k v (sort es)
  unfolding sort
  push_value-sort k v es d = push_value-sort_onto k v [] es refl d
