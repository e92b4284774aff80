-- ===== src/TreeBuilder/Adding.antt =====
-- src/btree/tree-builder.ts: `add`, as an addition to the sorted list of entries.
use acebase.BTree.Add.{put_checked}
use acebase.TreeBuilder.Sorting.{
  AreDistinct-append, sort-append, AreDistinct-push_value, push_value-sort, has_key-sort,
  order_keys, is_present-has_key, push_existing-push_value, AreDistinct,
}
use acebase.Prelude.{
  ◌≢◌, Bool-cases, inl, sym, inr, Option-cases, ◌≡◌, arith, [], ◌∷◌, refl, some, ap, ◌∙◌,
}
use acebase.Order.{Order}
use acebase.BTree.{
  no_entry, record_pointer_too_large, metadata_missing, node_key_exists, LeafEntry, has_key, Error,
  Settings, check_new_entry_args, put, EntryValue, Result, ok, err, duplicate_node_key,
}
use acebase.TreeBuilder.{
  tree_settings, Builder, Outcome, returns, throws, bad_arguments, unique_key_violation, ◌>>=◌,
  sort, add,
}

-- What the builder throws where the tree throws.
abbrev pub as_outcome {ℓ} : {A : Type ℓ} → Result A → Outcome A
as_outcome (ok a) = returns a
as_outcome (err duplicate_node_key) = throws unique_key_violation
as_outcome (err e) = throws (bad_arguments e)

abbrev pub Holds {ℓ κ} : {A : Type ℓ} → (A → Type κ) → Outcome A → Type κ
Holds P (returns a) = P a
Holds P (throws e) = Unit

as_outcome_other {ℓ} :
    {A : Type ℓ} (e : Error)
    → e ≢ duplicate_node_key
    → as_outcome {A = A} (err e) ≡ throws (bad_arguments e)
as_outcome_other record_pointer_too_large h = refl
as_outcome_other metadata_missing h = refl
as_outcome_other node_key_exists h = refl
as_outcome_other no_entry h = refl
as_outcome_other duplicate_node_key h = absurd (h refl)

check_args_other :
    {M : Type 0} (c : Settings) (v : EntryValue M)
    → check_new_entry_args c v ≢ some duplicate_node_key
unfolding check_new_entry_args
check_args_other c v h = ground arith

module _ {K : Type 0} {M : Type 0} ⦃o : Order K⦄ (b : Builder K M) (k : K) (v : EntryValue M)
    (d : AreDistinct b.list) where
  -- An addition to the builder is one to the sorted list of its entries, and keeps the keys distinct.
  pub add-refines :
      ((add b k v >>= λ b'. returns (sort b'.list))
        ≡ as_outcome (put_checked (tree_settings 0 b) k v (sort b.list)))
      × Holds (λ b'. AreDistinct b'.list) (add b k v)
  unfolding add put put_checked
  add-refines = elim (Option-cases (check_new_entry_args (tree_settings 0 b) v)) [
    | inr (e, t) ↦
        rw (t, add, put_checked)
          (
            sym (as_outcome_other e (λ f. check_args_other (tree_settings 0 b) v (t ∙ ap some f))),
            tt,
          )
    | inl t ↦
        rw (t, add, put_checked, is_present-has_key k b.list, push_existing-push_value k v b.list)
          (elim (Bool-cases (has_key k b.list)) [
            | inl old ↦
                rw (old, has_key-sort k b.list ∙ old, put)
                  (elim (Bool-cases b.unique_keys) [
                    | inl u ↦ rw u (refl, tt)
                    | inr m ↦ rw m (
                      ap returns (push_value-sort k v b.list d),
                      AreDistinct-push_value k v b.list d,
                    )
                  ])
            | inr fresh ↦
                let a : LeafEntry K M = record { key = k; values = v ∷ [] } in
                rw (fresh, has_key-sort k b.list ∙ fresh, put)
                  (ap returns (sort-append a b.list), AreDistinct-append a b.list fresh d)
          ])
  ]
