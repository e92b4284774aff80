-- ===== src/BTree/Descent.antt =====
-- src/btree/tree.ts: `findLeaf` and `firstLeaf` in a tree whose nodes all have entries, and where the leaf
-- stands among the entries of the tree.
use acebase.Prelude.{
  ◌≤◌, ◌≡◌, inl, inr, Option, some, List, [], ◌∷◌, ◌++◌, refl, sym, ap, ◌∙◌, arith, All, Bool-cases,
}
use mathlib.Core.List.{append_assoc, append-nil}
use acebase.Order.{Order, is_lt}
use acebase.BTree.{
  Tree, leaf, node, Entries, nil, cons, size, LeafEntry, Result, ok, to_list, entries_to_list,
  find_leaf, find_leaf_in, assert_last,
}
use acebase.BTree.Put.{AllLess, AllMore}
use acebase.BTree.Ordered.{
  InOrder, IsOrdered, AreOrdered, last_bound, AllLess-of_Below, AllMore-of_AtLeast, to_list-InOrder,
  entries_to_list-InOrder,
}
use acebase.BTree.Insert.{not_less}
use acebase.BTree.Search.{before_leaf, before_leaf_in, after_leaf, after_leaf_in, first_leaf}

module _ {ℓ} {A : Type ℓ} where
  pub All-append {κ} : (P : A → Type κ) (xs ys : List A) → All P xs → All P ys → All P (xs ++ ys)
  All-append P [] ys a b = b
  All-append P (x ∷ xs) ys a b = (a.0, All-append P xs ys a.1 b)

module _ {K : Type 0} {M : Type 0} ⦃o : Order K⦄ where
  pub assert_last-passes {ℓ} :
      {A : Type ℓ} (cs : Entries K M) (r : Result A) → 1 ≤ size cs → assert_last cs r ≡ r
  assert_last-passes nil r h = absurd (omega arith)
  assert_last-passes (cons t x cs) r h = refl

  pub first_leaf-found :
      (t : Tree K M) (lo hi : Option K)
      → IsOrdered lo hi t
      → (es : List (LeafEntry K M)) × (first_leaf t ≡ ok es)
  unfolding first_leaf
  first_leaf-found (leaf es) lo hi w = (es, refl)
  first_leaf-found (node nil last) lo hi w = absurd (omega (arith, w.2))
  first_leaf-found (node (cons t x cs) last) lo hi w = first_leaf-found t lo (some x) w.0.2

  -- The leaf of `k` in the list of entries: what is before it is less, what is behind it more.
  abbrev pub Located :
      K
      → List (LeafEntry K M)
      → List (LeafEntry K M)
      → List (LeafEntry K M)
      → List (LeafEntry K M)
      → Type 0
  Located k pre es post all = (pre ++ (es ++ post) ≡ all) × AllLess k pre × AllMore k post

  -- The answer of `findLeaf` is a leaf, and the leaf of `k`.
  abbrev Finds :
      K
      → List (LeafEntry K M)
      → Result (List (LeafEntry K M))
      → List (LeafEntry K M)
      → List (LeafEntry K M)
      → Type 0
  Finds k pre r post all = (es : List (LeafEntry K M)) × (r ≡ ok es) × Located k pre es post all

  mutual
    unfolding find_leaf before_leaf after_leaf to_list

    located' :
        (k : K) (t : Tree K M) (lo hi : Option K)
        → IsOrdered lo hi t
        → Finds k (before_leaf t k) (find_leaf t k) (after_leaf t k) (to_list t)
    located' k (leaf es) lo hi w = (es, refl, (append-nil es, tt, tt))
    located' k (node cs last) lo hi w = rw (assert_last-passes cs (find_leaf last k) w.2) (
        tail_Finds k cs (to_list last) (before_leaf last k) (find_leaf last k) (after_leaf last k)
          lo hi w.0 (to_list-InOrder last (last_bound lo cs) hi w.1)
          (located' k last (last_bound lo cs) hi w.1))

    tail_Finds :
        (k : K) (cs : Entries K M) (rest pre : List (LeafEntry K M))
        (r : Result (List (LeafEntry K M))) (post : List (LeafEntry K M)) (lo hi : Option K)
        → AreOrdered lo hi cs
        → InOrder (last_bound lo cs) hi rest
        → Finds k pre r post rest
        → Finds k
            (before_leaf_in cs k pre)
            (find_leaf_in cs k r)
            (after_leaf_in cs k rest post)
            (entries_to_list cs ++ rest)
    tail_Finds k nil rest pre r post lo hi w s l = l
    tail_Finds k (cons t x cs) rest pre r post lo hi w s l = elim (Bool-cases (is_lt (o.cmp k x))) [
      | inl e ↦
          let (es, found, (list, below, above)) = located' k t lo (some x) w.2 in
          rw e (
            es,
            found,
            (
              ap (λ fs. before_leaf t k ++ fs) (sym (append_assoc es (after_leaf t k) _))
                  ∙ sym (append_assoc (before_leaf t k) (es ++ after_leaf t k) _)
                  ∙ ap (λ fs. fs ++ (entries_to_list cs ++ rest)) list
                  ∙ sym (append_assoc (to_list t) (entries_to_list cs) rest),
              below,
              All-append _ (after_leaf t k) _ above (
                  AllMore-of_AtLeast k x hi _ (ground arith)
                    (entries_to_list-InOrder cs (some x) hi rest w.3 s).0),
            ),
          )
      | inr e ↦
          let (es, found, (list, below, above)) =
            tail_Finds k cs rest pre r post (some x) hi w.3 s l in
          rw e (
            es,
            found,
            (
              append_assoc (to_list t) (before_leaf_in cs k pre) _
                  ∙ ap (◌++◌ (to_list t)) list
                  ∙ sym (append_assoc (to_list t) (entries_to_list cs) rest),
              All-append _ (to_list t) _
                  (AllLess-of_Below k x lo (to_list t) (not_less k x e)
                    (to_list-InOrder t lo (some x) w.2).0)
                  below,
              above,
            ),
          )
    ]

  -- In an ordered tree `findLeaf` comes to a leaf, which is the leaf of `k`.
  pub located :
      (k : K) (t : Tree K M) (lo hi : Option K)
      → IsOrdered lo hi t
      → (es : List (LeafEntry K M)) × (find_leaf t k ≡ ok es)
        × Located k (before_leaf t k) es (after_leaf t k) (to_list t)
  located k t lo hi w = located' k t lo hi w
