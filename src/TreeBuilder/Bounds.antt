-- ===== src/TreeBuilder/Bounds.antt =====
-- src/btree/tree-builder.ts: a created tree is in order, since each key in a node is the first key
-- behind it.
use acebase.BTree.Split.{InOrder-halves}
use acebase.TreeBuilder.Nodes.{IsRoot}
use acebase.BTree.Ordered.{last_bound, AreOrdered, Below, IsOrdered, Above, InOrder}
use acebase.TreeBuilder.Built.{AreBuilt, to_list-ne-nil, IsBuilt, Sizes}
use acebase.TreeBuilder.{head_key}
use acebase.BTree.{nil, cons, entries_to_list, Entries, node, leaf, Tree, to_list, LeafEntry}
use acebase.Prelude.{
  arith, ◌≤◌, ℕ, ◌-◌, ◌≡◌, ◌≢◌, Option, none, some, List, [], ◌∷◌, ◌++◌, refl, subst,
}
use mathlib.Core.List.{append_assoc}
use acebase.Order.{Order}

module _ {K : Type 0} {M : Type 0} ⦃o : Order K⦄ where
  -- A run of entries in order, cut before the key `x`.
  InOrder-cut :
      (lo hi : Option K) (x : K) (es fs : List (LeafEntry K M))
      → es ≢ []
      → head_key fs ≡ some x
      → InOrder lo hi (es ++ fs)
      → Above lo x × Below hi x × InOrder lo (some x) es × InOrder (some x) hi fs
  InOrder-cut lo hi x [] fs n h v = absurd (n refl)
  InOrder-cut lo hi x (e ∷ es) [] n h v = cc
  InOrder-cut lo hi x (e ∷ es) (f ∷ fs) n h v =
      let same : f.key ≡ x = cc in
      subst
        (λ y. Above lo y × Below hi y × InOrder lo (some y) (e ∷ es) × InOrder (some y) hi (f ∷ fs))
        same (InOrder-halves lo hi e f es fs v)

  mutual
    unfolding to_list

    IsBuilt-IsOrdered' :
        (s : Sizes) (t : Tree K M) (d : ℕ) (lo hi : Option K)
        → 1 ≤ s.least
        → IsBuilt s d t
        → InOrder lo hi (to_list t)
        → IsOrdered lo hi t
    IsBuilt-IsOrdered' s (leaf es) d lo hi m b v = v
    IsBuilt-IsOrdered' s (node cs gt) d lo hi m b v =
        let (entries, last) =
          AreBuilt-AreOrdered' s cs (d - 1) lo hi gt m b.3
            (λ l w. IsBuilt-IsOrdered' s gt (d - 1) l hi m b.4 w) (to_list-ne-nil s (d - 1) gt b.4)
            v in
        (entries, last, omega (arith, b.1))

    AreBuilt-AreOrdered' :
        (s : Sizes) (cs : Entries K M) (d : ℕ) (lo hi : Option K) (gt : Tree K M)
        → 1 ≤ s.least
        → AreBuilt s d cs (to_list gt)
        → ((l : Option K) → InOrder l hi (to_list gt) → IsOrdered l hi gt)
        → to_list gt ≢ []
        → InOrder lo hi (entries_to_list cs ++ to_list gt)
        → AreOrdered lo hi cs × IsOrdered (last_bound lo cs) hi gt
    AreBuilt-AreOrdered' s nil d lo hi gt m b f n v = (tt, f lo v)
    AreBuilt-AreOrdered' s (cons t x cs) d lo hi gt m b f n v =
        let (above, below, left, right) =
          InOrder-cut lo hi x (to_list t) (entries_to_list cs ++ to_list gt)
            (to_list-ne-nil s d t b.0) b.1
            (subst (InOrder lo hi) (append_assoc (to_list t) (entries_to_list cs) (to_list gt))
              v) in
        let (rest, last) = AreBuilt-AreOrdered' s cs d (some x) hi gt m b.2 f n right in
        ((above, below, IsBuilt-IsOrdered' s t d lo (some x) m b.0 left, rest), last)

  pub IsRoot-IsOrdered :
      (s : Sizes) (d : ℕ) (t : Tree K M)
      → 1 ≤ s.least
      → IsRoot s d t
      → InOrder none none (to_list t)
      → IsOrdered none none t
  unfolding to_list
  IsRoot-IsOrdered s d (leaf es) m b v = v
  IsRoot-IsOrdered s d (node cs gt) m b v =
      let (entries, last) =
        AreBuilt-AreOrdered' s cs (d - 1) none none gt m b.3
          (λ l w. IsBuilt-IsOrdered' s gt (d - 1) l none m b.4 w) (to_list-ne-nil s (d - 1) gt b.4)
          v in
      (entries, last, omega (arith, b.1))
