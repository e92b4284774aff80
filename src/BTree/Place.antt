-- ===== src/BTree/Place.antt =====
-- src/btree/tree-node.ts: a node that takes in what an addition left in a child, and checks its size.
use acebase.Prelude.{
  arith, ◌≤◌, ◌≡◌, inl, inr, false, Option, some, ◌++◌, refl, ap, ◌∙◌, Bool-cases,
}
use Prim.Native.Nat.Ordering.{lt}
use acebase.Order.{Order, is_lt}
use acebase.BTree.{
  size, Tree, node, Entries, nil, cons, Added, kept, leaf_split, node_split, Settings, ok, to_list,
  replace, has_separator, insert_at_child, insert_by_key, check_size, node_add,
}
use acebase.BTree.Ordered.{Below-trans, Above, Below, IsOrdered, AreOrdered, last_bound}
use acebase.BTree.Split.{added_list, IsParted, IsAdded, check_size-IsAdded}
use acebase.BTree.Insert.{child_lo, child_hi, placed, listed-placed, before, after}
use Prim.Native.Nat.{suc}

module _ {K : Type 0} {M : Type 0} ⦃o : Order K⦄ where
  -- The children of a node in order, the last one among them.
  abbrev pub IsNode : Option K → Option K → Entries K M × Tree K M → Type 0
  IsNode lo hi p = AreOrdered lo hi p.0 × IsOrdered (last_bound lo p.0) hi p.1 × (1 ≤ size p.0)

  replace-IsNode :
      (k : K) (lo hi : Option K) (cs : Entries K M) (last u : Tree K M)
      → AreOrdered lo hi cs
      → IsOrdered (last_bound lo cs) hi last
      → IsOrdered (child_lo lo k cs) (child_hi hi k cs) u
      → (AreOrdered lo hi (replace k u cs last).0
          × IsOrdered (last_bound lo (replace k u cs last).0) hi (replace k u cs last).1)
        × (size (replace k u cs last).0 ≡ size cs)
  replace-IsNode k lo hi nil last u v w a = ((tt, a), refl)
  replace-IsNode k lo hi (cons t x cs) last u v w a = elim (Bool-cases (is_lt (o.cmp k x))) [
    | inl e ↦ rw e (((v.0, v.1, rw e at a, v.3), w), refl)
    | inr e ↦
        let ((entries, end), same) = replace-IsNode k (some x) hi cs last u v.3 w (rw e at a) in
        rw e (((v.0, v.1, v.2, entries), end), ap suc same)
  ]

  insert_at_child-IsNode :
      (k y : K) (lo hi : Option K) (cs : Entries K M) (last l r : Tree K M)
      → AreOrdered lo hi cs
      → IsOrdered (last_bound lo cs) hi last
      → IsParted (child_lo lo k cs) (child_hi hi k cs) l y r
      → IsNode lo hi (insert_at_child k l y r cs last)
  insert_at_child-IsNode k y lo hi nil last l r v w (above, below, a, b) =
      ((above, below, a, tt), b, omega arith)
  insert_at_child-IsNode k y lo hi (cons t x cs) last l r v w p =
      elim (Bool-cases (is_lt (o.cmp k x))) [
        | inl e ↦
            let (above, below, a, b) = rw e at p in
            rw e ((above, Below-trans hi x y v.1 below, a, (below, v.1, b, v.3)), w, omega arith)
        | inr e ↦
            let (entries, end, _) =
              insert_at_child-IsNode k y (some x) hi cs last l r v.3 w (rw e at p) in
            rw e ((v.0, v.1, v.2, entries), end, omega arith)
      ]

  placed-IsNode :
      (k : K) (lo hi : Option K) (cs : Entries K M) (last : Tree K M) (a : Added K M)
      → IsNode lo hi (cs, last)
      → IsAdded (child_lo lo k cs) (child_hi hi k cs) a
      → IsNode lo hi (placed k cs last a)
  placed-IsNode k lo hi cs last (kept t) v a =
      let ((entries, end), same) = replace-IsNode k lo hi cs last t v.0 v.1 a in
      (entries, end, rw same v.2)
  placed-IsNode k lo hi cs last (leaf_split l y r) v a =
      insert_at_child-IsNode k y lo hi cs last l r v.0 v.1 a
  placed-IsNode k lo hi cs last (node_split l y r) v a =
      insert_at_child-IsNode k y lo hi cs last l r v.0 v.1 a

  -- Keys that stand at least at a bound stand above what the bound stands above.
  child_lo-Above :
      (k x y : K) (hi : Option K) (cs : Entries K M)
      → AreOrdered (some x) hi cs
      → Above (child_lo (some x) k cs) y
      → o.cmp x y ≡ lt
  child_lo-Above k x y hi nil v a = a
  child_lo-Above k x y hi (cons t z cs) v a = elim (Bool-cases (is_lt (o.cmp k z))) [
    | inl e ↦ rw e at a
    | inr e ↦ o.cmp_trans x z y v.0 (child_lo-Above k z y hi cs v.3 (rw e at a))
  ]

  -- A key below the lower bound is no entry's key.
  low-has_separator :
      (x y : K) (hi : Option K) (cs : Entries K M)
      → AreOrdered (some x) hi cs
      → o.cmp y x ≡ lt
      → has_separator y cs ≡ false
  low-has_separator x y hi nil v a = refl
  low-has_separator x y hi (cons t z cs) v a =
      let low = o.cmp_trans y x z a v.0 in
      rw (o.cmp_lt_gt y z low) (low-has_separator z y hi cs v.3 low)

  -- A key between the bounds of the child is no entry's key, and the first entry with a greater
  -- key is the child's.
  between-has_separator :
      (k y : K) (lo hi : Option K) (cs : Entries K M)
      → AreOrdered lo hi cs
      → Above (child_lo lo k cs) y
      → Below (child_hi hi k cs) y
      → has_separator y cs ≡ false
  between-has_separator k y lo hi nil v a b = refl
  between-has_separator k y lo hi (cons t x cs) v a b = elim (Bool-cases (is_lt (o.cmp k x))) [
    | inl e ↦ let low = rw e at b in rw (o.cmp_lt_gt y x low) (low-has_separator x y hi cs v.3 low)
    | inr e ↦
        rw (child_lo-Above k x y hi cs v.3 (rw e at a))
          (between-has_separator k y (some x) hi cs v.3 (rw e at a) (rw e at b))
  ]

  insert_by_key-place :
      (k y : K) (lo hi : Option K) (cs : Entries K M) (last l r : Tree K M)
      → AreOrdered lo hi cs
      → Above (child_lo lo k cs) y
      → Below (child_hi hi k cs) y
      → insert_by_key l y r (replace k l cs last).0 (replace k l cs last).1
        ≡ insert_at_child k l y r cs last
  insert_by_key-place k y lo hi nil last l r v a b = refl
  insert_by_key-place k y lo hi (cons t x cs) last l r v a b =
      elim (Bool-cases (is_lt (o.cmp k x))) [
        | inl e ↦ rw e (rw (o.cmp_lt_gt y x (rw e at b)) refl)
        | inr e ↦ rw e (
            rw (child_lo-Above k x y hi cs v.3 (rw e at a)) (
              ap (λ p. (cons t x p.0, p.1))
                (insert_by_key-place k y (some x) hi cs last l r v.3 (rw e at a) (rw e at b))))
      ]

  -- What a node answers holds the entries of its children with what the addition left, in order.
  pub node_add-IsAdded :
      (c : Settings) (k : K) (lo hi : Option K) (cs : Entries K M) (last : Tree K M) (a : Added K M)
      → 2 ≤ c.max_entries
      → IsNode lo hi (cs, last)
      → IsAdded (child_lo lo k cs) (child_hi hi k cs) a
      → (b : Added K M) × (node_add c k cs last a ≡ ok b)
        × (added_list b ≡ before k cs ++ (added_list a ++ after k cs last))
        × IsAdded lo hi b
  unfolding node_add to_list
  node_add-IsAdded c k lo hi cs last (kept t) m v a = (
    kept (node (placed k cs last (kept t)).0 (placed k cs last (kept t)).1),
    refl,
    listed-placed k cs last (kept t),
    placed-IsNode k lo hi cs last (kept t) v a,
  )
  node_add-IsAdded c k lo hi cs last (leaf_split l y r) m v a =
      let p = placed k cs last (leaf_split l y r) in
      let (list, added) =
        check_size-IsAdded c lo hi p.0 p.1 m
          (placed-IsNode k lo hi cs last (leaf_split l y r) v a) in
      (
        check_size c p,
        rw (between-has_separator k y lo hi cs v.0 a.0 a.1) refl,
        list ∙ listed-placed k cs last (leaf_split l y r),
        added,
      )
  node_add-IsAdded c k lo hi cs last (node_split l y r) m v a =
      let p = placed k cs last (node_split l y r) in
      let (list, added) =
        check_size-IsAdded c lo hi p.0 p.1 m
          (placed-IsNode k lo hi cs last (node_split l y r) v a) in
      (
        check_size c p,
        ap (λ q. ok (check_size c q)) (insert_by_key-place k y lo hi cs last l r v.0 a.0 a.1),
        list ∙ listed-placed k cs last (node_split l y r),
        added,
      )
