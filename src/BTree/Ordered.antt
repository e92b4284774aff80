-- ===== src/BTree/Ordered.antt =====
-- src/btree/tree.ts: the order of a B+tree. Left of an entry stand smaller keys than the entry's, right
-- of it no smaller ones; entries rise strictly, in nodes and in leaves. Every node has an entry.
use acebase.Prelude.{◌≤◌, ◌≡◌, ◌≢◌, Option, none, some, List, [], ◌∷◌, ◌++◌, arith, All}
use Prim.Native.Nat.Ordering.{lt, gt}
use mathlib.Core.List.{append_assoc}
use acebase.Order.{Order}
use acebase.BTree.{Tree, leaf, node, Entries, nil, cons, size, LeafEntry, to_list, entries_to_list}
use acebase.BTree.Put.{AllLess, AllMore}

module _ {K : Type 0} ⦃o : Order K⦄ where
  -- Bounds of a key; `none` is no bound.
  abbrev pub AtLeast : Option K → K → Type 0
  AtLeast none k = Unit
  AtLeast (some l) k = o.cmp l k ≢ gt

  abbrev pub Above : Option K → K → Type 0
  Above none k = Unit
  Above (some l) k = o.cmp l k ≡ lt

  abbrev pub Below : Option K → K → Type 0
  Below none k = Unit
  Below (some h) k = o.cmp k h ≡ lt

  pub Above-AtLeast : (lo : Option K) (x k : K) → Above lo x → AtLeast (some x) k → AtLeast lo k
  Above-AtLeast none x k h g = tt
  Above-AtLeast (some l) x k h g = ground (arith, o.eq_of_cmp x k, o.cmp_trans l x k)

  pub Below-trans : (hi : Option K) (x k : K) → Below hi x → Below (some x) k → Below hi k
  Below-trans none x k h g = tt
  Below-trans (some u) x k h g = o.cmp_trans k x u g h

  pub AtLeast-of_not_less : (k x : K) → o.cmp k x ≢ lt → AtLeast (some x) k
  AtLeast-of_not_less k x h g = h (o.cmp_gt_lt x k g)

module _ {K : Type 0} {M : Type 0} ⦃o : Order K⦄ where
  abbrev pub IsSorted : List (LeafEntry K M) → Type 0
  IsSorted [] = Unit
  IsSorted (e ∷ es) = AllMore e.key es × IsSorted es

  abbrev pub AllWithin : Option K → Option K → List (LeafEntry K M) → Type 0
  AllWithin lo hi es = All (λ e. AtLeast lo e.key × Below hi e.key) es

  -- The bound below the child behind the last entry.
  abbrev pub last_bound : Option K → Entries K M → Option K
  last_bound lo nil = lo
  last_bound lo (cons t x cs) = last_bound (some x) cs

  abbrev mutual
    pub IsOrdered : Option K → Option K → Tree K M → Type 0
    IsOrdered lo hi (leaf es) = AllWithin lo hi es × IsSorted es
    IsOrdered lo hi (node cs t) =
        AreOrdered lo hi cs × IsOrdered (last_bound lo cs) hi t × (1 ≤ size cs)

    pub AreOrdered : Option K → Option K → Entries K M → Type 0
    AreOrdered lo hi nil = Unit
    AreOrdered lo hi (cons t x cs) =
        Above lo x × Below hi x × IsOrdered lo (some x) t × AreOrdered (some x) hi cs

module _ {K : Type 0} {M : Type 0} ⦃o : Order K⦄ where
  -- The entries of a tree keep to its bounds, and rise.
  abbrev pub InOrder : Option K → Option K → List (LeafEntry K M) → Type 0
  InOrder lo hi es = AllWithin lo hi es × IsSorted es

  pub AllLess-of_Below :
      (k x : K) (lo : Option K) (es : List (LeafEntry K M))
      → o.cmp k x ≢ lt
      → AllWithin lo (some x) es
      → AllLess k es
  AllLess-of_Below k x lo [] n h = tt
  AllLess-of_Below k x lo (e ∷ es) n h = (less e.key h.0.1, AllLess-of_Below k x lo es n h.1)
    where
      less : (j : K) → o.cmp j x ≡ lt → o.cmp j k ≡ lt
      less j b = ground (arith, o.eq_of_cmp k x, o.cmp_gt_lt k x, o.cmp_trans j x k)

  pub AllMore-of_AtLeast :
      (k x : K) (hi : Option K) (es : List (LeafEntry K M))
      → o.cmp k x ≡ lt
      → AllWithin (some x) hi es
      → AllMore k es
  AllMore-of_AtLeast k x hi [] n h = tt
  AllMore-of_AtLeast k x hi (e ∷ es) n h = (more e.key h.0.0, AllMore-of_AtLeast k x hi es n h.1)
    where
      more : (j : K) → o.cmp x j ≢ gt → o.cmp j k ≡ gt
      more j b = ground (arith, o.eq_of_cmp x j, o.cmp_lt_gt k j, o.cmp_trans k x j)

  AllWithin-lo :
      (lo : Option K) (x : K) (hi : Option K) (es : List (LeafEntry K M))
      → Above lo x
      → AllWithin (some x) hi es
      → AllWithin lo hi es
  AllWithin-lo lo x hi [] a h = tt
  AllWithin-lo lo x hi (e ∷ es) a h =
      ((Above-AtLeast lo x e.key a h.0.0, h.0.1), AllWithin-lo lo x hi es a h.1)

  AllWithin-hi :
      (lo hi : Option K) (x : K) (es : List (LeafEntry K M))
      → Below hi x
      → AllWithin lo (some x) es
      → AllWithin lo hi es
  AllWithin-hi lo hi x [] a h = tt
  AllWithin-hi lo hi x (e ∷ es) a h =
      ((h.0.0, Below-trans hi x e.key a h.0.1), AllWithin-hi lo hi x es a h.1)

  AllMore-append :
      (k : K) (es fs : List (LeafEntry K M)) → AllMore k es → AllMore k fs → AllMore k (es ++ fs)
  AllMore-append k [] fs a b = b
  AllMore-append k (e ∷ es) fs a b = (a.0, AllMore-append k es fs a.1 b)

  -- What lies below `x` and what does not, one after the other.
  pub InOrder-append :
      (lo hi : Option K) (x : K) (es fs : List (LeafEntry K M))
      → Above lo x
      → Below hi x
      → InOrder lo (some x) es
      → InOrder (some x) hi fs
      → InOrder lo hi (es ++ fs)
  InOrder-append lo hi x [] fs a b u v = (AllWithin-lo lo x hi fs a v.0, v.1)
  InOrder-append lo hi x (e ∷ es) fs a b ((w, ws), (m, s)) v =
      let (within, sorted) = InOrder-append lo hi x es fs a b (ws, s) v in
      (
        ((w.0, Below-trans hi x e.key b w.1), within),
        (AllMore-append e.key es fs m (AllMore-of_AtLeast e.key x hi fs w.1 v.0), sorted),
      )

  mutual
    unfolding to_list

    to_list-InOrder' :
        (t : Tree K M) (lo hi : Option K) → IsOrdered lo hi t → InOrder lo hi (to_list t)
    to_list-InOrder' (leaf es) lo hi v = v
    to_list-InOrder' (node cs t) lo hi v =
        entries-InOrder cs lo hi (to_list t) v.0 (to_list-InOrder' t (last_bound lo cs) hi v.1)

    entries-InOrder :
        (cs : Entries K M) (lo hi : Option K) (es : List (LeafEntry K M))
        → AreOrdered lo hi cs
        → InOrder (last_bound lo cs) hi es
        → InOrder lo hi (entries_to_list cs ++ es)
    entries-InOrder nil lo hi es v w = w
    entries-InOrder (cons t x cs) lo hi es v w = rw append_assoc (
        InOrder-append lo hi x (to_list t) (entries_to_list cs ++ es) v.0 v.1
          (to_list-InOrder' t lo (some x) v.2) (entries-InOrder cs (some x) hi es v.3 w))

  pub entries_to_list-InOrder :
      (cs : Entries K M) (lo hi : Option K) (es : List (LeafEntry K M))
      → AreOrdered lo hi cs
      → InOrder (last_bound lo cs) hi es
      → InOrder lo hi (entries_to_list cs ++ es)
  entries_to_list-InOrder cs lo hi es v w = entries-InOrder cs lo hi es v w

  -- The entries of an ordered tree, from the first leaf to the last, rise strictly.
  pub to_list-InOrder :
      (t : Tree K M) (lo hi : Option K) → IsOrdered lo hi t → InOrder lo hi (to_list t)
  to_list-InOrder t lo hi v = to_list-InOrder' t lo hi v
