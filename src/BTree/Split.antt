-- ===== src/BTree/Split.antt =====
-- src/btree/tree-leaf.ts and tree-node.ts: the parts of a leaf or a node that is split.
use acebase.Prelude.{
  ℕ, zero, suc, ◌+◌, ◌≤◌, ◌≡◌, ◌≢◌, inl, inr, Bool, true, Option, none, some, List, [], ◌∷◌, ◌++◌,
  refl, sym, ap, subst, ◌∙◌, arith, Bool-cases, Option-cases, take, drop, length, take-append-drop,
  ◌&&◌, ltb, ltb→lt, ◌-◌,
}
use mathlib.Core.List.{append_assoc, append-nil}
use Prim.Native.Nat.Ordering.{lt, gt}
use acebase.Order.{Order}
use acebase.BTree.{
  Tree, node, Entries, nil, cons, LeafEntry, Added, kept, leaf_split, node_split, Settings,
  split_index, to_list, entries_to_list, cut, size, halves, split_leaf, check_size,
}
use acebase.BTree.Put.{AllMore}
use acebase.BTree.Ordered.{
  AtLeast, Above, Below, AllWithin, InOrder, IsOrdered, AreOrdered, last_bound,
}

module _ {K : Type 0} {M : Type 0} where
  -- The entries that an addition leaves in a child, or in its two halves.
  abbrev pub added_list : Added K M → List (LeafEntry K M)
  added_list (kept t) = to_list t
  added_list (leaf_split l y r) = to_list l ++ to_list r
  added_list (node_split l y r) = to_list l ++ to_list r

module _ {K : Type 0} ⦃o : Order K⦄ where
  AtLeast-Above : (lo : Option K) (x y : K) → AtLeast lo x → o.cmp y x ≡ gt → Above lo y
  AtLeast-Above none x y h g = tt
  AtLeast-Above (some l) x y h g =
      ground (arith, o.cmp_gt_lt y x, o.eq_of_cmp l x, o.cmp_trans l x y)

  Above-trans : (lo : Option K) (x y : K) → Above lo x → o.cmp x y ≡ lt → Above lo y
  Above-trans none x y h g = tt
  Above-trans (some l) x y h g = o.cmp_trans l x y h g

module _ {K : Type 0} {M : Type 0} ⦃o : Order K⦄ where
  -- The halves are ordered, and the key that goes up parts them.
  abbrev pub IsParted : Option K → Option K → Tree K M → K → Tree K M → Type 0
  IsParted lo hi l y r = Above lo y × Below hi y × IsOrdered lo (some y) l × IsOrdered (some y) hi r

  abbrev pub IsAdded : Option K → Option K → Added K M → Type 0
  IsAdded lo hi (kept t) = IsOrdered lo hi t
  IsAdded lo hi (leaf_split l y r) = IsParted lo hi l y r
  IsAdded lo hi (node_split l y r) = IsParted lo hi l y r

  AllWithin-drop :
      (lo hi : Option K) (x : K) (es : List (LeafEntry K M))
      → AllWithin lo hi es
      → AllMore x es
      → AllWithin (some x) hi es
  AllWithin-drop lo hi x [] h m = tt
  AllWithin-drop lo hi x (e ∷ es) h m =
      ((ground (arith, o.cmp_gt_lt e.key x), h.0.1), AllWithin-drop lo hi x es h.1 m.1)

  -- A run of entries, cut before `e`.
  pub InOrder-halves :
      (lo hi : Option K) (a e : LeafEntry K M) (es fs : List (LeafEntry K M))
      → InOrder lo hi (a ∷ es ++ e ∷ fs)
      → Above lo e.key
        × Below hi e.key
        × InOrder lo (some e.key) (a ∷ es)
        × InOrder (some e.key) hi (e ∷ fs)
  InOrder-halves lo hi a e [] fs ((wa, (we, ws)), (ma, (me, ss))) = (
    AtLeast-Above lo a.key e.key wa.0 ma.0,
    we.1,
    (((wa.0, o.cmp_gt_lt e.key a.key ma.0), tt), (tt, tt)),
    (((ground (arith, o.cmp_self e.key), we.1), AllWithin-drop lo hi e.key fs ws me), (me, ss)),
  )
  InOrder-halves lo hi a e (b ∷ es) fs ((wa, ws), (ma, ss)) =
      let (above, below, (w, s), right) = InOrder-halves lo hi b e es fs (ws, ss) in
      (above, below, (((wa.0, a_below (b ∷ es) ma), w), (a_more (b ∷ es) ma, s)), right)
    where
      a_below : (gs : List (LeafEntry K M)) → AllMore a.key (gs ++ e ∷ fs) → o.cmp a.key e.key ≡ lt
      a_below [] m = o.cmp_gt_lt e.key a.key m.0
      a_below (g ∷ gs) m = a_below gs m.1

      a_more : (gs : List (LeafEntry K M)) → AllMore a.key (gs ++ e ∷ fs) → AllMore a.key gs
      a_more [] m = tt
      a_more (g ∷ gs) m = (m.0, a_more gs m.1)

  AddedIs : Option K → Option K → List (LeafEntry K M) → Added K M → Type 0
  AddedIs lo hi es a = (added_list a ≡ es) × IsAdded lo hi a

  halves-IsAdded :
      (lo hi : Option K) (es left right : List (LeafEntry K M))
      → left ≢ []
      → left ++ right ≡ es
      → InOrder lo hi es
      → (added_list (halves left right) ≡ es) × IsAdded lo hi (halves left right)
  unfolding to_list
  halves-IsAdded lo hi es left [] n e v =
      let same = sym (append-nil left) ∙ e in (same, subst (InOrder lo hi) (sym same) v)
  halves-IsAdded lo hi es [] (f ∷ right) n e v = absurd (n refl)
  halves-IsAdded lo hi es (a ∷ left) (f ∷ right) n e v =
      (e, InOrder-halves lo hi a f left right (subst (InOrder lo hi) (sym e) v))

  -- A leaf that is split, or not, holds the same entries, in order.
  pub split_leaf-IsAdded :
      (c : Settings) (inserted : Bool) (lo hi : Option K) (es : List (LeafEntry K M))
      → 1 ≤ c.max_entries
      → InOrder lo hi es
      → (added_list (split_leaf c inserted es) ≡ es) × IsAdded lo hi (split_leaf c inserted es)
  unfolding split_leaf to_list
  split_leaf-IsAdded c inserted lo hi es m v =
      elim (Bool-cases (inserted && ltb c.max_entries (length es))) [
        | inl t ↦
            rw (t, split_leaf)
              (halves-IsAdded lo hi es (take (split_index c) es) (drop (split_index c) es)
                (nonempty es t) (take-append-drop (split_index c) es) v)
        | inr f ↦ rw (f, split_leaf) (refl, v)
      ]
    where
      nonempty :
          (fs : List (LeafEntry K M))
          → (inserted && ltb c.max_entries (length fs)) ≡ true
          → take (split_index c) fs ≢ []
      nonempty [] t = absurd (omega (arith, ltb→lt c.max_entries 0 (ground arith)))
      nonempty (f ∷ fs) t =
          let e : split_index c ≡ suc (split_index c - 1) = omega arith in rw e (λ h. cc)

  -- What `splice` and `shift` cut a node into.
  abbrev CutIs :
      Option K → Option K → Entries K M → Option (Entries K M × Tree K M × K × Entries K M) → Type 0
  CutIs lo hi cs none = Unit
  CutIs lo hi cs (some (before, t, y, after)) =
      (entries_to_list before ++ (to_list t ++ entries_to_list after) ≡ entries_to_list cs)
      × (last_bound (some y) after ≡ last_bound lo cs)
      × Above lo y
      × Below hi y
      × AreOrdered lo (some y) before
      × IsOrdered (last_bound lo before) (some y) t
      × AreOrdered (some y) hi after

  cut-CutIs :
      (i : ℕ) (lo hi : Option K) (cs : Entries K M)
      → AreOrdered lo hi cs
      → CutIs lo hi cs (cut i cs)
  unfolding to_list
  cut-CutIs i lo hi nil v = tt
  cut-CutIs zero lo hi (cons t x cs) v = (refl, refl, v.0, v.1, tt, v.2, v.3)
  cut-CutIs (suc i) lo hi (cons t x cs) v = elim (Option-cases (cut i cs)) [
    | inl e ↦ rw e tt
    | inr ((before, u, y, after), e) ↦
        let (list, bound, above, below, b, m, a) = rw e at (cut-CutIs i (some x) hi cs v.3) in
        rw e (
          append_assoc (to_list t) (entries_to_list before) (to_list u ++ entries_to_list after)
              ∙ ap (◌++◌ (to_list t)) list,
          bound,
          Above-trans lo x y v.0 above,
          below,
          (v.0, above, v.2, b),
          m,
          a,
        )
  ]

  -- How many entries a cut leaves on either side.
  CutSizes : ℕ → ℕ → Option (Entries K M × Tree K M × K × Entries K M) → Type 0
  CutSizes i n none = Unit
  CutSizes i n (some (before, t, y, after)) = (size before ≡ i) × (size after + suc i ≡ n)

  cut-CutSizes : (i : ℕ) (cs : Entries K M) → CutSizes i (size cs) (cut i cs)
  unfolding CutSizes
  cut-CutSizes i nil = tt
  cut-CutSizes zero (cons t x cs) = (refl, omega arith)
  cut-CutSizes (suc i) (cons t x cs) = elim (Option-cases (cut i cs)) [
    | inl e ↦ rw e tt
    | inr ((before, u, y, after), e) ↦
        let (left, right) = rw e at (cut-CutSizes i cs) in rw e (ap suc left, omega arith)
  ]

  -- A node that is split, or not, holds the same entries, in order.
  pub check_size-IsAdded :
      (c : Settings) (lo hi : Option K) (cs : Entries K M) (t : Tree K M)
      → 2 ≤ c.max_entries
      → IsOrdered lo hi (node cs t)
      → (added_list (check_size c (cs, t)) ≡ to_list (node cs t))
        × IsAdded lo hi (check_size c (cs, t))
  unfolding check_size to_list CutSizes
  check_size-IsAdded c lo hi cs t m v = elim (Bool-cases (ltb c.max_entries (size cs))) [
    | inr f ↦ rw (f, check_size) (refl, v)
    | inl many ↦ elim (Option-cases (cut (split_index c) cs)) [
      | inl e ↦ rw (many, check_size) (rw e (refl, v))
      | inr ((before, u, y, after), e) ↦
          let (list, bound, above, below, b, u', a) =
            rw e at (cut-CutIs (split_index c) lo hi cs v.0) in
          let (left, right) = rw e at (cut-CutSizes (split_index c) cs) in
          rw (many, check_size)
            (rw e (
              rw (← list) (simp append_assoc),
              (
                above,
                below,
                (b, u', omega (arith, left)),
                (a, rw bound v.1, omega (arith, left, right, ltb→lt c.max_entries (size cs) many)),
              ),
            ))
    ]
  ]
