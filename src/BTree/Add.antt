-- ===== src/BTree/Add.antt =====
-- src/btree/tree.ts: `add` against an addition to the sorted list of entries.
use acebase.Prelude.{
  ◌≤◌, ◌≡◌, inl, inr, Bool, true, false, not, ◌&&◌, Option, none, some, List, [], ◌∷◌, ◌++◌, refl,
  sym, ap, ◌∙◌, arith, Bool-cases, Option-cases, if◌then◌else◌,
}
use mathlib.Core.List.{append-nil}
use Prim.Native.Nat.Ordering.{gt}
use acebase.Order.{Order, is_lt, is_eq, is_gt}
use acebase.BTree.{
  Tree, leaf, node, Entries, nil, cons, LeafEntry, EntryValue, Added, kept, leaf_split, node_split,
  Settings, Result, ok, err, ◌>>=◌, to_list, entries_to_list, has_key, push_value, insert_entry,
  put, check_new_entry_args, split_leaf, leaf_add, duplicate_node_key, is_empty, node_add,
  add_below, add_child, new_root, add, size,
}
use acebase.BTree.Put.{AllLess, AllMore, put-less, put-more}
use acebase.BTree.Ordered.{
  AtLeast, Below, InOrder, IsOrdered, AreOrdered, last_bound, AtLeast-of_not_less,
}
use acebase.BTree.Split.{added_list, IsAdded, split_leaf-IsAdded}
use acebase.BTree.Insert.{
  child_lo, child_hi, child, before, after, before-child-after, before-AllLess, after-AllMore,
  not_less,
}
use acebase.BTree.Place.{node_add-IsAdded}
use acebase.BTree.Descent.{assert_last-passes}

-- What a successful answer has.
abbrev pub Holds {ℓ κ} : {A : Type ℓ} → (A → Type κ) → Result A → Type κ
Holds P (ok a) = P a
Holds P (err e) = Unit

module _ {K : Type 0} {M : Type 0} ⦃o : Order K⦄ where
  -- The specification: an addition to a sorted list of entries.
  unfoldable pub put_checked :
      Settings → K → EntryValue M → List (LeafEntry K M) → Result (List (LeafEntry K M))
  put_checked c k v es = elim (check_new_entry_args c v) [
    | some e ↦ err e
    | none ↦ put c.unique_keys k v es
  ]

  pub push_value-InOrder :
      (k : K) (v : EntryValue M) (lo hi : Option K) (es : List (LeafEntry K M))
      → InOrder lo hi es
      → InOrder lo hi (push_value k v es)
  push_value-InOrder k v lo hi [] h = h
  push_value-InOrder k v lo hi (e ∷ es) ((w, ws), (m, s)) =
      elim (Bool-cases (is_eq (o.cmp e.key k))) [
        | inl t ↦ rw t ((w, ws), (m, s))
        | inr f ↦
            let (ws', s') = push_value-InOrder k v lo hi es (ws, s) in
            rw f ((w, ws'), (push_value-AllMore e.key es m, s'))
      ]
    where
      push_value-AllMore :
          (x : K) (es : List (LeafEntry K M)) → AllMore x es → AllMore x (push_value k v es)
      push_value-AllMore x [] m = tt
      push_value-AllMore x (e ∷ es) m = ground (arith, push_value-AllMore x es m.1)

  insert_entry-AllMore :
      (a : LeafEntry K M) (x : K) (es : List (LeafEntry K M))
      → o.cmp a.key x ≡ gt
      → AllMore x es
      → AllMore x (insert_entry a es)
  insert_entry-AllMore a x [] h m = (h, tt)
  insert_entry-AllMore a x (e ∷ es) h m = ground (arith, insert_entry-AllMore a x es h m.1)

  AllMore-trans :
      (x y : K) (fs : List (LeafEntry K M)) → o.cmp x y ≡ gt → AllMore x fs → AllMore y fs
  AllMore-trans x y [] h m = tt
  AllMore-trans x y (f ∷ fs) h m = (
    o.cmp_lt_gt y f.key (o.cmp_trans y x f.key (o.cmp_gt_lt x y h) (o.cmp_gt_lt f.key x m.0)),
    AllMore-trans x y fs h m.1,
  )

  pub insert_entry-InOrder :
      (a : LeafEntry K M) (lo hi : Option K) (es : List (LeafEntry K M))
      → AtLeast lo a.key
      → Below hi a.key
      → has_key a.key es ≡ false
      → InOrder lo hi es
      → InOrder lo hi (insert_entry a es)
  insert_entry-InOrder a lo hi [] l h n v = (((l, h), tt), (tt, tt))
  insert_entry-InOrder a lo hi (e ∷ es) l h n ((w, ws), (m, s)) =
      elim (Bool-cases (is_gt (o.cmp e.key a.key))) [
        | inl t ↦
            let t_gt : o.cmp e.key a.key ≡ gt = ground arith in
            rw t (((l, h), (w, ws)), ((t_gt, AllMore-trans e.key a.key es t_gt m), (m, s)))
        | inr f ↦
            let (ws', s') = insert_entry-InOrder a lo hi es l h (ground arith) (ws, s) in
            rw f (
              (w, ws'),
              (insert_entry-AllMore a e.key es (ground (arith, o.cmp_lt_gt e.key a.key)) m, s'),
            )
      ]

  pub put-InOrder :
      (u : Bool) (k : K) (v : EntryValue M) (lo hi : Option K) (es : List (LeafEntry K M))
      → AtLeast lo k
      → Below hi k
      → InOrder lo hi es
      → Holds (InOrder lo hi) (put u k v es)
  unfolding put
  put-InOrder u k v lo hi es l h w = elim (Bool-cases (has_key k es)) [
    | inl t ↦ rw (t, put) (refused u)
    | inr f ↦ rw (f, put) (insert_entry-InOrder _ lo hi es l h f w)
  ]
    where
      refused :
          (u : Bool)
          → Holds (InOrder lo hi) (if u then err duplicate_node_key else ok (push_value k v es))
      refused true = tt
      refused false = push_value-InOrder k v lo hi es w

  -- An answer of the tree is the answer of the specification on its entries, split over the tree.
  abbrev AddsAs :
      Settings
      → K
      → EntryValue M
      → Option K
      → Option K
      → List (LeafEntry K M)
      → Result (Added K M)
      → Type 0
  AddsAs c k v lo hi es r =
      ((r >>= λ a. ok (added_list a)) ≡ put_checked c k v es) × Holds (IsAdded lo hi) r

module _ {K : Type 0} {M : Type 0} ⦃o : Order K⦄ (c : Settings) (k : K) (v : EntryValue M)
    (m : 2 ≤ c.max_entries) where
  leaf_add-AddsAs :
      (lo hi : Option K) (es : List (LeafEntry K M))
      → AtLeast lo k
      → Below hi k
      → InOrder lo hi es
      → AddsAs c k v lo hi es (leaf_add c k v es)
  unfolding leaf_add put_checked
  leaf_add-AddsAs lo hi es l h w = elim (Option-cases (check_new_entry_args c v)) [
    | inr (e, t) ↦ rw (t, leaf_add, put_checked) (refl, tt)
    | inl t ↦
        rw (t, leaf_add, put_checked)
          (splits (put c.unique_keys k v es) (put-InOrder c.unique_keys k v lo hi es l h w))
  ]
    where
      inserted : Bool
      inserted = not (has_key k es) && not (is_empty es)

      splits :
          (r : Result (List (LeafEntry K M)))
          → Holds (InOrder lo hi) r
          → (((r >>= λ fs. ok (split_leaf c inserted fs)) >>= λ a. ok (added_list a)) ≡ r)
            × Holds (IsAdded lo hi) (r >>= λ fs. ok (split_leaf c inserted fs))
      splits (err e) w = (refl, tt)
      splits (ok fs) w =
          let (list, added) = split_leaf-IsAdded c inserted lo hi fs (omega arith) w in
          (ap ok list, added)

  put_checked-around :
      (pre es post : List (LeafEntry K M))
      → AllLess k pre
      → AllMore k post
      → put_checked c k v (pre ++ (es ++ post))
        ≡ (put_checked c k v es >>= λ fs. ok (pre ++ (fs ++ post)))
  unfolding put_checked
  put_checked-around pre es post a b = elim (Option-cases (check_new_entry_args c v)) [
    | inr (e, t) ↦ rw (t, put_checked) refl
    | inl t ↦
        rw (t, put_checked)
          (put-less c.unique_keys k v pre (es ++ post) a
            ∙ rw (put-more c.unique_keys k v es post b) (regroup (put c.unique_keys k v es)))
  ]
    where
      regroup :
          (r : Result (List (LeafEntry K M)))
          → ((r >>= λ fs. ok (fs ++ post)) >>= λ gs. ok (pre ++ gs))
            ≡ (r >>= λ fs. ok (pre ++ (fs ++ post)))
      regroup (ok fs) = refl
      regroup (err e) = refl

  node_add-AddsAs :
      (lo hi : Option K) (cs : Entries K M) (last : Tree K M) (r : Result (Added K M))
      → AreOrdered lo hi cs
      → IsOrdered (last_bound lo cs) hi last
      → 1 ≤ size cs
      → AddsAs c k v (child_lo lo k cs) (child_hi hi k cs) (child k cs last) r
      → AddsAs c k v lo hi (entries_to_list cs ++ to_list last) (r >>= λ a. node_add c k cs last a)
  node_add-AddsAs lo hi cs last r w w' filled (e, h) = answer r e h
    where
      around : put_checked c k v (entries_to_list cs ++ to_list last) ≡ (
          put_checked c k v (child k cs last) >>= λ fs. ok (before k cs ++ (fs ++ after k cs last)))
      around =
          ap (put_checked c k v) (sym (before-child-after k cs last))
          ∙ put_checked-around (before k cs) (child k cs last) (after k cs last)
              (before-AllLess k lo hi cs w) (after-AllMore k lo hi cs last w w')

      answer :
          (r : Result (Added K M))
          → (r >>= λ a. ok (added_list a)) ≡ put_checked c k v (child k cs last)
          → Holds (IsAdded (child_lo lo k cs) (child_hi hi k cs)) r
          → AddsAs c k v lo hi
              (entries_to_list cs ++ to_list last)
              (r >>= λ a. node_add c k cs last a)
      answer (err x) e h = (rw (around, ← e) refl, tt)
      answer (ok a) e h =
          let (b, done, list, added) = node_add-IsAdded c k lo hi cs last a m (w, w', filled) h in
          rw done (rw (around, ← e) (ap ok list), added)

  mutual
    unfolding add_below to_list

    add_below-AddsAs :
        (t : Tree K M) (lo hi : Option K)
        → IsOrdered lo hi t
        → AtLeast lo k
        → Below hi k
        → AddsAs c k v lo hi (to_list t) (add_below c t k v)
    add_below-AddsAs (leaf es) lo hi w l h = leaf_add-AddsAs lo hi es l h w
    add_below-AddsAs (node cs last) lo hi w l h =
        rw (assert_last-passes cs (add_below c last k v) w.2) (
          node_add-AddsAs lo hi cs last _ w.0 w.1 w.2 (
            add_child-AddsAs cs lo hi last (add_below c last k v) w.0 l h
              (λ l'. add_below-AddsAs last (last_bound lo cs) hi w.1 l' h)))

    add_child-AddsAs :
        (cs : Entries K M) (lo hi : Option K) (last : Tree K M) (r : Result (Added K M))
        → AreOrdered lo hi cs
        → AtLeast lo k
        → Below hi k
        → (AtLeast (last_bound lo cs) k → AddsAs c k v (last_bound lo cs) hi (to_list last) r)
        → AddsAs c k v
            (child_lo lo k cs)
            (child_hi hi k cs)
            (child k cs last)
            (add_child c cs k v r)
    add_child-AddsAs nil lo hi last r w l h f = f l
    add_child-AddsAs (cons t x cs) lo hi last r w l h f = elim (Bool-cases (is_lt (o.cmp k x))) [
      | inl e ↦ rw e (add_below-AddsAs t lo (some x) w.2 l (ground arith))
      | inr e ↦ rw e (
          add_child-AddsAs cs (some x) hi last r w.3 (AtLeast-of_not_less k x (not_less k x e)) h f)
    ]

  new_root-list : (a : Added K M) → to_list (new_root a) ≡ added_list a
  unfolding to_list
  new_root-list (kept t) = refl
  new_root-list (leaf_split l y r) = ap (λ es. es ++ to_list r) (append-nil (to_list l))
  new_root-list (node_split l y r) = ap (λ es. es ++ to_list r) (append-nil (to_list l))

  new_root-IsOrdered : (a : Added K M) → IsAdded none none a → IsOrdered none none (new_root a)
  new_root-IsOrdered (kept t) w = w
  new_root-IsOrdered (leaf_split l y r) (_, _, w, w') = ((tt, tt, w, tt), w', omega arith)
  new_root-IsOrdered (node_split l y r) (_, _, w, w') = ((tt, tt, w, tt), w', omega arith)

  -- With at least two entries per node allowed, `add` on an ordered tree, whose nodes all have
  -- entries: the entries of the new tree are those of the sorted list with the value put in, an error
  -- is the error of that list, and the new tree is ordered and its nodes all have entries.
  pub add-refines :
      (t : Tree K M)
      → IsOrdered none none t
      → ((add c t k v >>= λ u. ok (to_list u)) ≡ put_checked c k v (to_list t))
        × Holds (IsOrdered none none) (add c t k v)
  unfolding add
  add-refines t w = root (add_below c t k v) (add_below-AddsAs t none none w tt tt)
    where
      root :
          (r : Result (Added K M))
          → AddsAs c k v none none (to_list t) r
          → (((r >>= λ a. ok (new_root a)) >>= λ u. ok (to_list u)) ≡ put_checked c k v (to_list t))
            × Holds (IsOrdered none none) (r >>= λ a. ok (new_root a))
      root (ok a) (e, h) = (ap ok (new_root-list a) ∙ e, new_root-IsOrdered a h)
      root (err x) (e, h) = (e, tt)
