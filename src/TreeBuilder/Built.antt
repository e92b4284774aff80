-- ===== src/TreeBuilder/Built.antt =====
-- src/btree/tree-builder.ts: what the parents of a level are like, and how entries move between two of
-- them. A key stands before the children that it is the first key of, and each child has entries.
use acebase.Prelude.{
  ℕ, suc, ◌-◌, ◌≤◌, ◌≡◌, ◌≢◌, some, List, [], ◌∷◌, ◌++◌, refl, sym, ap, ◌∙◌, arith, length,
}
use mathlib.Core.List.{append_assoc, append-nil}
use acebase.BTree.{Tree, leaf, node, Entries, nil, cons, size, LeafEntry, to_list, entries_to_list}
use acebase.TreeBuilder.{Parent, push, pop, head_key, first_key}

-- The least and the greatest number of entries of a node, and the greatest of a leaf.
pub record Sizes : Type 0 where
  pub least : ℕ
  pub most : ℕ
  pub per_leaf : ℕ

module _ {K : Type 0} {M : Type 0} where
  abbrev mutual
    -- A node of a level, `d` levels above the leafs.
    pub IsBuilt : Sizes → ℕ → Tree K M → Type 0
    IsBuilt s d (leaf es) = (d ≡ 0) × (es ≢ []) × (length es ≤ s.per_leaf)
    IsBuilt s d (node cs gt) =
        (1 ≤ d)
        × (s.least ≤ size cs)
        × (size cs ≤ s.most)
        × AreBuilt s (d - 1) cs (to_list gt)
        × IsBuilt s (d - 1) gt

    -- The entries of a node before a child, or children, with the entries `rest`.
    pub AreBuilt : Sizes → ℕ → Entries K M → List (LeafEntry K M) → Type 0
    AreBuilt s d nil rest = Unit
    AreBuilt s d (cons t x cs) rest =
        IsBuilt s d t × (head_key (entries_to_list cs ++ rest) ≡ some x) × AreBuilt s d cs rest

  -- A parent that has got all children but for what may move.
  abbrev pub HasChildren : Sizes → ℕ → Parent K M → Type 0
  HasChildren s d p = AreBuilt s d p.entries (to_list p.gt_child) × IsBuilt s d p.gt_child

  abbrev pub parent_list : Parent K M → List (LeafEntry K M)
  parent_list p = entries_to_list p.entries ++ to_list p.gt_child

module _ {K : Type 0} {M : Type 0} where
  pub append-ne-nil : (xs ys : List (LeafEntry K M)) → ys ≢ [] → (xs ++ ys) ≢ []
  append-ne-nil [] ys h e = h e
  append-ne-nil (x ∷ xs) ys h e = cc

  pub head_key-append : (xs ys : List (LeafEntry K M)) → xs ≢ [] → head_key (xs ++ ys) ≡ head_key xs
  head_key-append [] ys h = absurd (h refl)
  head_key-append (x ∷ xs) ys h = refl

  module _ (s : Sizes) where
    pub to_list-ne-nil : (d : ℕ) (t : Tree K M) → IsBuilt s d t → to_list t ≢ []
    unfolding to_list
    to_list-ne-nil d (leaf es) b = b.1
    to_list-ne-nil d (node cs gt) b =
        append-ne-nil (entries_to_list cs) (to_list gt) (to_list-ne-nil (d - 1) gt b.4)

    -- The walk down the first children ends at the first entry.
    pub first_key-IsBuilt :
        (d : ℕ) (t : Tree K M) → 1 ≤ s.least → IsBuilt s d t → first_key t ≡ head_key (to_list t)
    unfolding to_list first_key
    first_key-IsBuilt d (leaf es) h b = refl
    first_key-IsBuilt d (node nil gt) h b = absurd (omega arith)
    first_key-IsBuilt d (node (cons t x cs) gt) h b =
        first_key-IsBuilt (d - 1) t h b.3.0
        ∙ sym (
            head_key-append (to_list t) (entries_to_list cs ++ to_list gt)
              (to_list-ne-nil (d - 1) t b.3.0))
        ∙ ap head_key (sym (append_assoc (to_list t) (entries_to_list cs) (to_list gt)))

  pub entries_to_list-push :
      (cs : Entries K M) (t : Tree K M) (x : K)
      → entries_to_list (push cs t x) ≡ entries_to_list cs ++ to_list t
  unfolding to_list push
  entries_to_list-push nil t x = append-nil (to_list t)
  entries_to_list-push (cons u y cs) t x = simp (entries_to_list-push cs t x, append_assoc)

  pub size-push : (cs : Entries K M) (t : Tree K M) (x : K) → size (push cs t x) ≡ suc (size cs)
  unfolding push
  size-push nil t x = refl
  size-push (cons u y cs) t x = ap suc (size-push cs t x)

  -- `pop` undoes `push`, and every entry list but the empty one is a push.
  pub pop_last :
      (cs : Entries K M)
      → 1 ≤ size cs
      → (before : Entries K M) × (t : Tree K M) × (x : K) × (pop cs ≡ some (before, t, x))
        × (cs ≡ push before t x)
  unfolding push pop
  pop_last nil h = absurd (omega arith)
  pop_last (cons t x nil) h = (nil, t, x, refl, refl)
  pop_last (cons t x (cons u y cs)) h =
      let (before, l, z, e, f) = pop_last (cons u y cs) (omega arith) in
      (cons t x before, l, z, rw e refl, ap (cons t x) f)

  module _ (s : Sizes) (d : ℕ) where
    head_key-shrink :
        (front xs ys : List (LeafEntry K M))
        → xs ≢ []
        → head_key (front ++ (xs ++ ys)) ≡ head_key (front ++ xs)
    head_key-shrink front xs ys h =
        ap head_key (sym (append_assoc front xs ys))
        ∙ head_key-append (front ++ xs) ys (append-ne-nil front xs h)

    pub AreBuilt-shrink :
        (cs : Entries K M) (xs ys : List (LeafEntry K M))
        → xs ≢ []
        → AreBuilt s d cs (xs ++ ys)
        → AreBuilt s d cs xs
    AreBuilt-shrink nil xs ys h b = tt
    AreBuilt-shrink (cons t x cs) xs ys h b = (
      b.0,
      sym (head_key-shrink (entries_to_list cs) xs ys h) ∙ b.1,
      AreBuilt-shrink cs xs ys h b.2,
    )

    pub AreBuilt-extend :
        (cs : Entries K M) (xs ys : List (LeafEntry K M))
        → xs ≢ []
        → AreBuilt s d cs xs
        → AreBuilt s d cs (xs ++ ys)
    AreBuilt-extend nil xs ys h b = tt
    AreBuilt-extend (cons t x cs) xs ys h b =
        (b.0, head_key-shrink (entries_to_list cs) xs ys h ∙ b.1, AreBuilt-extend cs xs ys h b.2)

    pub AreBuilt-push :
        (cs : Entries K M) (t : Tree K M) (x : K) (rest : List (LeafEntry K M))
        → AreBuilt s d cs (to_list t ++ rest)
        → IsBuilt s d t
        → head_key rest ≡ some x
        → AreBuilt s d (push cs t x) rest
    unfolding push to_list
    AreBuilt-push nil t x rest b c e = (c, e, tt)
    AreBuilt-push (cons u y cs) t x rest b c e = (
      b.0,
      ap (λ es. head_key (es ++ rest)) (entries_to_list-push cs t x)
          ∙ ap head_key (append_assoc (entries_to_list cs) (to_list t) rest)
          ∙ b.1,
      AreBuilt-push cs t x rest b.2 c e,
    )

    pub AreBuilt-of_push :
        (cs : Entries K M) (t : Tree K M) (x : K) (rest : List (LeafEntry K M))
        → AreBuilt s d (push cs t x) rest
        → AreBuilt s d cs (to_list t ++ rest) × IsBuilt s d t
    unfolding push to_list
    AreBuilt-of_push nil t x rest b = (tt, b.0)
    AreBuilt-of_push (cons u y cs) t x rest b =
        let (c, g) = AreBuilt-of_push cs t x rest b.2 in
        (
          (
            b.0,
            sym (
                  ap (λ es. head_key (es ++ rest)) (entries_to_list-push cs t x)
                  ∙ ap head_key (append_assoc (entries_to_list cs) (to_list t) rest))
                ∙ b.1,
            c,
          ),
          g,
        )
