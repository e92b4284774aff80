-- ===== src/TreeBuilder/Nodes.antt =====
-- src/btree/tree-builder.ts: the levels above the leafs, up to the root.
use acebase.TreeBuilder.Parents.{add_children-IsLevel}
use acebase.TreeBuilder.Level.{
  parents-count, half_bounds, sizes, parent_lists, KeysAfter, IsParent, lists,
}
use acebase.TreeBuilder.Built.{AreBuilt, parent_list, first_key-IsBuilt, IsBuilt, Sizes}
use acebase.BTree.{nil, size, leaf, to_list}
use acebase.Prelude.{
  inr, inl, ℕ, zero, suc, ◌+◌, ◌-◌, ◌/◌, ◌≤◌, ◌<◌, ◌≡◌, arith, max, All, List, [], ◌∷◌, ◌++◌,
  length, Option, some, ap, sym, ◌∙◌, ◌⊎◌, inl, inr, subst, refl, get_elem?,
}
use mathlib.Core.List.{append_assoc, append-nil}
use acebase.TreeBuilder.{
  returns, counts, node, head_key, Tree, Parent, create_level, to_nodes, next_key,
}
use native.Mathlib.Decide.{dec_lt}

pub parents-one : (e n : ℕ) → 1 ≤ n → n ≤ e + 1 → (counts e n).parents ≡ 1
parents-one e n m l = parents-count e n 0 (n - 1) (omega arith) (omega arith)

module _ {K : Type 0} {M : Type 0} where
  -- The root of a created tree that is not a leaf: `d` levels above the leafs, with one entry at least.
  abbrev pub IsRoot : Sizes → ℕ → Tree K M → Type 0
  IsRoot s d (leaf es) = (d ≡ 1) × (length es ≤ s.per_leaf)
  IsRoot s d (node cs gt) =
      (1 ≤ d)
      × (1 ≤ size cs)
      × (size cs ≤ s.most)
      × AreBuilt s (d - 1) cs (to_list gt)
      × IsBuilt s (d - 1) gt

  lists-to_nodes :
      (ps : List (Parent K M)) (ts : List (Tree K M))
      → lists (to_nodes ps ts) ≡ parent_lists ps ++ lists ts
  unfolding to_nodes to_list
  lists-to_nodes [] ts = refl
  lists-to_nodes (p ∷ ps) ts =
      lists-to_nodes ps (node p.entries p.gt_child ∷ ts)
      ∙ sym (append_assoc (parent_lists ps) (parent_list p) (lists ts))

  length-to_nodes :
      (ps : List (Parent K M)) (ts : List (Tree K M))
      → length (to_nodes ps ts) ≡ length ps + length ts
  unfolding to_nodes
  length-to_nodes [] ts = omega arith
  length-to_nodes (p ∷ ps) ts = omega (arith, length-to_nodes ps (node p.entries p.gt_child ∷ ts))

  KeysAfter-of_next :
      (key_after : ℕ → Option K) (i : ℕ) (ts : List (Tree K M))
      → ((j : ℕ) (u : Tree K M)
          → get_elem? ts (suc j) ≡ some u
          → key_after (i + j) ≡ head_key (to_list u))
      → KeysAfter key_after i ts
  KeysAfter-of_next key_after i [] h = tt
  KeysAfter-of_next key_after i (t ∷ []) h = tt
  KeysAfter-of_next key_after i (t ∷ u ∷ ts) h = (
    ap key_after (omega arith) ∙ h 0 u refl,
    KeysAfter-of_next key_after (suc i) (u ∷ ts)
        (λ j v e. ap key_after (omega arith) ∙ h (suc j) v e),
  )

  All-get_elem? {κ} :
      (P : Tree K M → Type κ) (ts : List (Tree K M)) (i : ℕ) (u : Tree K M)
      → All P ts
      → get_elem? ts i ≡ some u
      → P u
  All-get_elem? P [] i u a e = cc
  All-get_elem? P (t ∷ ts) zero u a e = let same : t ≡ u = cc in subst P same a.0
  All-get_elem? P (t ∷ ts) (suc i) u a e = All-get_elem? P ts i u a.1 e

  module _ (e per_leaf d : ℕ) (two : 2 ≤ e) where
    pub next_key-KeysAfter :
        (ts : List (Tree K M))
        → All (IsBuilt (sizes e per_leaf) d) ts
        → KeysAfter (next_key ts) 0 ts
    next_key-KeysAfter ts a = KeysAfter-of_next (next_key ts) 0 ts λ j u f.
        let z : 0 + j ≡ j = omega arith in
        rw z (
          rw (f, next_key)
            (first_key-IsBuilt (sizes e per_leaf) d u (half_bounds e two).0
              (All-get_elem? (IsBuilt (sizes e per_leaf) d) ts (suc j) u a f)))

    to_nodes-IsBuilt :
        (n : ℕ) (ps : List (Parent K M)) (ts : List (Tree K M))
        → e + 1 < n
        → All (IsParent e per_leaf d n) ps
        → All (IsBuilt (sizes e per_leaf) (suc d)) ts
        → All (IsBuilt (sizes e per_leaf) (suc d)) (to_nodes ps ts)
    unfolding to_nodes
    to_nodes-IsBuilt n [] ts m a b = b
    to_nodes-IsBuilt n (p ∷ ps) ts m a b =
        let z : suc d - 1 ≡ d = omega arith in
        let enough : max 1 (e / 2) ≤ size p.entries = elim a.0.2 [
          | inl l ↦ l
          | inr l ↦ absurd (omega (arith, a.0.1))
        ] in
        to_nodes-IsBuilt n ps (node p.entries p.gt_child ∷ ts) m a.1
          ((omega arith, enough, a.0.1, rw z a.0.0.0, rw z a.0.0.1), b)

    -- The nodes of the next level, or the root if there is only one.
    abbrev IsNext : List (Tree K M) → List (Tree K M) → Type 0
    IsNext ts us =
        (lists us ≡ lists ts)
        × (length us ≡ (counts e (length ts)).parents)
        × ((e + 1 < length ts) × All (IsBuilt (sizes e per_leaf) (suc d)) us
            ⊎ ((u : Tree K M) × (us ≡ u ∷ []) × IsRoot (sizes e per_leaf) (suc d) u))

    to_nodes-one :
        (n : ℕ) (ps : List (Parent K M))
        → 2 ≤ n
        → length ps ≡ 1
        → All (IsParent e per_leaf d n) ps
        → (u : Tree K M) × (to_nodes ps [] ≡ u ∷ []) × IsRoot (sizes e per_leaf) (suc d) u
    unfolding to_nodes
    to_nodes-one n [] m l a = absurd (omega arith)
    to_nodes-one n (p ∷ q ∷ ps) m l a = absurd (omega arith)
    to_nodes-one n (p ∷ []) m l a =
        let z : suc d - 1 ≡ d = omega arith in
        let some_entry : 1 ≤ size p.entries = elim a.0.2 [
          | inl k ↦ omega (arith, half_bounds e two)
          | inr k ↦ omega arith
        ] in
        (
          node p.entries p.gt_child,
          refl,
          (omega arith, some_entry, a.0.1, rw z a.0.0.0, rw z a.0.0.1),
        )

    pub create_level-IsNext :
        (key_after : ℕ → Option K) (t u : Tree K M) (ts : List (Tree K M))
        → All (IsBuilt (sizes e per_leaf) d) (t ∷ u ∷ ts)
        → KeysAfter key_after 0 (t ∷ u ∷ ts)
        → (us : List (Tree K M)) × (create_level e key_after (t ∷ u ∷ ts) ≡ returns us)
          × IsNext (t ∷ u ∷ ts) us
    unfolding create_level to_list
    create_level-IsNext key_after t u ts a k =
        let n : ℕ = length (t ∷ u ∷ ts) in
        let (ps, r, (all, same, count)) =
          add_children-IsLevel e per_leaf d n two key_after 0 t (u ∷ ts) nil [] a k tt (omega arith)
            tt (omega arith) (omega arith) in
        (
          to_nodes ps [],
          rw r refl,
          (
            lists-to_nodes ps [] ∙ append-nil (parent_lists ps) ∙ same,
            length-to_nodes ps [] ∙ omega arith ∙ count,
            elim (dec_lt (e + 1) n) [
              | yes m ↦ inl (m, to_nodes-IsBuilt n ps [] m all tt)
              | no m ↦ inr (
                  to_nodes-one n ps (omega arith)
                    (count ∙ parents-one e n (omega arith) (omega arith)) all)
            ],
          ),
        )
