-- ===== src/TreeBuilder/Parents.antt =====
-- src/btree/tree-builder.ts: the nodes of a level, with their parents set, hold the same entries.
use acebase.TreeBuilder.Move.{head_key-some}
use acebase.BTree.{entries_to_list, to_list}
use acebase.TreeBuilder.Level.{
  is_last-more, is_last-full, parents-count, is_last-end, finish-IsFinished, lists, IsFull,
  KeysAfter, sizes, parent_lists, half_bounds, IsParent,
}
use acebase.TreeBuilder.Built.{
  size-push, AreBuilt-extend, AreBuilt-push, to_list-ne-nil, entries_to_list-push, AreBuilt,
  IsBuilt,
}
use acebase.Prelude.{
  ==_iff, inr, inl, Bool-cases, ℕ, suc, ◌+◌, ◌*◌, ◌/◌, ◌≤◌, ◌≡◌, arith, ltb, ◌==◌, true, false, max,
  All, List, [], ◌∷◌, ◌++◌, length, Option, some, ap, sym, ◌∙◌, refl,
}
use mathlib.Core.List.{append_assoc, append-nil}
use acebase.TreeBuilder.{
  nil, returns, size, Entries, Tree, Parent, LeafEntry, add_children, add_child, counts, is_last,
  finish, push,
}

module _ {K : Type 0} {M : Type 0} (e per_leaf d n : ℕ) (two : 2 ≤ e) where
  finish-full :
      (m : ℕ) (p : Parent K M) (done : List (Parent K M))
      → size p.entries ≡ e
      → finish m (max 1 (e / 2)) p done ≡ returns (p ∷ done)
  unfolding finish
  finish-full m p done h =
      let enough : ltb (size p.entries) (max 1 (e / 2)) ≡ false =
        ground (arith, half_bounds e two) in
      elim (Bool-cases (ltb 1 m)) [ inl a ↦ rw (a, enough) refl | inr a ↦ rw a refl ]

  -- All parents of the level, with the entries that stood below the nodes of the level.
  abbrev IsLevel : List (LeafEntry K M) → List (Parent K M) → Type 0
  IsLevel es ps =
      All (IsParent e per_leaf d n) ps × (parent_lists ps ≡ es) × (length ps ≡ (counts e n).parents)

  add_child-last :
      (key_after : ℕ → Option K) (i : ℕ) (t : Tree K M) (cs : Entries K M)
      (done ps : List (Parent K M))
      → is_last (counts e n) i ≡ true
      → finish (counts e n).parents (max 1 (e / 2)) (record { entries = cs; gt_child = t }) done
        ≡ returns ps
      → add_child (counts e n) key_after i t cs done ≡ returns (nil, ps)
  unfolding add_child
  add_child-last key_after i t cs done ps l f = rw (l, f) refl

  add_child-more :
      (key_after : ℕ → Option K) (i : ℕ) (t : Tree K M) (x : K) (cs : Entries K M)
      (done : List (Parent K M))
      → is_last (counts e n) i ≡ false
      → key_after i ≡ some x
      → add_child (counts e n) key_after i t cs done ≡ returns (push cs t x, done)
  unfolding add_child
  add_child-more key_after i t x cs done l f = rw (l, f) refl

  full_lists :
      (cs : Entries K M) (t : Tree K M) (es : List (LeafEntry K M)) (done : List (Parent K M))
      → parent_lists (record { entries = cs; gt_child = t } ∷ done) ++ (entries_to_list nil ++ es)
        ≡ parent_lists done ++ (entries_to_list cs ++ (to_list t ++ es))
  unfolding to_list
  full_lists cs t es done = simp append_assoc

  push_lists :
      (cs : Entries K M) (t : Tree K M) (x : K) (es : List (LeafEntry K M))
      (done : List (Parent K M))
      → parent_lists done ++ (entries_to_list (push cs t x) ++ es)
        ≡ parent_lists done ++ (entries_to_list cs ++ (to_list t ++ es))
  push_lists cs t x es done = simp (entries_to_list-push, append_assoc)

  pub add_children-IsLevel :
      (key_after : ℕ → Option K) (i : ℕ) (t : Tree K M) (ts : List (Tree K M)) (cs : Entries K M)
      (done : List (Parent K M))
      → All (IsBuilt (sizes e per_leaf) d) (t ∷ ts)
      → KeysAfter key_after i (t ∷ ts)
      → AreBuilt (sizes e per_leaf) d cs (to_list t)
      → size cs ≤ e
      → All (IsFull e per_leaf d n) done
      → i ≡ length done * (e + 1) + size cs
      → n ≡ suc (i + length ts)
      → (ps : List (Parent K M)) × (add_children (counts e n) key_after i (t ∷ ts) cs done
          ≡ returns ps)
        × IsLevel (parent_lists done ++ (entries_to_list cs ++ lists (t ∷ ts))) ps
  unfolding add_children
  add_children-IsLevel key_after i t [] cs done b k c l a p q =
      let parent : Parent K M = record { entries = cs; gt_child = t } in
      let (ps, r, (all, same, count)) =
        finish-IsFinished e per_leaf d n two parent done (c, b.0) l a (omega arith) in
      (
        ps,
        rw (add_child-last key_after i t cs done ps (is_last-end e n i (omega arith)) r) refl,
        (
          all,
          same ∙ rw (append-nil (to_list t)) refl,
          count ∙ sym (parents-count e n (length done) (size cs) (omega arith) l),
        ),
      )
  add_children-IsLevel key_after i t (u ∷ us) cs done b k c l a p q =
      elim (Bool-cases (size cs == e)) [
        | inl full ↦
            let parent : Parent K M = record { entries = cs; gt_child = t } in
            let f : size cs ≡ e = (==_iff (size cs) e).0 full in
            let (ps, r, (all, same, count)) =
              add_children-IsLevel key_after (suc i) u us nil (parent ∷ done) b.1 k.1 tt
                (omega arith) (((c, b.0), f), a) (grind (arith, p, f)) (omega arith) in
            (
              ps,
              rw
                  (add_child-last key_after i t cs done (parent ∷ done)
                    (is_last-full e n i (length done) (p ∙ ap (λ j. length done * (e + 1) + j) f))
                    (finish-full (counts e n).parents parent done f))
                  r,
              (all, same ∙ full_lists cs t (to_list u ++ lists us) done, count),
            )
        | inr more ↦
            let (x, g) = head_key-some (to_list u) (to_list-ne-nil (sizes e per_leaf) d u b.1.0) in
            let (ps, r, (all, same, count)) =
              add_children-IsLevel key_after (suc i) u us (push cs t x) done b.1 k.1
                (AreBuilt-push (sizes e per_leaf) d cs t x (to_list u)
                  (AreBuilt-extend (sizes e per_leaf) d cs (to_list t) (to_list u)
                    (to_list-ne-nil (sizes e per_leaf) d t b.0) c)
                  b.0 g)
                (ground (arith, size-push cs t x)) a (omega (arith, size-push cs t x))
                (omega arith) in
            (
              ps,
              rw
                  (add_child-more key_after i t x cs done
                    (is_last-more e n i (length done) (size cs) p (ground arith) (omega arith))
                    (k.0 ∙ g))
                  r,
              (all, same ∙ push_lists cs t x (to_list u ++ lists us) done, count),
            )
      ]
