-- ===== src/TreeBuilder/Move.antt =====
-- src/btree/tree-builder.ts: the entries that a parent with too few of them gets from the one before it.
use acebase.Prelude.{
  ℕ, zero, suc, ◌+◌, ◌≤◌, ◌≡◌, ◌≢◌, some, List, [], ◌∷◌, ◌++◌, refl, sym, ap, ◌∙◌, arith,
}
use mathlib.Core.List.{append_assoc}
use acebase.BTree.{Tree, Entries, nil, cons, size, LeafEntry, to_list, entries_to_list}
use acebase.TreeBuilder.{returns, Parent, push, head_key, first_key, first_child, move_entries}
use acebase.TreeBuilder.Built.{
  Sizes, IsBuilt, AreBuilt, HasChildren, parent_list, to_list-ne-nil, first_key-IsBuilt,
  head_key-append, append-ne-nil, entries_to_list-push, size-push, pop_last, AreBuilt-shrink,
  AreBuilt-of_push,
}

module _ {K : Type 0} {M : Type 0} where
  pub head_key-some : (xs : List (LeafEntry K M)) → xs ≢ [] → (x : K) × (head_key xs ≡ some x)
  head_key-some [] h = absurd (h refl)
  head_key-some (e ∷ es) h = (e.key, refl)

  -- What `move_entries` leaves of two parents: `n` more entries in the second.
  abbrev pub IsMoved : Sizes → ℕ → ℕ → Parent K M → Parent K M → Parent K M → Parent K M → Type 0
  IsMoved s d n prev p prev' p' =
      HasChildren s d prev'
      × HasChildren s d p'
      × (size prev'.entries + n ≡ size prev.entries)
      × (size p'.entries ≡ size p.entries + n)
      × (parent_list prev' ++ parent_list p' ≡ parent_list prev ++ parent_list p)

  module _ (s : Sizes) (d : ℕ) (h : 1 ≤ s.least) where
    first_child-key :
        (cs : Entries K M) (gt : Tree K M)
        → AreBuilt s d cs (to_list gt)
        → IsBuilt s d gt
        → first_key (first_child cs gt) ≡ head_key (entries_to_list cs ++ to_list gt)
    unfolding to_list
    first_child-key nil gt b c = first_key-IsBuilt s d gt h c
    first_child-key (cons t x cs) gt b c =
        first_key-IsBuilt s d t h b.0
        ∙ sym (
            head_key-append (to_list t) (entries_to_list cs ++ to_list gt)
              (to_list-ne-nil s d t b.0))
        ∙ ap head_key (sym (append_assoc (to_list t) (entries_to_list cs) (to_list gt)))

    same_lists :
        (before : Entries K M) (t : Tree K M) (x y : K) (prev p : Parent K M)
        → prev.entries ≡ push before t x
        → parent_list (record { entries = before; gt_child = t })
            ++ parent_list (record p { entries = cons prev.gt_child y p.entries })
          ≡ parent_list prev ++ parent_list p
    unfolding to_list
    same_lists before t x y prev p f =
        simp (ap entries_to_list f ∙ entries_to_list-push before t x, append_assoc)

    pub move_entries-IsMoved :
        (n : ℕ) (prev p : Parent K M)
        → HasChildren s d prev
        → HasChildren s d p
        → n ≤ size prev.entries
        → (prev' : Parent K M) × (p' : Parent K M) × (move_entries n prev p ≡ returns (prev', p'))
          × IsMoved s d n prev p prev' p'
    unfolding move_entries
    move_entries-IsMoved zero prev p b c l = (prev, p, refl, (b, c, omega arith, omega arith, refl))
    move_entries-IsMoved (suc n) prev p b c l =
        let (before, t, x, e, f) = pop_last prev.entries (omega arith) in
        let (y, g) = head_key-some (parent_list p) (
          append-ne-nil (entries_to_list p.entries) (to_list p.gt_child)
            (to_list-ne-nil s d p.gt_child c.1)) in
        let k = first_child-key p.entries p.gt_child c.0 c.1 ∙ g in
        let (left, child) = AreBuilt-of_push s d before t x (to_list prev.gt_child) (rw f at b.0) in
        let prev1 : Parent K M = record { entries = before; gt_child = t } in
        let p1 : Parent K M = record p { entries = cons prev.gt_child y p.entries } in
        let (prev2, p2, r, (v, w, i, j, q)) =
          move_entries-IsMoved n prev1 p1
            (
              AreBuilt-shrink s d before (to_list t) (to_list prev.gt_child)
                  (to_list-ne-nil s d t child) left,
              child,
            )
            ((b.1, g, c.0), c.1) (omega (arith, ap size f, size-push before t x)) in
        (
          prev2,
          p2,
          rw e (rw k r),
          (
            v,
            w,
            omega (arith, ap size f, size-push before t x),
            omega arith,
            q ∙ same_lists before t x y prev p f,
          ),
        )
