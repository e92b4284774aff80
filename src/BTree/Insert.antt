-- ===== src/BTree/Insert.antt =====
-- src/btree/tree-node.ts: where a node puts the child, or the two halves, that an addition left, by
-- child and by key.
use acebase.Prelude.{
  ◌≡◌, ◌≢◌, inl, inr, false, Option, some, List, [], ◌∷◌, ◌++◌, sym, ap, ◌∙◌, arith, Bool-cases,
  if◌then◌else◌,
}
use mathlib.Core.List.{append_assoc, append-nil}
use Prim.Native.Nat.Ordering.{lt}
use acebase.Order.{Order, is_lt}
use acebase.BTree.{
  Tree, Entries, nil, cons, LeafEntry, Added, kept, leaf_split, node_split, to_list,
  entries_to_list, replace, insert_at_child,
}
use acebase.BTree.Put.{AllLess, AllMore}
use acebase.BTree.Ordered.{
  IsOrdered, AreOrdered, last_bound, AllLess-of_Below, AllMore-of_AtLeast, to_list-InOrder,
  entries_to_list-InOrder,
}
use acebase.BTree.Split.{added_list}

module _ {K : Type 0} ⦃o : Order K⦄ where
  pub not_less : (k x : K) → is_lt (o.cmp k x) ≡ false → o.cmp k x ≢ lt
  not_less k x h g = ground arith

module _ {K : Type 0} {M : Type 0} ⦃o : Order K⦄ where
  -- The bounds of the child on the way to `k`.
  abbrev pub child_lo : Option K → K → Entries K M → Option K
  child_lo lo k nil = lo
  child_lo lo k (cons t x cs) = if is_lt (o.cmp k x) then lo else child_lo (some x) k cs

  abbrev pub child_hi : Option K → K → Entries K M → Option K
  child_hi hi k nil = hi
  child_hi hi k (cons t x cs) = if is_lt (o.cmp k x) then some x else child_hi hi k cs

  -- The entries of that child, those before it, and those behind it.
  abbrev pub before : K → Entries K M → List (LeafEntry K M)
  before k nil = []
  before k (cons t x cs) = if is_lt (o.cmp k x) then [] else to_list t ++ before k cs

  abbrev pub child : K → Entries K M → Tree K M → List (LeafEntry K M)
  child k nil last = to_list last
  child k (cons t x cs) last = if is_lt (o.cmp k x) then to_list t else child k cs last

  abbrev pub after : K → Entries K M → Tree K M → List (LeafEntry K M)
  after k nil last = []
  after k (cons t x cs) last =
      if is_lt (o.cmp k x) then entries_to_list cs ++ to_list last else after k cs last

  pub before-child-after :
      (k : K) (cs : Entries K M) (last : Tree K M)
      → before k cs ++ (child k cs last ++ after k cs last) ≡ entries_to_list cs ++ to_list last
  unfolding to_list
  before-child-after k nil last = append-nil (to_list last)
  before-child-after k (cons t x cs) last = elim (Bool-cases (is_lt (o.cmp k x))) [
    | inl e ↦ rw e (sym (append_assoc (to_list t) (entries_to_list cs) (to_list last)))
    | inr e ↦ rw e (
        append_assoc (to_list t) (before k cs) _
        ∙ ap (◌++◌ (to_list t)) (before-child-after k cs last)
        ∙ sym (append_assoc (to_list t) (entries_to_list cs) (to_list last)))
  ]

  pub before-AllLess :
      (k : K) (lo hi : Option K) (cs : Entries K M) → AreOrdered lo hi cs → AllLess k (before k cs)
  before-AllLess k lo hi nil v = tt
  before-AllLess k lo hi (cons t x cs) v = elim (Bool-cases (is_lt (o.cmp k x))) [
    | inl e ↦ rw e tt
    | inr e ↦ rw e (
        AllLess-append (to_list t) (before k cs)
          (AllLess-of_Below k x lo (to_list t) (not_less k x e)
            (to_list-InOrder t lo (some x) v.2).0)
          (before-AllLess k (some x) hi cs v.3))
  ]
    where
      AllLess-append :
          (es fs : List (LeafEntry K M)) → AllLess k es → AllLess k fs → AllLess k (es ++ fs)
      AllLess-append [] fs a b = b
      AllLess-append (e ∷ es) fs a b = (a.0, AllLess-append es fs a.1 b)

  pub after-AllMore :
      (k : K) (lo hi : Option K) (cs : Entries K M) (last : Tree K M)
      → AreOrdered lo hi cs
      → IsOrdered (last_bound lo cs) hi last
      → AllMore k (after k cs last)
  after-AllMore k lo hi nil last v w = tt
  after-AllMore k lo hi (cons t x cs) last v w = elim (Bool-cases (is_lt (o.cmp k x))) [
    | inl e ↦ rw e (
        AllMore-of_AtLeast k x hi (entries_to_list cs ++ to_list last) (ground arith)
          (entries_to_list-InOrder cs (some x) hi (to_list last) v.3
            (to_list-InOrder last (last_bound (some x) cs) hi w)).0)
    | inr e ↦ rw e (after-AllMore k (some x) hi cs last v.3 w)
  ]

  -- The children with what the addition left, put at the place of the child.
  abbrev pub placed : K → Entries K M → Tree K M → Added K M → Entries K M × Tree K M
  placed k cs last (kept t) = replace k t cs last
  placed k cs last (leaf_split l y r) = insert_at_child k l y r cs last
  placed k cs last (node_split l y r) = insert_at_child k l y r cs last

  abbrev pub listed : Entries K M × Tree K M → List (LeafEntry K M)
  listed p = entries_to_list p.0 ++ to_list p.1

  listed-replace :
      (k : K) (cs : Entries K M) (last u : Tree K M)
      → listed (replace k u cs last) ≡ before k cs ++ (to_list u ++ after k cs last)
  unfolding to_list
  listed-replace k nil last u = sym (append-nil (to_list u))
  listed-replace k (cons t x cs) last u = elim (Bool-cases (is_lt (o.cmp k x))) [
    | inl e ↦ rw e (append_assoc (to_list u) (entries_to_list cs) (to_list last))
    | inr e ↦ rw e (
        append_assoc (to_list t) _ _
        ∙ ap (◌++◌ (to_list t)) (listed-replace k cs last u)
        ∙ sym (append_assoc (to_list t) (before k cs) _))
  ]

  listed-insert_at_child :
      (k y : K) (cs : Entries K M) (last l r : Tree K M)
      → listed (insert_at_child k l y r cs last)
        ≡ before k cs ++ ((to_list l ++ to_list r) ++ after k cs last)
  unfolding to_list
  listed-insert_at_child k y nil last l r = simp (append_assoc, append-nil)
  listed-insert_at_child k y (cons t x cs) last l r = elim (Bool-cases (is_lt (o.cmp k x))) [
    | inl e ↦ rw e (simp append_assoc)
    | inr e ↦ rw e (
        append_assoc (to_list t) _ _
        ∙ ap (◌++◌ (to_list t)) (listed-insert_at_child k y cs last l r)
        ∙ sym (append_assoc (to_list t) (before k cs) _))
  ]

  pub listed-placed :
      (k : K) (cs : Entries K M) (last : Tree K M) (a : Added K M)
      → listed (placed k cs last a) ≡ before k cs ++ (added_list a ++ after k cs last)
  listed-placed k cs last (kept t) = listed-replace k cs last t
  listed-placed k cs last (leaf_split l y r) = listed-insert_at_child k y cs last l r
  listed-placed k cs last (node_split l y r) = listed-insert_at_child k y cs last l r
