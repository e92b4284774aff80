-- ===== src/TreeBuilder/Bulk.antt =====
-- src/btree/tree-builder.ts and tree.ts: a builder and a tree that get the same entries.
use acebase.BTree.Ordered.{IsOrdered}
use acebase.TreeBuilder.Sorting.{AreDistinct}
use acebase.TreeBuilder.Adding.{as_outcome}
use acebase.Prelude.{ℕ, ◌≡◌, List, [], ◌∷◌, Option, none, Bool, String}
use acebase.TreeBuilder.{
  MapKey, Created, Order, Builder, Outcome, returns, ◌>>=◌, add, create, sort, new_builder,
}
use acebase.BTree as Tree
use acebase.BTree.{to_list, LeafEntry, ok, Result, Settings, EntryValue}

-- Calls of `add` of the builder, and of the tree, one after the other.
module _ {K : Type 0} {M : Type 0} ⦃m : MapKey K⦄ where
  pub add_all : Builder K M → List (K × EntryValue M) → Outcome (Builder K M)
  add_all b [] = returns b
  add_all b ((k, v) ∷ rest) = add b k v >>= λ b'. add_all b' rest

module _ {K : Type 0} {M : Type 0} ⦃o : Order K⦄ where
  pub tree_add_all : Settings → Tree.Tree K M → List (K × EntryValue M) → Result (Tree.Tree K M)
  tree_add_all c t [] = ok t
  tree_add_all c t ((k, v) ∷ rest) = Tree.◌>>=◌ (Tree.add c t k v) (λ u. tree_add_all c u rest)

module _ {K : Type 0} {M : Type 0} ⦃o : Order K⦄ (n : ℕ) where
  abbrev sorted : Outcome (Builder K M) → Outcome (List (LeafEntry K M))
  sorted r = r >>= λ b. returns (sort b.list)

  abbrev pub listed : Result (Tree.Tree K M) → Result (List (LeafEntry K M))
  listed r = Tree.◌>>=◌ r (λ t. ok (to_list t))

  -- What is kept between a builder and a tree, from one addition to the next.
  abbrev Agree : Builder K M → Tree.Tree K M → Type 0
  Agree b t = AreDistinct b.list × IsOrdered none none t × (to_list t ≡ sort b.list)

module _ {K : Type 0} {M : Type 0} ⦃o : Order K⦄ where
  abbrev pub created_list : Outcome (Created K M) → Outcome (List (LeafEntry K M))
  created_list r = r >>= λ c. returns (to_list c.root)

module _ {K : Type 0} {M : Type 0} ⦃o : Order K⦄ (n : ℕ) (scale : ℕ → ℕ → ℕ)
    (max_entries : Option ℕ) (unique : Bool) (fill : ℕ) (keys : List String)
    (kvs : List (K × EntryValue M)) where
  abbrev BuildsAlike : MapKey K → Type 0
  BuildsAlike m =
      created_list
        (add_all ⦃m = m⦄ (new_builder unique fill keys) kvs >>= λ b. create scale b max_entries)
      ≡ as_outcome (
          listed n (
            tree_add_all (record { max_entries = n; unique_keys = unique; metadata_keys = keys })
              (Tree.leaf []) kvs))
