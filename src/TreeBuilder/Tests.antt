-- ===== src/TreeBuilder/Tests.antt =====
-- src/btree/tree-builder.ts: builders of numbers, and the theorems on them.
use acebase.TreeBuilder.Sorting.{AreDistinct}
use acebase.BTree.Ordered.{IsOrdered}
use acebase.TreeBuilder.Create.{create-IsCreated, IsCreated}
use acebase.Prelude.{
  max, length, map, ℕ, ◌≡◌, false, none, some, List, [], ◌∷◌, refl, arith, ◌*◌, ◌/◌,
}
use acebase.Order.{nat_order}
use acebase.BTree.{leaf, node, nil, cons, LeafEntry, EntryValue}
use acebase.TreeBuilder.{
  entries_per_node, Created, Builder, returns, throws, undefined, create, sort,
}

abbrev percent : ℕ → ℕ → ℕ
percent n f = n * f / 100

abbrev value : ℕ → EntryValue ℕ
value n = record { record_pointer = n ∷ []; metadata = [] }

abbrev entry : ℕ → LeafEntry ℕ ℕ
entry n = record { key = n; values = value n ∷ [] }

abbrev builder : List (LeafEntry ℕ ℕ) → Builder ℕ ℕ
builder es = record {
  unique_keys = false;
  fill_factor = 100;
  metadata_keys = [];
  list = es;
  indexed_values = 0;
}

abbrev four : List (LeafEntry ℕ ℕ)
four = entry 3 ∷ entry 1 ∷ entry 4 ∷ entry 2 ∷ []

-- The fourth entry does not fit in the first leaf.
builds_two_leafs :
    create percent (builder four) none
    ≡ returns (record {
      root = node (cons (leaf (entry 1 ∷ entry 2 ∷ entry 3 ∷ [])) 4 nil) (leaf (entry 4 ∷ []));
      depth = 1;
    })
unfolding create nat_order
builds_two_leafs = refl

abbrev thirteen : List (LeafEntry ℕ ℕ)
thirteen = map entry (1 ∷ 2 ∷ 3 ∷ 4 ∷ 5 ∷ 6 ∷ 7 ∷ 8 ∷ 9 ∷ 10 ∷ 11 ∷ 12 ∷ 13 ∷ [])

-- The last leaf would be alone below its parent; it gets the leaf before it as a sibling.
moves_an_entry :
    create percent (builder thirteen) (some 3)
    ≡ returns (record {
      root =
          node
            (cons
              (node
                (cons
                  (leaf (map entry (1 ∷ 2 ∷ 3 ∷ [])))
                  4
                  (cons (leaf (map entry (4 ∷ 5 ∷ 6 ∷ []))) 7 nil))
                (leaf (map entry (7 ∷ 8 ∷ 9 ∷ []))))
              10
              nil)
            (node (cons (leaf (map entry (10 ∷ 11 ∷ 12 ∷ []))) 13 nil) (leaf (entry 13 ∷ [])));
      depth = 2;
    })
unfolding create nat_order
moves_an_entry = refl

-- With one entry per node, five leafs have a parent that is left with no entry.
one_per_node_fails : create percent (builder thirteen) (some 1) ≡ throws undefined
unfolding create nat_order
one_per_node_fails = refl

four-AreDistinct : AreDistinct four
unfolding nat_order
four-AreDistinct = (refl, (refl, (refl, (refl, tt))))

create-IsCreated_example :
    (c : Created ℕ ℕ) × (create percent (builder four) none ≡ returns c)
    × IsCreated
        (entries_per_node none (length (sort four)))
        (max 3 (percent (entries_per_node none (length (sort four))) 100))
        (sort four)
        c
    × IsOrdered none none c.root
create-IsCreated_example =
    create-IsCreated percent (builder four) none (omega arith) four-AreDistinct

abbrev pairs : List (ℕ × EntryValue ℕ)
pairs = (3, value 3) ∷ (1, value 1) ∷ (3, value 4) ∷ []

abbrev begins_alike : Builder ℕ ℕ
begins_alike = builder (
    record {
      key = 7;
      values =
          record { record_pointer = 1 ∷ []; metadata = [] }
          ∷ record { record_pointer = 1 ∷ 2 ∷ []; metadata = [] }
          ∷ [];
    }
    ∷ [])
