-- ===== src/BTree/Tests.antt =====
-- src/btree/tree.ts: a tree of two leaves with at most two entries in each, and the theorems on it.
use acebase.Prelude.{ℕ, ◌≡◌, true, none, [], ◌∷◌, refl, arith}
use acebase.Order.{nat_order}
use acebase.BTree.{
  values_found, no_entry, Tree, leaf, node, nil, cons, LeafEntry, EntryValue, Settings, ok, err,
  ◌>>=◌, to_list, find_values, add, add_below, check_new_entry_args, all_metadata,
  duplicate_node_key, put, split_leaf, leaf_add, check_size, node_add,
}
use acebase.BTree.Ordered.{IsOrdered, InOrder, to_list-InOrder}
use acebase.BTree.Add.{Holds, put_checked, add-refines}
use acebase.BTree.Found.{find_values-scan}

abbrev value : ℕ → EntryValue ℕ
value n = record { record_pointer = n ∷ []; metadata = [] }

abbrev entry : ℕ → LeafEntry ℕ ℕ
entry n = record { key = n; values = value n ∷ [] }

abbrev two_per_node : Settings
two_per_node = record { max_entries = 2; unique_keys = true; metadata_keys = [] }

abbrev two_leaves : Tree ℕ ℕ
two_leaves = node (cons (leaf (entry 10 ∷ entry 20 ∷ [])) 30 nil) (leaf (entry 30 ∷ entry 40 ∷ []))

abbrev three_leaves : Tree ℕ ℕ
three_leaves =
    node (cons (leaf (entry 10 ∷ [])) 20 (cons (leaf (entry 20 ∷ entry 25 ∷ [])) 30 nil))
      (leaf (entry 30 ∷ entry 40 ∷ []))

two_leaves-IsOrdered : IsOrdered none none two_leaves
unfolding nat_order
two_leaves-IsOrdered = ground arith

-- The full leaf is split, and its second half gets an entry in the node.
splits_leaf : add two_per_node two_leaves 25 (value 25) ≡ ok three_leaves
unfolding add add_below leaf_add check_new_entry_args all_metadata put split_leaf check_size
    node_add nat_order
splits_leaf = refl

refuses_duplicate : add two_per_node two_leaves 40 (value 1) ≡ err duplicate_node_key
unfolding add add_below leaf_add check_new_entry_args all_metadata put split_leaf check_size
    node_add nat_order
refuses_duplicate = refl

-- With one entry per node the third key leaves a node without entries, and the fourth throws.
abbrev one_per_node : Settings
one_per_node = record { max_entries = 1; unique_keys = true; metadata_keys = [] }

throws_at_fourth :
    (add {K = ℕ} one_per_node (leaf []) 1 (value 1) >>= λ t. add one_per_node t 2 (value 2) >>= λ u.
    add one_per_node u 3 (value 3) >>= λ w. add one_per_node w 4 (value 4))
    ≡ err no_entry
unfolding add add_below leaf_add check_new_entry_args all_metadata put split_leaf check_size
    node_add nat_order
throws_at_fourth = refl

add-refines_example :
    ((add two_per_node two_leaves 25 (value 25) >>= λ u. ok (to_list u))
      ≡ put_checked two_per_node 25 (value 25) (to_list two_leaves))
    × Holds (IsOrdered none none) (add two_per_node two_leaves 25 (value 25))
add-refines_example =
    add-refines two_per_node 25 (value 25) (ground arith) two_leaves two_leaves-IsOrdered

to_list-InOrder_example : InOrder none none (to_list two_leaves)
to_list-InOrder_example = to_list-InOrder two_leaves none none two_leaves-IsOrdered

find_values-scan_example :
    find_values two_per_node two_leaves 30 ≡ ok (values_found two_per_node 30 (to_list two_leaves))
find_values-scan_example = find_values-scan two_per_node two_leaves 30 two_leaves-IsOrdered
