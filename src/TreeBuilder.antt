-- ===== src/TreeBuilder.antt =====
-- src/btree/tree-builder.ts: BPlusTreeBuilder, which collects entries in a map and builds a B+tree
-- bottom-up from them. The map is a list in the order of insertion; in a builder with unique keys
-- the value of a key is a list of one. Keys are values that the order compares, as for the tree; the
-- map has its own test of keys, which `MapKey` stands for.
pub mod Built
pub mod Move
pub mod Level
pub mod Parents
pub mod Nodes
pub mod Leafs
pub mod Sorting
pub mod Adding
pub mod Bounds
pub mod Create
pub mod Bulk
pub mod Removing
mod Tests
use acebase.Prelude.{
  ℕ, zero, suc, ◌+◌, ◌-◌, ◌*◌, ◌/◌, min, max, String, Bool, true, false, ◌&&◌, ◌||◌, List, [], ◌∷◌,
  ◌++◌, ltb, ◌==◌, length, take, drop, get_elem?, if◌then◌else◌, Option, none, some,
}
use acebase.Order.{Order, is_eq}
use acebase.BTree.{
  Tree, leaf, node, Entries, nil, cons, size, LeafEntry, EntryValue, Settings, Error,
  check_new_entry_args, has_key, push_value, insert_entry,
}

-- What a method throws. `undefined` is a TypeError, of a field of what is not there, and `no_fuel`
-- stands for a loop that has not ended.
pub data BuildError : Type 0 where
  bad_arguments : Error → BuildError
  unique_key_violation undefined no_fuel : BuildError

pub data Outcome {ℓ} (A : Type ℓ) : Type ℓ where
  returns : A → Outcome A
  throws : BuildError → Outcome A

infixl 5 ◌>>=◌
abbrev pub ◌>>=◌ {ℓ κ} : {A : Type ℓ} {B : Type κ} → Outcome A → (A → Outcome B) → Outcome B
returns a >>= f = f a
throws e >>= f = throws e

-- A field of what may be undefined.
abbrev pub defined {ℓ} : {A : Type ℓ} → Option A → Outcome A
defined none = throws undefined
defined (some a) = returns a

-- When a `Map` of the language takes two keys for one: a string or a number is the same as an equal one,
-- and a date is the same as itself only.
pub record MapKey (K : Type 0) : Type 0 where
  pub same : K → K → Bool

-- `BPlusTreeBuilder`
pub record Builder (K : Type 0) (M : Type 0) : Type 0 where
  pub unique_keys : Bool
  pub fill_factor : ℕ
  pub metadata_keys : List String
  pub list : List (LeafEntry K M)
  pub indexed_values : ℕ

-- The settings that `_checkNewEntryArgs` and the tree have from the builder.
abbrev pub tree_settings : {K M : Type 0} → ℕ → Builder K M → Settings
tree_settings n b = record {
  max_entries = n;
  unique_keys = b.unique_keys;
  metadata_keys = b.metadata_keys;
}

-- The constructor.
abbrev pub new_builder : {K M : Type 0} → Bool → ℕ → List String → Builder K M
new_builder unique fill keys = record {
  unique_keys = unique;
  fill_factor = fill;
  metadata_keys = keys;
  list = [];
  indexed_values = 0;
}

module _ {K : Type 0} {M : Type 0} ⦃m : MapKey K⦄ where
  -- `this.list.get(key)` is not undefined.
  abbrev pub is_present : K → List (LeafEntry K M) → Bool
  is_present k [] = false
  is_present k (e ∷ es) = m.same e.key k || is_present k es

  -- `push` on the array that `this.list.get(key)` gives.
  abbrev pub push_existing : K → EntryValue M → List (LeafEntry K M) → List (LeafEntry K M)
  push_existing k v [] = []
  push_existing k v (e ∷ es) =
      if m.same e.key k
      then record e { values = e.values ++ v ∷ [] } ∷ es
      else e ∷ push_existing k v es

  -- `add`
  pub add : Builder K M → K → EntryValue M → Outcome (Builder K M)
  add b k v = elim (check_new_entry_args (tree_settings 0 b) v) [
    | some e ↦ throws (bad_arguments e)
    | none ↦
        if is_present k b.list
        then (if b.unique_keys
            then throws unique_key_violation
            else returns (record b {
              list = push_existing k v b.list;
              indexed_values = b.indexed_values + 1;
            }))
        else returns (record b {
          list = b.list ++ record { key = k; values = v ∷ [] } ∷ [];
          indexed_values = b.indexed_values + 1;
        })
  ]

  -- `this.list.get(key)`
  pub get_values : K → List (LeafEntry K M) → Option (List (EntryValue M))
  get_values k [] = none
  get_values k (e ∷ es) = if m.same e.key k then some e.values else get_values k es

  -- `this.list.delete(key)`
  pub delete : K → List (LeafEntry K M) → List (LeafEntry K M)
  delete k [] = []
  delete k (e ∷ es) = if m.same e.key k then es else e ∷ delete k es

  -- The array that `this.list.get(key)` gives is changed in place.
  pub replace_values : K → List (EntryValue M) → List (LeafEntry K M) → List (LeafEntry K M)
  replace_values k vs [] = []
  replace_values k vs (e ∷ es) =
      if m.same e.key k then record e { values = vs } ∷ es else e ∷ replace_values k vs es

-- `isEqual` in `remove` for arrays: `val1.every((v, i) => val2[i] === v)`
unfoldable pub every_equal : List ℕ → List ℕ → Bool
every_equal [] ys = true
every_equal (x ∷ xs) [] = false
every_equal (x ∷ xs) (y ∷ ys) = x == y && every_equal xs ys

-- The entry values without the first that `findIndex` finds for the record pointer, or none if it
-- finds none.
unfoldable pub remove_value :
    {M : Type 0} → List (EntryValue M) → List ℕ → Option (List (EntryValue M))
unfolding every_equal
remove_value [] p = none
remove_value (v ∷ vs) p =
    let rest = remove_value vs p in
    if every_equal v.record_pointer p
    then some vs
    else elim rest [ none ↦ none | some ws ↦ some (v ∷ ws) ]

module _ {K : Type 0} {M : Type 0} ⦃m : MapKey K⦄ where
  -- What `remove` does with the values of a key, of which `findIndex` found none, or all but the
  -- first one found are left.
  pub without_value :
      Builder K M → K → List (EntryValue M) → Option (List (EntryValue M)) → Builder K M
  unfolding delete replace_values
  without_value b k vs none = b
  without_value b k vs (some ws) = record b {
    list = if length vs == 1 then delete k b.list else replace_values k ws b.list;
  }

  -- `remove`, with a record pointer that is an array.
  pub remove : Builder K M → K → List ℕ → Outcome (Builder K M)
  unfolding get_values delete remove_value without_value
  remove b k p =
      if b.unique_keys
      then returns (record b { list = delete k b.list })
      else (defined (get_values k b.list) >>= λ vs.
          returns (without_value b k vs (remove_value vs p)))

module _ {K : Type 0} {M : Type 0} ⦃o : Order K⦄ where
  -- `list.sort` by `_sortCompare`, which the language promises to be stable.
  pub sort_onto : List (LeafEntry K M) → List (LeafEntry K M) → List (LeafEntry K M)
  sort_onto sorted [] = sorted
  sort_onto sorted (e ∷ es) = sort_onto (insert_entry e sorted) es

  pub sort : List (LeafEntry K M) → List (LeafEntry K M)
  unfolding sort_onto
  sort es = sort_onto [] es

-- A parent node while it gets its children: its `entries` and its `gtChild`.
pub record Parent (K : Type 0) (M : Type 0) : Type 0 where
  pub entries : Entries K M
  pub gt_child : Tree K M

module _ {K : Type 0} {M : Type 0} where
  -- `entries.push`
  pub push : Entries K M → Tree K M → K → Entries K M
  push nil t x = cons t x nil
  push (cons u y cs) t x = cons u y (push cs t x)

  -- `entries.pop()`: the entries that stay, and the child and key of the last one.
  pub pop : Entries K M → Option (Entries K M × Tree K M × K)
  pop nil = none
  pop (cons t x nil) = some (nil, t, x)
  pop (cons t x (cons u y cs)) = elim (pop (cons u y cs)) [
    | none ↦ none
    | some (before, l, z) ↦ some (cons t x before, l, z)
  ]

  abbrev pub head_key : List (LeafEntry K M) → Option K
  head_key [] = none
  head_key (e ∷ es) = some e.key

  -- `ltChild = ltChild.entries[0].ltChild` down to a leaf, and the key of its first entry.
  pub first_key : Tree K M → Option K
  first_key (leaf es) = head_key es
  first_key (node nil gt) = none
  first_key (node (cons t x cs) gt) = first_key t

  abbrev pub first_child : Entries K M → Tree K M → Tree K M
  first_child nil gt = gt
  first_child (cons t x cs) gt = t

  -- The loop over `nrOfParentEntries2Move`: the last child of the previous parent becomes the first
  -- child of the last one.
  pub move_entries : ℕ → Parent K M → Parent K M → Outcome (Parent K M × Parent K M)
  unfolding pop first_key
  move_entries zero prev p = returns (prev, p)
  move_entries (suc n) prev p = defined (pop prev.entries) >>= λ (before, t, x).
      defined (first_key (first_child p.entries p.gt_child)) >>= λ y.
      move_entries n (record { entries = before; gt_child = t })
        (record p { entries = cons prev.gt_child y p.entries })

  -- A parent whose `gtChild` is set: it goes to the parents that are done, of which the last one
  -- comes first. If there are others, and it has too few entries, it gets some of the previous one.
  pub finish : ℕ → ℕ → Parent K M → List (Parent K M) → Outcome (List (Parent K M))
  unfolding move_entries
  finish parents minimum p done =
      if ltb 1 parents && ltb (size p.entries) minimum
      then (elim done [
        | [] ↦ throws undefined
        | prev ∷ rest ↦ move_entries (minimum - size p.entries) prev p >>= λ (prev', p').
            returns (p' ∷ prev' ∷ rest)
      ])
      else returns (p ∷ done)

-- The counts that a level is built by: `parentConnections`, `nrOfNodesAtLevel`, `nrOfParentNodes`
-- and `minParentEntries`.
pub record Counts : Type 0 where
  pub connections : ℕ
  pub nodes : ℕ
  pub parents : ℕ
  pub minimum : ℕ

-- `Math.ceil(n / k)`
abbrev pub divide_up : ℕ → ℕ → ℕ
divide_up n k = (n + (k - 1)) / k

abbrev pub counts : ℕ → ℕ → Counts
counts per_node n = record {
  connections = per_node + 1;
  nodes = n;
  parents = divide_up n (per_node + 1);
  minimum = max 1 (per_node / 2);
}

-- `isLastLeaf` and `isLastNode`
abbrev pub is_last : Counts → ℕ → Bool
is_last c i = ltb (i / c.connections) ((i + 1) / c.connections) || i == c.nodes - 1

module _ {K : Type 0} {M : Type 0} where
  -- One round of the loop over the nodes of a level: the `i`th node is the `gtChild` of its parent,
  -- or the `ltChild` of a new entry with the first key of the next node.
  pub add_child :
      Counts
      → (ℕ → Option K)
      → ℕ
      → Tree K M
      → Entries K M
      → List (Parent K M)
      → Outcome (Entries K M × List (Parent K M))
  unfolding push finish
  add_child c key_after i t cs done =
      if is_last c i
      then (finish c.parents c.minimum (record { entries = cs; gt_child = t }) done >>= λ done'.
          returns (nil, done'))
      else defined (key_after i) >>= λ x. returns (push cs t x, done)

  -- The loop over the nodes of a level, from the `i`th on.
  pub add_children :
      Counts
      → (ℕ → Option K)
      → ℕ
      → List (Tree K M)
      → Entries K M
      → List (Parent K M)
      → Outcome (List (Parent K M))
  unfolding add_child
  add_children c key_after i [] cs done = returns done
  add_children c key_after i (t ∷ ts) cs done =
      add_child c key_after i t cs done >>= λ (cs', done').
      add_children c key_after (suc i) ts cs' done'

  -- The parents as nodes, the first one first.
  pub to_nodes : List (Parent K M) → List (Tree K M) → List (Tree K M)
  to_nodes [] ts = ts
  to_nodes (p ∷ ps) ts = to_nodes ps (node p.entries p.gt_child ∷ ts)

  -- The first key below the next node of the level.
  abbrev pub next_key : List (Tree K M) → ℕ → Option K
  next_key ts i = elim (get_elem? ts (suc i)) [ none ↦ none | some u ↦ first_key u ]

  -- `list[i]`'s key
  abbrev pub key_at : List (LeafEntry K M) → ℕ → Option K
  key_at list i = elim (get_elem? list i) [ none ↦ none | some e ↦ some e.key ]

  -- `list.slice(fromIndex, fromIndex + entriesPerLeaf)` for each leaf, from the `i`th on.
  pub create_leafs : ℕ → List (LeafEntry K M) → ℕ → ℕ → List (Tree K M)
  create_leafs per_leaf list i zero = []
  create_leafs per_leaf list i (suc n) =
      leaf (take per_leaf (drop (i * per_leaf) list)) ∷ create_leafs per_leaf list (suc i) n

  -- The parents of a level that has the nodes `ts`.
  pub create_level : ℕ → (ℕ → Option K) → List (Tree K M) → Outcome (List (Tree K M))
  unfolding add_children to_nodes
  create_level per_node key_after ts =
      add_children (counts per_node (length ts)) key_after 0 ts nil [] >>= λ ps.
      returns (to_nodes ps [])

-- The tree that `create` returns: its root and its depth.
pub record Created (K : Type 0) (M : Type 0) : Type 0 where
  pub root : Tree K M
  pub depth : ℕ

module _ {K : Type 0} {M : Type 0} where
  -- The `while` loop above the leafs: `parents` are the parents of the level that is done.
  pub create_levels : ℕ → ℕ → ℕ → List (Tree K M) → Outcome (Created K M)
  unfolding create_level
  create_levels zero per_node depth parents = throws no_fuel
  create_levels (suc f) per_node depth parents = elim parents [
    | [] ↦ throws undefined
    | t ∷ [] ↦ returns (record { root = t; depth = depth })
    | t ∷ u ∷ ts ↦ create_level per_node (next_key (t ∷ u ∷ ts)) (t ∷ u ∷ ts) >>= λ parents'.
        create_levels f per_node (suc depth) parents'
  ]

-- `entriesPerNode`
abbrev pub entries_per_node : Option ℕ → ℕ → ℕ
entries_per_node (some n) count = n
entries_per_node none count = min 255 (max 3 (divide_up count 10))

module _ {K : Type 0} {M : Type 0} where
  -- The `while` loop of `create`, from its first level, which creates `nrOfLeafs` leafs.
  pub build : ℕ → ℕ → ℕ → List (LeafEntry K M) → Outcome (Created K M)
  unfolding create_leafs create_level create_levels
  build per_node per_leaf nr_of_leafs list =
      let leafs = create_leafs per_leaf list 0 nr_of_leafs in
      create_level per_node (λ i. key_at list (i * per_leaf + per_leaf)) leafs >>= λ parents.
      elim leafs [
        | t ∷ [] ↦ returns (record { root = t; depth = 1 })
        | others ↦ create_levels (length others) per_node 1 parents
      ]

module _ {K : Type 0} {M : Type 0} ⦃o : Order K⦄ where
  -- `create`. `scale n f` is `Math.floor(n * (f / 100))`, which JavaScript computes in floating
  -- point.
  pub create : (ℕ → ℕ → ℕ) → Builder K M → Option ℕ → Outcome (Created K M)
  unfolding sort build
  create scale b max_entries =
      let list = sort b.list in
      let per_node = entries_per_node max_entries (length list) in
      let per_leaf = max 3 (scale per_node b.fill_factor) in
      build per_node per_leaf (max 1 (divide_up (length list) per_leaf)) list
