-- ===== src/BTree.antt =====
-- src/btree/tree.ts, tree-leaf.ts and tree-node.ts: the in-memory B+tree. Keys are values that
-- typesafe-compare.ts has made comparable. The objects of the source are a tree value here: a leaf
-- or a node is where its parent holds it, the node that a leaf's `parent` names is the one that the
-- search came through, and `prevLeaf` and `nextLeaf` are the neighbours in the order of the tree.
pub mod Put
pub mod Ordered
pub mod Split
pub mod Insert
pub mod Place
pub mod Add
pub mod Search
pub mod Descent
pub mod Found
mod Tests
use acebase.Prelude.{
  ℕ, zero, suc, ◌+◌, ◌/◌, String, Bool, true, false, ◌&&◌, ◌||◌, not, List, [], ◌∷◌, ◌++◌, ltb,
  length, take, drop, if◌then◌else◌, find, Option, none, some,
}
use acebase.Order.{Order, is_lt, is_eq, is_gt}
use text.Mathlib.Text.{◌==◌ as str_eq}

-- `BPlusTreeLeafEntryValue`; a metadata value is opaque.
pub record EntryValue (M : Type 0) : Type 0 where
  pub record_pointer : List ℕ
  pub metadata : List (String × M)

-- `BPlusTreeLeafEntry`
pub record LeafEntry (K : Type 0) (M : Type 0) : Type 0 where
  pub key : K
  pub values : List (EntryValue M)

-- `BPlusTreeNode`: `Entries` is the array of `BPlusTreeNodeEntry` objects, each with its `ltChild`.
mutual
  pub data Tree (K : Type 0) (M : Type 0) : Type 0 where
    leaf : List (LeafEntry K M) → Tree K M
    node : Entries K M → Tree K M → Tree K M

  pub data Entries (K : Type 0) (M : Type 0) : Type 0 where
    nil : Entries K M
    cons : Tree K M → K → Entries K M → Entries K M

pub data Error : Type 0 where
  record_pointer_too_large metadata_missing duplicate_node_key node_key_exists : Error
  -- The `TypeError` where a node has no entry to read the key or the child of.
  no_entry : Error

pub data Result {ℓ} (A : Type ℓ) : Type ℓ where
  ok : A → Result A
  err : Error → Result A

infixl 5 ◌>>=◌
abbrev pub ◌>>=◌ {ℓ κ} : {A : Type ℓ} {B : Type κ} → Result A → (A → Result B) → Result B
ok a >>= f = f a
err e >>= f = err e

pub record Settings : Type 0 where
  pub max_entries : ℕ
  pub unique_keys : Bool
  pub metadata_keys : List String

-- `Math.ceil(maxEntriesPerNode / 2)`
abbrev pub split_index : Settings → ℕ
split_index c = (c.max_entries + 1) / 2

-- What an `add` below leaves for the parent: the child, changed in place, or its two halves and
-- the key that goes up.
pub data Added (K : Type 0) (M : Type 0) : Type 0 where
  kept : Tree K M → Added K M
  leaf_split node_split : Tree K M → K → Tree K M → Added K M

module _ {M : Type 0} where
  has_metadata : String → List (String × M) → Bool
  has_metadata k [] = false
  has_metadata k ((j, m) ∷ rest) = str_eq j k || has_metadata k rest

  all_metadata : List String → List (String × M) → Bool
  unfolding has_metadata
  all_metadata [] m = true
  all_metadata (k ∷ ks) m = has_metadata k m && all_metadata ks m

  -- `_checkNewEntryArgs` for a key and a byte array, which have storable types here.
  unfoldable pub check_new_entry_args : Settings → EntryValue M → Option Error
  unfolding all_metadata
  check_new_entry_args c v =
      if ltb 255 (length v.record_pointer)
      then some record_pointer_too_large
      else if all_metadata c.metadata_keys v.metadata
      then none
      else some metadata_missing

module _ {K : Type 0} {M : Type 0} where
  unfoldable mutual
    pub to_list : Tree K M → List (LeafEntry K M)
    to_list (leaf es) = es
    to_list (node cs gt) = entries_to_list cs ++ to_list gt

    pub entries_to_list : Entries K M → List (LeafEntry K M)
    entries_to_list nil = []
    entries_to_list (cons t x cs) = to_list t ++ entries_to_list cs

  abbrev pub size : Entries K M → ℕ
  size nil = 0
  size (cons t x cs) = suc (size cs)

  -- `splice(splitIndex)` on the entries of a node, and `shift` on what was cut off: the entries
  -- that stay, the entry that moves up, the entries that move.
  abbrev pub cut : ℕ → Entries K M → Option (Entries K M × Tree K M × K × Entries K M)
  cut i nil = none
  cut zero (cons t x cs) = some (nil, t, x, cs)
  cut (suc i) (cons t x cs) = elim (cut i cs) [
    | none ↦ none
    | some (before, u, y, after) ↦ some (cons t x before, u, y, after)
  ]

module _ {K : Type 0} {M : Type 0} ⦃o : Order K⦄ where
  abbrev pub has_key : K → List (LeafEntry K M) → Bool
  has_key k [] = false
  has_key k (e ∷ es) = is_eq (o.cmp e.key k) || has_key k es

  -- `values.push` on the first entry with the key
  abbrev pub push_value : K → EntryValue M → List (LeafEntry K M) → List (LeafEntry K M)
  push_value k v [] = []
  push_value k v (e ∷ es) =
      if is_eq (o.cmp e.key k)
      then record e { values = e.values ++ v ∷ [] } ∷ es
      else e ∷ push_value k v es

  -- The entry goes before the first one with a greater key, or to the end.
  abbrev pub insert_entry : LeafEntry K M → List (LeafEntry K M) → List (LeafEntry K M)
  insert_entry a [] = a ∷ []
  insert_entry a (e ∷ es) = if is_gt (o.cmp e.key a.key) then a ∷ e ∷ es else e ∷ insert_entry a es

  -- The first part of `BPlusTreeLeaf.add`: the entries of the leaf, before the check of their number.
  unfoldable pub put :
      Bool → K → EntryValue M → List (LeafEntry K M) → Result (List (LeafEntry K M))
  put unique k v es =
      if has_key k es
      then (if unique then err duplicate_node_key else ok (push_value k v es))
      else ok (insert_entry (record { key = k; values = v ∷ [] }) es)

  -- Both parts of a leaf that is split. (A part is empty only where `maxEntriesPerNode` is 0.)
  abbrev pub halves : List (LeafEntry K M) → List (LeafEntry K M) → Added K M
  halves left [] = kept (leaf left)
  halves left (e ∷ right) = leaf_split (leaf left) e.key (leaf (e ∷ right))

  -- The end of `BPlusTreeLeaf.add`: where a new entry came into a leaf that had some, the leaf is
  -- split if it has too many.
  pub split_leaf : Settings → Bool → List (LeafEntry K M) → Added K M
  split_leaf c inserted es =
      if inserted && ltb c.max_entries (length es)
      then halves (take (split_index c) es) (drop (split_index c) es)
      else kept (leaf es)

  abbrev pub is_empty : List (LeafEntry K M) → Bool
  is_empty [] = true
  is_empty (e ∷ es) = false

  -- `BPlusTreeLeaf.add`
  pub leaf_add : Settings → K → EntryValue M → List (LeafEntry K M) → Result (Added K M)
  unfolding check_new_entry_args put split_leaf
  leaf_add c k v es = elim (check_new_entry_args c v) [
    | some e ↦ err e
    | none ↦ put c.unique_keys k v es >>= λ es'.
        ok (split_leaf c (not (has_key k es) && not (is_empty es)) es')
  ]

  -- The assertion of `findLeaf` behind the loop, which reads the key of the last entry of the node. (It
  -- holds where there is one, since no key of the node was greater.)
  abbrev pub assert_last {ℓ} : {A : Type ℓ} → Entries K M → Result A → Result A
  assert_last nil r = err no_entry
  assert_last (cons t x cs) r = r

  -- `findLeaf` below a node: the first child whose entry has a greater key, or `gtChild`.
  unfoldable mutual
    pub find_leaf : Tree K M → K → Result (List (LeafEntry K M))
    find_leaf (leaf es) k = ok es
    find_leaf (node cs gt) k = find_leaf_in cs k (assert_last cs (find_leaf gt k))

    pub find_leaf_in :
        Entries K M → K → Result (List (LeafEntry K M)) → Result (List (LeafEntry K M))
    find_leaf_in nil k last = last
    find_leaf_in (cons t x cs) k last =
        if is_lt (o.cmp k x) then find_leaf t k else find_leaf_in cs k last

  -- What `find` gives of the entries of the leaf: the values of the key, only the first where keys are
  -- unique; `none` is `null`.
  abbrev pub values_found : Settings → K → List (LeafEntry K M) → Option (List (EntryValue M))
  values_found c k es = elim (find (λ e. is_eq (o.cmp e.key k)) es) [
    | none ↦ none
    | some e ↦ some (if c.unique_keys then take 1 e.values else e.values)
  ]

  -- `BPlusTree.find`
  pub find_values : Settings → Tree K M → K → Result (Option (List (EntryValue M)))
  unfolding find_leaf
  find_values c t k = find_leaf t k >>= λ es. ok (values_found c k es)

  -- The child that the search for `k` comes through, replaced.
  abbrev pub replace : K → Tree K M → Entries K M → Tree K M → Entries K M × Tree K M
  replace k l nil gt = (nil, l)
  replace k l (cons t x cs) gt =
      if is_lt (o.cmp k x)
      then (cons l x cs, gt)
      else (cons t x (replace k l cs gt).0, (replace k l cs gt).1)

  abbrev pub has_separator : K → Entries K M → Bool
  has_separator k nil = false
  has_separator k (cons t x cs) = is_eq (o.cmp x k) || has_separator k cs

  -- `insertKey` without its checks: the entry of the leaf that was split, found by the leaf, gets the
  -- new leaf, and an entry with the old leaf goes before it.
  abbrev pub insert_at_child :
      K → Tree K M → K → Tree K M → Entries K M → Tree K M → Entries K M × Tree K M
  insert_at_child k l y r nil gt = (cons l y nil, r)
  insert_at_child k l y r (cons t x cs) gt =
      if is_lt (o.cmp k x)
      then (cons l y (cons r x cs), gt)
      else (cons t x (insert_at_child k l y r cs gt).0, (insert_at_child k l y r cs gt).1)

  -- The end of `_checkSize`: the entry that moves up goes before the first one with a greater key,
  -- whose child is then the new sibling. (The child of that entry was the node itself, which is now
  -- the child of the entry that moved up.)
  abbrev pub insert_by_key :
      Tree K M → K → Tree K M → Entries K M → Tree K M → Entries K M × Tree K M
  insert_by_key l y r nil gt = (cons l y nil, r)
  insert_by_key l y r (cons t x cs) gt =
      if is_gt (o.cmp x y)
      then (cons l y (cons r x cs), gt)
      else (cons t x (insert_by_key l y r cs gt).0, (insert_by_key l y r cs gt).1)

  -- `_checkSize`
  pub check_size : Settings → Entries K M × Tree K M → Added K M
  check_size c (cs, gt) =
      if ltb c.max_entries (size cs)
      then (elim (cut (split_index c) cs) [
        | none ↦ kept (node cs gt)
        | some (before, t, y, after) ↦ node_split (node before t) y (node after gt)
      ])
      else kept (node cs gt)

  -- What a node does once the child on the way to `k` is done.
  pub node_add : Settings → K → Entries K M → Tree K M → Added K M → Result (Added K M)
  unfolding check_size
  node_add c k cs gt (kept t) = let (cs', gt') = replace k t cs gt in ok (kept (node cs' gt'))
  node_add c k cs gt (leaf_split l y r) =
      if has_separator y cs
      then err node_key_exists
      else ok (check_size c (insert_at_child k l y r cs gt))
  node_add c k cs gt (node_split l y r) =
      let (cs', gt') = replace k l cs gt in ok (check_size c (insert_by_key l y r cs' gt'))

  unfoldable mutual
    unfolding leaf_add node_add

    pub add_below : Settings → Tree K M → K → EntryValue M → Result (Added K M)
    add_below c (leaf es) k v = leaf_add c k v es
    add_below c (node cs gt) k v =
        add_child c cs k v (assert_last cs (add_below c gt k v)) >>= λ a. node_add c k cs gt a

    -- The child that the search for `k` comes through gets the value; `last` is `gtChild`'s answer.
    pub add_child :
        Settings → Entries K M → K → EntryValue M → Result (Added K M) → Result (Added K M)
    add_child c nil k v last = last
    add_child c (cons t x cs) k v last =
        if is_lt (o.cmp k x) then add_below c t k v else add_child c cs k v last

  -- A root that was split gets a new root above it.
  abbrev pub new_root : Added K M → Tree K M
  new_root (kept t) = t
  new_root (leaf_split l y r) = node (cons l y nil) r
  new_root (node_split l y r) = node (cons l y nil) r

  -- `BPlusTree.add`
  pub add : Settings → Tree K M → K → EntryValue M → Result (Tree K M)
  unfolding add_below
  add c t k v = add_below c t k v >>= λ a. ok (new_root a)
