-- ===== src/BTree/Search.antt =====
-- src/btree/tree.ts: `find` and `search`. The leaves before and behind the leaf that the search leads
-- to, which the source reaches by `prevLeaf` and `nextLeaf`, are their entries in order.
use acebase.Prelude.{
  map, Bool, true, false, not, Option, none, some, List, [], ◌∷◌, ◌++◌, if◌then◌else◌, keep, find,
  take,
}
use mathlib.Core.List.{reverse}
use acebase.Order.{Order, is_lt, is_eq, is_gt}
use acebase.BTree.{
  Tree, leaf, node, Entries, nil, cons, LeafEntry, Settings, to_list, entries_to_list, find_leaf,
  Result, ok, err, ◌>>=◌, no_entry,
}
use acebase.BTree.Ordered.{}

-- The operators, and an operand that is one value or an array.
pub data Operator : Type 0 where
  less less_or_equal more more_or_equal equal not_equal exists not_exists : Operator
  among not_among between not_between : Operator

pub data Operand (K : Type 0) : Type 0 where
  one : K → Operand K
  array : List K → Operand K

abbrev pub takes_array : Operator → Bool
takes_array among = true
takes_array not_among = true
takes_array between = true
takes_array not_between = true
takes_array _ = false

abbrev pub option_list {ℓ} : {A : Type ℓ} → Option A → List A
option_list none = []
option_list (some a) = a ∷ []

module _ {K : Type 0} where
  -- `exists` and `!exists` compare with `undefined`.
  abbrev pub rewrite_operator : K → Operator → K → Operator × K
  rewrite_operator undefined exists k = (not_equal, undefined)
  rewrite_operator undefined not_exists k = (equal, undefined)
  rewrite_operator undefined op k = (op, k)

module _ {K : Type 0} {M : Type 0} where
  -- What `add` puts into the results: where keys are unique, only the first value.
  abbrev pub shown : Settings → LeafEntry K M → LeafEntry K M
  shown c e = record e { values = if c.unique_keys then take 1 e.values else e.values }

module _ {K : Type 0} {M : Type 0} ⦃o : Order K⦄ where
  unfoldable mutual
    pub before_leaf : Tree K M → K → List (LeafEntry K M)
    before_leaf (leaf es) k = []
    before_leaf (node cs last) k = before_leaf_in cs k (before_leaf last k)

    pub before_leaf_in : Entries K M → K → List (LeafEntry K M) → List (LeafEntry K M)
    before_leaf_in nil k last = last
    before_leaf_in (cons t x cs) k last =
        if is_lt (o.cmp k x) then before_leaf t k else to_list t ++ before_leaf_in cs k last

  unfoldable mutual
    pub after_leaf : Tree K M → K → List (LeafEntry K M)
    after_leaf (leaf es) k = []
    after_leaf (node cs last) k = after_leaf_in cs k (to_list last) (after_leaf last k)

    pub after_leaf_in :
        Entries K M → K → List (LeafEntry K M) → List (LeafEntry K M) → List (LeafEntry K M)
    after_leaf_in nil k rest last = last
    after_leaf_in (cons t x cs) k rest last =
        if is_lt (o.cmp k x)
        then after_leaf t k ++ (entries_to_list cs ++ rest)
        else after_leaf_in cs k rest last

  -- The test of an operator that takes one value: `_isLess(entry.key, val)` and so on.
  abbrev pub passes : Operator → K → LeafEntry K M → Bool
  passes less k e = is_lt (o.cmp e.key k)
  passes less_or_equal k e = not (is_gt (o.cmp e.key k))
  passes more k e = is_gt (o.cmp e.key k)
  passes more_or_equal k e = not (is_lt (o.cmp e.key k))
  passes equal k e = is_eq (o.cmp e.key k)
  passes not_equal k e = not (is_eq (o.cmp e.key k))
  passes _ k e = false

  -- `firstLeaf`: the leaf below the first entries.
  unfoldable pub first_leaf : Tree K M → Result (List (LeafEntry K M))
  first_leaf (leaf es) = ok es
  first_leaf (node nil gt) = err no_entry
  first_leaf (node (cons t x cs) gt) = first_leaf t

  -- The branches of `search` for one value.
  unfoldable pub search_one : Operator → K → Tree K M → Result (List (LeafEntry K M))
  unfolding find_leaf first_leaf before_leaf after_leaf to_list
  search_one less k t = find_leaf t k >>= λ es.
      ok (keep (passes less k) (reverse es) ++ keep (passes less k) (reverse (before_leaf t k)))
  search_one less_or_equal k t = find_leaf t k >>= λ es. ok (
      keep (passes less_or_equal k) (reverse es)
      ++ keep (passes less_or_equal k) (reverse (before_leaf t k)))
  search_one more k t =
      find_leaf t k >>= λ es. ok (keep (passes more k) es ++ keep (passes more k) (after_leaf t k))
  search_one more_or_equal k t = find_leaf t k >>= λ es.
      ok (keep (passes more_or_equal k) es ++ keep (passes more_or_equal k) (after_leaf t k))
  search_one equal k t = find_leaf t k >>= λ es. ok (option_list (find (passes equal k) es))
  search_one not_equal k t = first_leaf t >>= λ es. ok (keep (passes not_equal k) (to_list t))
  search_one _ k t = ok []

  -- `BPlusTree.search`; `none` is a thrown `TypeError`, `undefined` the key of a missing value.
  unfoldable pub search :
      Settings → K → Operator → Operand K → Tree K M → Option (List (LeafEntry K M))
  unfolding search_one
  search c undefined op (array ks) t = none
  search c undefined op (one k) t =
      if takes_array op
      then none
      else elim (search_one (rewrite_operator undefined op k).0 (rewrite_operator undefined op k).1
          t) [ err e ↦ none | ok es ↦ some (map (shown c) es) ]
