-- ===== src/BTree/Put.antt =====
-- src/btree/tree-leaf.ts: `put` on a run of entries with smaller keys before it and greater keys behind.
use acebase.Prelude.{◌≡◌, Bool, true, List, [], ◌∷◌, ◌++◌, refl, arith, All}
use Prim.Native.Nat.Ordering.{lt, gt}
use acebase.Order.{Order}
use acebase.BTree.{LeafEntry, EntryValue, ok, ◌>>=◌, put, has_key, push_value, insert_entry}

module _ {K : Type 0} {M : Type 0} ⦃o : Order K⦄ where
  -- All keys are less than `k`, or greater.
  abbrev pub AllLess : K → List (LeafEntry K M) → Type 0
  AllLess k es = All (λ e. o.cmp e.key k ≡ lt) es

  abbrev pub AllMore : K → List (LeafEntry K M) → Type 0
  AllMore k es = All (λ e. o.cmp e.key k ≡ gt) es

  pub has_key-less :
      (k : K) (pre es : List (LeafEntry K M)) → AllLess k pre → has_key k (pre ++ es) ≡ has_key k es
  has_key-less k [] es h = refl
  has_key-less k (e ∷ pre) es h = ground (arith, has_key-less k pre es h.1)

  pub has_key-more :
      (k : K) (es post : List (LeafEntry K M))
      → AllMore k post
      → has_key k (es ++ post) ≡ has_key k es
  has_key-more k [] [] h = refl
  has_key-more k [] (e ∷ post) h = ground (arith, has_key-more k [] post h.1)
  has_key-more k (e ∷ es) post h = ground (arith, has_key-more k es post h)

  push_value-less :
      (k : K) (v : EntryValue M) (pre es : List (LeafEntry K M))
      → AllLess k pre
      → push_value k v (pre ++ es) ≡ pre ++ push_value k v es
  push_value-less k v [] es h = refl
  push_value-less k v (e ∷ pre) es h = ground (arith, push_value-less k v pre es h.1)

  push_value-more :
      (k : K) (v : EntryValue M) (es post : List (LeafEntry K M))
      → has_key k es ≡ true
      → push_value k v (es ++ post) ≡ push_value k v es ++ post
  push_value-more k v [] post h = cc
  push_value-more k v (e ∷ es) post h = ground (arith, push_value-more k v es post)

  insert_entry-less :
      (a : LeafEntry K M) (pre es : List (LeafEntry K M))
      → AllLess a.key pre
      → insert_entry a (pre ++ es) ≡ pre ++ insert_entry a es
  insert_entry-less a [] es h = refl
  insert_entry-less a (e ∷ pre) es h = ground (arith, insert_entry-less a pre es h.1)

  insert_entry-more :
      (a : LeafEntry K M) (es post : List (LeafEntry K M))
      → AllMore a.key post
      → insert_entry a (es ++ post) ≡ insert_entry a es ++ post
  insert_entry-more a [] [] h = refl
  insert_entry-more a [] (e ∷ post) h = ground arith
  insert_entry-more a (e ∷ es) post h = ground (arith, insert_entry-more a es post h)

  pub put-less :
      (u : Bool) (k : K) (v : EntryValue M) (pre es : List (LeafEntry K M))
      → AllLess k pre
      → put u k v (pre ++ es) ≡ (put u k v es >>= λ es'. ok (pre ++ es'))
  unfolding put
  put-less u k v pre es h = ground (
    arith,
    has_key-less k pre es h,
    push_value-less k v pre es h,
    insert_entry-less (record { key = k; values = v ∷ [] }) pre es h,
  )

  pub put-more :
      (u : Bool) (k : K) (v : EntryValue M) (es post : List (LeafEntry K M))
      → AllMore k post
      → put u k v (es ++ post) ≡ (put u k v es >>= λ es'. ok (es' ++ post))
  unfolding put
  put-more u k v es post h = ground (
    arith,
    has_key-more k es post h,
    push_value-more k v es post,
    insert_entry-more (record { key = k; values = v ∷ [] }) es post h,
  )
