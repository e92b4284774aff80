-- ===== src/TreeBuilder/Create.antt =====
-- src/btree/tree-builder.ts: `create` as a whole.
use acebase.TreeBuilder.Bounds.{IsRoot-IsOrdered}
use acebase.BTree.Ordered.{InOrder, IsOrdered}
use acebase.TreeBuilder.Sorting.{sort-InOrder, AreDistinct}
use acebase.TreeBuilder.Leafs.{create_leafs-KeysAfter, create_leafs-IsBuilt, lists-create_leafs_all}
use acebase.TreeBuilder.Nodes.{parents-one, next_key-KeysAfter, IsRoot, create_level-IsNext}
use acebase.TreeBuilder.Level.{is_last-end, sizes, lists}
use acebase.TreeBuilder.Built.{IsBuilt}
use acebase.BTree.{nil, node, leaf, add_child, to_list}
use acebase.Prelude.{
  zero_plus, length-take, drop, take, ℕ, zero, suc, ◌+◌, ◌*◌, ◌≤◌, ◌<◌, ◌≡◌, arith, max, All, List,
  [], ◌∷◌, length, Option, none, sym, ◌∙◌, ◌⊎◌, inl, inr, subst, refl,
}
use mathlib.Core.List.{append-nil}
use acebase.TreeBuilder.{
  to_nodes, sort, key_at, finish, entries_per_node, add_children, Builder, create_level, Order,
  next_key, returns, Created, counts, Tree, LeafEntry, create_levels, build, create, create_leafs,
  divide_up,
}

parents-many : (e n : ℕ) → e + 1 < n → 2 ≤ (counts e n).parents
parents-many e n h = grind arith

parents-less : (e n : ℕ) → 2 ≤ e → 2 ≤ n → suc (counts e n).parents ≤ n
parents-less e n h k = grind arith

module _ {K : Type 0} {M : Type 0} (e per_leaf : ℕ) where
  -- A tree with the entries `es`: all leafs are `depth` levels below the root (a root that is a leaf
  -- has depth 1), a node but the root has at least half of the `e` entries that it may have, the root
  -- at least one, and a leaf is not empty and has at most `per_leaf` entries.
  abbrev pub IsCreated : List (LeafEntry K M) → Created K M → Type 0
  IsCreated es c = (to_list c.root ≡ es) × IsRoot (sizes e per_leaf) c.depth c.root

  module _ (two : 2 ≤ e) where
    -- The levels above `d` are built from nodes of that level.
    BuildsFrom : ℕ → ℕ → List (Tree K M) → Type 0
    BuildsFrom f d us =
        (c : Created K M) × (create_levels f e d us ≡ returns c) × IsCreated (lists us) c

    above_level :
        (f d n : ℕ)
        → 2 ≤ n
        → n ≤ suc f
        → (us : List (Tree K M)) → length us ≡ (counts e n).parents
        → ((e + 1 < n) × All (IsBuilt (sizes e per_leaf) (suc d)) us)
          ⊎ ((u : Tree K M) × (us ≡ u ∷ []) × IsRoot (sizes e per_leaf) (suc d) u)
        → ((t u : Tree K M) (ts : List (Tree K M))
            → length (t ∷ u ∷ ts) ≤ f
            → All (IsBuilt (sizes e per_leaf) (suc d)) (t ∷ u ∷ ts)
            → BuildsFrom f (suc d) (t ∷ u ∷ ts))
        → BuildsFrom f (suc d) us
    unfolding BuildsFrom create_levels to_list
    above_level zero d n l m us count next ih = absurd (omega arith)
    above_level (suc f) d n l m us count (inr (u, same, root)) ih =
        rw same (record { root = u; depth = suc d }, refl, (sym (append-nil (to_list u)), root))
    above_level (suc f) d n l m [] count (inl (more, a)) ih =
        absurd (omega (arith, parents-many e n more))
    above_level (suc f) d n l m (t ∷ []) count (inl (more, a)) ih =
        absurd (omega (arith, parents-many e n more))
    above_level (suc f) d n l m (t ∷ u ∷ ts) count (inl (more, a)) ih =
        ih t u ts (omega (arith, parents-less e n two l)) a

    create_levels-IsCreated :
        (f d : ℕ) (t u : Tree K M) (ts : List (Tree K M))
        → length (t ∷ u ∷ ts) ≤ f
        → All (IsBuilt (sizes e per_leaf) d) (t ∷ u ∷ ts)
        → BuildsFrom f d (t ∷ u ∷ ts)
    unfolding BuildsFrom create_levels
    create_levels-IsCreated zero d t u ts l a = absurd (omega arith)
    create_levels-IsCreated (suc f) d t u ts l a =
        let (us, r, next) =
          create_level-IsNext e per_leaf d two (next_key (t ∷ u ∷ ts)) t u ts a
            (next_key-KeysAfter e per_leaf d two (t ∷ u ∷ ts) a) in
        let (c, run, made) =
          above_level f d (length (t ∷ u ∷ ts)) (omega arith) l us next.1 next.2
            (create_levels-IsCreated f (suc d)) in
        (c, rw r run, (made.0 ∙ next.0, made.1))

create_level-one :
    {K M : Type 0} (e : ℕ) (key_after : ℕ → Option K) (t : Tree K M)
    → create_level e key_after (t ∷ []) ≡ returns (node nil t ∷ [])
unfolding create_level add_children add_child finish to_nodes
create_level-one e key_after t =
    let one : (counts e 1).parents ≡ 1 = parents-one e 1 (omega arith) (omega arith) in
    rw (is_last-end e 1 0 refl) (rw one refl)

module _ {K : Type 0} {M : Type 0} (e p : ℕ) (two : 2 ≤ e) (list : List (LeafEntry K M)) where
  -- The number of leafs is enough for the entries, and no leaf is empty unless it is the only one.
  pub build-IsCreated :
      (n : ℕ)
      → 1 ≤ n
      → length list ≤ n * suc p
      → (n ≡ 1) ⊎ (n * suc p < length list + suc p)
      → (c : Created K M) × (build e (suc p) n list ≡ returns c) × IsCreated e (suc p) list c
  unfolding build create_leafs to_list BuildsFrom
  build-IsCreated zero h l m = absurd (omega arith)
  build-IsCreated (suc zero) h l m =
      let es = take (suc p) (drop (0 * suc p) list) in
      (
        record { root = leaf es; depth = 1 },
        rw (create_level-one e (λ i. key_at list (i * suc p + suc p)) (leaf es)) refl,
        (
          sym (append-nil es) ∙ lists-create_leafs_all p list 1 l,
          (refl, omega (arith, length-take (suc p) (drop (0 * suc p) list))),
        ),
      )
  build-IsCreated (suc (suc n)) h l m =
      let ts = create_leafs (suc p) list 2 n in
      let key_after : ℕ → Option K = λ i. key_at list (i * suc p + suc p) in
      let t : Tree K M = leaf (take (suc p) (drop (0 * suc p) list)) in
      let u : Tree K M = leaf (take (suc p) (drop (1 * suc p) list)) in
      let enough : (0 + suc (suc n)) * suc p < length list + suc p = elim m [
        | inl one ↦ absurd (omega arith)
        | inr bound ↦ rw zero_plus bound
      ] in
      let (us, r, next) =
        create_level-IsNext e (suc p) 0 two key_after t u ts
          (create_leafs-IsBuilt p list e 0 (suc (suc n)) enough)
          (create_leafs-KeysAfter p list 0 (suc (suc n))) in
      let (c, run, made) =
        above_level e (suc p) two (length (t ∷ u ∷ ts)) 0 (length (t ∷ u ∷ ts)) (omega arith)
          (omega arith) us next.1 next.2
          (create_levels-IsCreated e (suc p) two (length (t ∷ u ∷ ts)) 1) in
      (c, rw r run, (made.0 ∙ next.0 ∙ lists-create_leafs_all p list (suc (suc n)) l, made.1))

leafs-enough : (len p : ℕ) → len ≤ max 1 (divide_up len (suc p)) * suc p
leafs-enough len p = grind arith

leafs-filled :
    (len p : ℕ)
    → (max 1 (divide_up len (suc p)) ≡ 1) ⊎ (max 1 (divide_up len (suc p)) * suc p < len + suc p)
leafs-filled len p = grind arith

build-enough :
    {K M : Type 0} (e q : ℕ) (list : List (LeafEntry K M))
    → 2 ≤ e
    → 1 ≤ q
    → (c : Created K M) × (build e q (max 1 (divide_up (length list) q)) list ≡ returns c)
      × IsCreated e q list c
build-enough e zero list two h = absurd (omega arith)
build-enough e (suc p) list two h =
    build-IsCreated e p two list (max 1 (divide_up (length list) (suc p))) (omega arith)
      (leafs-enough (length list) p) (leafs-filled (length list) p)

module _ {K : Type 0} {M : Type 0} ⦃o : Order K⦄ (scale : ℕ → ℕ → ℕ) (b : Builder K M)
    (max_entries : Option ℕ) where
  abbrev per_node : ℕ
  per_node = entries_per_node max_entries (length (sort b.list))

  abbrev per_leaf : ℕ
  per_leaf = max 3 (scale per_node b.fill_factor)

  -- With at least two entries per node, create of a builder whose keys differ returns a tree: the loop
  -- over the levels ends and no field of what is not there is read. The entries of the tree are those
  -- of the map, sorted; the tree is in order, and every node has an entry; all leafs are at the depth
  -- of the tree, with at most the number of entries of a leaf, a node but the root has between half
  -- of the entries of a node and all of them, and the root has one at least.
  pub create-IsCreated :
      2 ≤ per_node
      → AreDistinct b.list
      → (c : Created K M) × (create scale b max_entries ≡ returns c)
        × IsCreated per_node per_leaf (sort b.list) c
        × IsOrdered none none c.root
  unfolding create
  create-IsCreated two d =
      let (c, run, made) = build-enough per_node per_leaf (sort b.list) two (omega arith) in
      (
        c,
        run,
        made,
        IsRoot-IsOrdered (sizes per_node per_leaf) c.depth c.root (omega arith) made.1
            (subst (InOrder none none) (sym made.0) (sort-InOrder b.list d)),
      )
