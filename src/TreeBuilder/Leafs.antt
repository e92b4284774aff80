-- ===== src/TreeBuilder/Leafs.antt =====
-- src/btree/tree-builder.ts: the leafs, which are slices of the sorted entries.
use acebase.TreeBuilder.Level.{KeysAfter, lists, sizes}
use acebase.TreeBuilder.Built.{IsBuilt}
use acebase.BTree.{to_list}
use acebase.Prelude.{
  drop_all, zero_plus, drop-drop, take-append-drop, length-take, ℕ, zero, suc, ◌+◌, ◌*◌, ◌≤◌, ◌<◌,
  ◌≡◌, ◌≢◌, arith, All, List, [], ◌∷◌, ◌++◌, length, take, drop, ap, sym, ◌∙◌, refl,
}
use mathlib.Core.List.{append_assoc, append-nil}
use acebase.TreeBuilder.{head_key, LeafEntry, create_leafs, key_at}

module _ {K : Type 0} {M : Type 0} (p : ℕ) (list : List (LeafEntry K M)) where
  key_at-drop :
      (m : ℕ) (es : List (LeafEntry K M)) → key_at es m ≡ head_key (take (suc p) (drop m es))
  key_at-drop zero [] = refl
  key_at-drop zero (e ∷ es) = refl
  key_at-drop (suc m) [] = refl
  key_at-drop (suc m) (e ∷ es) = key_at-drop m es

  drop-ne-nil : (m : ℕ) (es : List (LeafEntry K M)) → m < length es → take (suc p) (drop m es) ≢ []
  drop-ne-nil zero [] h = absurd (omega arith)
  drop-ne-nil zero (e ∷ es) h = λ f. cc
  drop-ne-nil (suc m) [] h = absurd (omega arith)
  drop-ne-nil (suc m) (e ∷ es) h = drop-ne-nil m es (omega arith)

  pub length-create_leafs : (i n : ℕ) → length (create_leafs (suc p) list i n) ≡ n
  unfolding create_leafs
  length-create_leafs i zero = refl
  length-create_leafs i (suc n) = ap suc (length-create_leafs (suc i) n)

  pub create_leafs-KeysAfter :
      (i n : ℕ) → KeysAfter (λ j. key_at list (j * suc p + suc p)) i (create_leafs (suc p) list i n)
  unfolding create_leafs to_list
  create_leafs-KeysAfter i zero = tt
  create_leafs-KeysAfter i (suc zero) = tt
  create_leafs-KeysAfter i (suc (suc n)) = (
    key_at-drop (i * suc p + suc p) list
        ∙ ap (λ m. head_key (take (suc p) (drop m list))) (grind arith),
    create_leafs-KeysAfter (suc i) (suc n),
  )

  pub create_leafs-IsBuilt :
      (e i n : ℕ)
      → (i + n) * suc p < length list + suc p
      → All (IsBuilt (sizes e (suc p)) 0) (create_leafs (suc p) list i n)
  unfolding create_leafs
  create_leafs-IsBuilt e i zero h = tt
  create_leafs-IsBuilt e i (suc n) h = (
    (
      refl,
      drop-ne-nil (i * suc p) list (grind arith),
      omega (arith, length-take (suc p) (drop (i * suc p) list)),
    ),
    create_leafs-IsBuilt e (suc i) n (grind arith),
  )

  pub lists-create_leafs :
      (i n : ℕ)
      → lists (create_leafs (suc p) list i n) ++ drop ((i + n) * suc p) list ≡ drop (i * suc p) list
  unfolding create_leafs to_list
  lists-create_leafs i zero = ap (λ m. drop (m * suc p) list) (omega arith)
  lists-create_leafs i (suc n) =
      append_assoc (take (suc p) (drop (i * suc p) list))
        (lists (create_leafs (suc p) list (suc i) n)) (drop ((i + suc n) * suc p) list)
      ∙ ap (λ es. take (suc p) (drop (i * suc p) list) ++ es)
          (ap (λ m. lists (create_leafs (suc p) list (suc i) n) ++ drop (m * suc p) list)
              (omega arith)
            ∙ lists-create_leafs (suc i) n
            ∙ sym (drop-drop (suc p) (i * suc p) list ∙ ap (λ m. drop m list) (grind arith)))
      ∙ take-append-drop (suc p) (drop (i * suc p) list)

  -- All leafs together hold all entries.
  pub lists-create_leafs_all :
      (n : ℕ) → length list ≤ n * suc p → lists (create_leafs (suc p) list 0 n) ≡ list
  lists-create_leafs_all n h =
      let leafs = create_leafs (suc p) list 0 n in
      let at_end : drop ((0 + n) * suc p) list ≡ [] = rw zero_plus (drop_all (n * suc p) list h) in
      let none_before : 0 * suc p ≡ 0 = omega arith in
      let at_start : drop (0 * suc p) list ≡ list = rw none_before refl in
      sym (append-nil (lists leafs))
      ∙ ap (λ es. lists leafs ++ es) (sym at_end)
      ∙ lists-create_leafs 0 n
      ∙ at_start
