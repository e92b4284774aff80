-- ===== src/BTree/Found.antt =====
-- src/btree/tree.ts: `find` and `search` against the sorted list of the tree's entries.
use acebase.Prelude.{
  ◌≡◌, inl, inr, Bool, true, false, Option, none, some, List, [], ◌∷◌, ◌++◌, refl, sym, ap, ◌∙◌,
  arith, All, Bool-cases, if◌then◌else◌, keep, find, take,
}
use mathlib.Core.List.{reverse}
use Prim.Native.Nat.Ordering.{lt, gt}
use acebase.Order.{Order, is_eq}
use acebase.BTree.{Tree, LeafEntry, EntryValue, Settings, to_list, find_values, values_found, ok}
use acebase.BTree.Put.{AllLess, AllMore}
use acebase.BTree.Ordered.{IsOrdered}
use acebase.BTree.Search.{
  Operator, less, less_or_equal, equal, Operand, one, array, takes_array, passes, option_list,
  search,
}
use acebase.BTree.Descent.{Located, located}

module _ {ℓ} {A : Type ℓ} where
  find-none_before :
      (p : A → Bool) (xs ys : List A) → All (λ x. p x ≡ false) xs → find p (xs ++ ys) ≡ find p ys
  find-none_before p [] ys h = refl
  find-none_before p (x ∷ xs) ys h = rw h.0 (find-none_before p xs ys h.1)

  find-none_behind :
      (p : A → Bool) (xs ys : List A) → All (λ x. p x ≡ false) ys → find p (xs ++ ys) ≡ find p xs
  find-none_behind p [] [] h = refl
  find-none_behind p [] (y ∷ ys) h = rw h.0 (find-none_behind p [] ys h.1)
  find-none_behind p (x ∷ xs) ys h = elim (Bool-cases (p x)) [
    | inl t ↦ rw t refl
    | inr f ↦ rw f (find-none_behind p xs ys h)
  ]

module _ {K : Type 0} {M : Type 0} ⦃o : Order K⦄ where
  -- `search` as a scan of the sorted list: backwards for `<` and `<=`.
  abbrev pub scan : Operator → K → List (LeafEntry K M) → List (LeafEntry K M)
  scan less k es = keep (passes less k) (reverse es)
  scan less_or_equal k es = keep (passes less_or_equal k) (reverse es)
  scan equal k es = option_list (find (passes equal k) es)
  scan op k es = keep (passes op k) es

  fails_below :
      (p : LeafEntry K M → Bool) (k : K) (es : List (LeafEntry K M))
      → ((e : LeafEntry K M) → o.cmp e.key k ≡ lt → p e ≡ false)
      → AllLess k es
      → All (λ e. p e ≡ false) es
  fails_below p k [] h a = tt
  fails_below p k (e ∷ es) h a = (h e a.0, fails_below p k es h a.1)

  fails_above :
      (p : LeafEntry K M → Bool) (k : K) (es : List (LeafEntry K M))
      → ((e : LeafEntry K M) → o.cmp e.key k ≡ gt → p e ≡ false)
      → AllMore k es
      → All (λ e. p e ≡ false) es
  fails_above p k [] h a = tt
  fails_above p k (e ∷ es) h a = (h e a.0, fails_above p k es h a.1)

  find-Located :
      (p : LeafEntry K M → Bool) (k : K) (pre es post all : List (LeafEntry K M))
      → Located k pre es post all
      → ((e : LeafEntry K M) → o.cmp e.key k ≡ lt → p e ≡ false)
      → ((e : LeafEntry K M) → o.cmp e.key k ≡ gt → p e ≡ false)
      → find p es ≡ find p all
  find-Located p k pre es post all (list, a, b) below above = sym (
      ap (find p) (sym list)
      ∙ find-none_before p pre (es ++ post) (fails_below p k pre below a)
      ∙ find-none_behind p es post (fails_above p k post above b))

  -- On an ordered tree, whose nodes all have entries, `find` returns, and answers as a search through
  -- all entries from the first leaf on.
  pub find_values-scan :
      (c : Settings) (t : Tree K M) (k : K)
      → IsOrdered none none t
      → find_values c t k ≡ ok (values_found c k (to_list t))
  unfolding find_values
  find_values-scan c t k w =
      let (es, found, l) = located k t none none w in
      rw found (
        ap
          (λ x. ok (elim x as (λ x. Option (List (EntryValue M))) [
            | none ↦ none
            | some e ↦ some (if c.unique_keys then take 1 e.values else e.values)
          ]))
          (find-Located (λ e. is_eq (o.cmp e.key k)) k _ _ _ _ l (λ e h. ground arith)
            (λ e h. ground arith)))

  -- An operator that needs an array never gives results: `search` throws with an array and without.
  pub search-array_throws :
      (c : Settings) (undefined : K) (op : Operator) (a : Operand K) (t : Tree K M)
      → takes_array op ≡ true
      → search c undefined op a t ≡ none
  unfolding search
  search-array_throws c u op (one k) t h = rw h refl
  search-array_throws c u op (array ks) t h = refl
