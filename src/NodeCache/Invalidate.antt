-- ===== src/NodeCache/Invalidate.antt =====
-- src/node-cache.ts: what `invalidate` and `cleanup` remove.
use acebase.Prelude.{
  ℕ, ◌<◌, ◌≡◌, inl, inr, refl, ap, subst, ◌∙◌, arith, Bool, true, false, not, ◌||◌, List, [], ◌∷◌,
  leb, if◌then◌else◌, Option, none, some, Bool-cases, In, In-keep, In-keep_intro, ◌↔◌,
}
use acebase.Order.{Order}
use acebase.NodeCache.{
  Entry, Cache, all_children, invalidate_child, invalidate_children, invalidate, cleanup,
}
use acebase.Assoc.{same, get, delete_key, get-delete_key, get-delete_key_other, same-equal}

module _ {P : Type 0} ⦃o : Order P⦄ where
  not_below :
      (is_ancestor : P → P → Bool) (p q r : P)
      → is_ancestor p q ≡ false
      → is_ancestor p r ≡ true
      → same r q ≡ false
  not_below is_ancestor p q r h t = elim (Bool-cases (same r q)) [
    | inr n ↦ n
    | inl s ↦ let no : is_ancestor p r ≡ false = ap (is_ancestor p) (same-equal r q s) ∙ h in cc
  ]

module _ {P : Type 0} {V : Type 0} {R : Type 0} {Key : Type 0} ⦃o : Order P⦄ (root : P)
    (is_ancestor : P → P → Bool) (key_below : P → P → Key) (rest_of : P → R) where
  abbrev child_gone : ℕ → P → P × Entry P V R → Cache P V R → Cache P V R
  child_gone now p e c = invalidate_child root is_ancestor key_below rest_of now p all_children e c

  abbrev children_gone : ℕ → P → List (P × Entry P V R) → Cache P V R → Cache P V R
  children_gone now p es c =
      invalidate_children root is_ancestor key_below rest_of now p all_children es c

  child_other :
      (now : ℕ) (p q : P) (e : P × Entry P V R) (c : Cache P V R)
      → same e.0 q ≡ false
      → get q (child_gone now p e c).entries ≡ get q c.entries
  unfolding invalidate_child
  child_other now p q e c h = elim (Bool-cases (is_ancestor p e.0)) [
    | inr n ↦ rw n refl
    | inl t ↦ rw t (get-delete_key_other q e.0 c.entries h)
  ]

  child_itself :
      (now : ℕ) (p q : P) (e : P × Entry P V R) (c : Cache P V R)
      → is_ancestor p q ≡ true
      → same e.0 q ≡ true
      → get q (child_gone now p e c).entries ≡ none
  unfolding invalidate_child
  child_itself now p q e c h s =
      let path : e.0 ≡ q = same-equal e.0 q s in
      let below : is_ancestor p e.0 ≡ true = ap (is_ancestor p) path ∙ h in
      rw below
        (subst (λ r. get r (delete_key e.0 c.entries) ≡ none) path (get-delete_key e.0 c.entries))

  child_not_below :
      (now : ℕ) (p q : P) (e : P × Entry P V R) (c : Cache P V R)
      → is_ancestor p q ≡ false
      → get q (child_gone now p e c).entries ≡ get q c.entries
  unfolding invalidate_child
  child_not_below now p q e c h = elim (Bool-cases (is_ancestor p e.0)) [
    | inr n ↦ rw n refl
    | inl t ↦ rw t (get-delete_key_other q e.0 c.entries (not_below is_ancestor p q e.0 h t))
  ]

  children_not_below :
      (now : ℕ) (p q : P) (es : List (P × Entry P V R)) (c : Cache P V R)
      → is_ancestor p q ≡ false
      → get q (children_gone now p es c).entries ≡ get q c.entries
  children_not_below now p q [] c h = refl
  children_not_below now p q (e ∷ es) c h =
      children_not_below now p q es (child_gone now p e c) h ∙ child_not_below now p q e c h

  children_below :
      (now : ℕ) (p q : P) (es : List (P × Entry P V R)) (c : Cache P V R)
      → is_ancestor p q ≡ true
      → (get q es ≡ none → get q c.entries ≡ none)
      → get q (children_gone now p es c).entries ≡ none
  children_below now p q [] c h f = f refl
  children_below now p q (e ∷ es) c h f = elim (Bool-cases (same e.0 q)) [
    | inl s ↦ children_below now p q es (child_gone now p e c) h (λ g. child_itself now p q e c h s)
    | inr n ↦
        children_below now p q es (child_gone now p e c) h
          (λ g. child_other now p q e c n ∙ f (ap (λ b. if b then some e.1 else get q es) n ∙ g))
  ]

  -- A recursive `invalidate` removes the path and all its descendants from the cache, and no others.
  pub invalidate-all :
      (now : ℕ) (p q : P) (c : Cache P V R)
      → get q (invalidate root is_ancestor key_below rest_of now p all_children c).entries
        ≡ (if same p q || is_ancestor p q then none else get q c.entries)
  unfolding invalidate
  invalidate-all now p q c = elim (Bool-cases (is_ancestor p q)) [
    | inl t ↦ below t (
        children_below now p q (delete_key p c.entries)
          (record c { entries = delete_key p c.entries }) t (λ g. g))
    | inr n ↦
        children_not_below now p q (delete_key p c.entries)
          (record c { entries = delete_key p c.entries }) n
        ∙ elim (Bool-cases (same p q)) [
          | inl s ↦ rw s (
              subst (λ r. get r (delete_key p c.entries) ≡ none) (same-equal p q s)
                (get-delete_key p c.entries))
          | inr d ↦ rw (d, n) (get-delete_key_other q p c.entries d)
        ]
  ]
    where
      below :
          {x : Option (Entry P V R)}
          → is_ancestor p q ≡ true
          → x ≡ none
          → x ≡ (if same p q || is_ancestor p q then none else get q c.entries)
      below t h = rw (h, t) (ground arith)

module _ {P : Type 0} {V : Type 0} {R : Type 0} ⦃o : Order P⦄ where
  -- `cleanup` keeps exactly the entries that have not expired.
  pub cleanup_iff :
      (now : ℕ) (e : P × Entry P V R) (c : Cache P V R)
      → In e (cleanup now c).entries ↔ (In e c.entries × (now < e.1.expires))
  unfolding cleanup
  cleanup_iff now e c = (
    λ m. let (i, t) = In-keep (λ d. not (leb d.1.expires now)) e c.entries m in (i, ground arith),
    λ m. In-keep_intro (λ d. not (leb d.1.expires now)) e c.entries m.0 (ground arith),
  )
