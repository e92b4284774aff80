-- ===== src/Assoc.antt =====
-- The language's maps, and objects read and written by a key: lists of keys and values in the order
-- of insertion, with keys that an order compares. src/node-cache.ts and src/node-changes.ts use them.
use acebase.Prelude.{
  subst, ◌≡◌, inl, inr, refl, ap, Bool, true, false, not, List, [], ◌∷◌, keep, if◌then◌else◌,
  Option, none, some, Bool-cases, arith,
}
use acebase.Order.{Order, is_eq}

module _ {ℓ} {K : Type ℓ} ⦃o : Order K⦄ where
  abbrev pub same : K → K → Bool
  same p q = is_eq (o.cmp p q)

  pub same-equal : (p q : K) → same p q ≡ true → p ≡ q
  same-equal p q h = o.eq_of_cmp p q (ground arith)

  pub same_refl : (p : K) → same p p ≡ true
  same_refl p = rw (o.cmp_self p) refl

  pub same_sym : (p q : K) → same p q ≡ false → same q p ≡ false
  same_sym p q h = elim (Bool-cases (same q p)) [
    | inl t ↦
        let f = subst (λ x. same p x ≡ false) (same-equal q p t) h in let g = same_refl p in cc
    | inr f ↦ f
  ]

module _ {ℓ κ} {K : Type ℓ} {A : Type κ} ⦃o : Order K⦄ where
  -- `Map.get`, `Map.set` and `Map.delete`
  abbrev pub get : K → List (K × A) → Option A
  get p [] = none
  get p ((q, a) ∷ rest) = let other = get p rest in if same q p then some a else other

  abbrev pub set : K → A → List (K × A) → List (K × A)
  set p a [] = (p, a) ∷ []
  set p a ((q, b) ∷ rest) =
      let other = set p a rest in if same q p then (q, a) ∷ rest else (q, b) ∷ other

  abbrev pub delete_key : K → List (K × A) → List (K × A)
  delete_key p es = keep (λ e. not (same e.0 p)) es

  pub get-set : (p : K) (a : A) (es : List (K × A)) → get p (set p a es) ≡ some a
  get-set p a [] = rw (same_refl p) refl
  get-set p a ((q, b) ∷ es) = elim (Bool-cases (same q p)) [
    | inl t ↦ rw t (rw t refl)
    | inr f ↦ rw f (rw f (get-set p a es))
  ]

  pub get-set_other :
      (p q : K) (a : A) (es : List (K × A)) → same q p ≡ false → get p (set q a es) ≡ get p es
  get-set_other p q a [] h = rw h refl
  get-set_other p q a ((r, b) ∷ es) h = elim (Bool-cases (same r q)) [
    | inl t ↦ let other : same r p ≡ false = rw (same-equal r q t) h in rw t (rw other refl)
    | inr f ↦ rw f (ap (λ x. if same r p then some b else x) (get-set_other p q a es h))
  ]

  pub get-delete_key : (p : K) (es : List (K × A)) → get p (delete_key p es) ≡ none
  get-delete_key p [] = refl
  get-delete_key p ((q, b) ∷ es) = elim (Bool-cases (same q p)) [
    | inl t ↦ rw t (get-delete_key p es)
    | inr f ↦ rw f (rw f (get-delete_key p es))
  ]

  pub get-delete_key_other :
      (p q : K) (es : List (K × A)) → same q p ≡ false → get p (delete_key q es) ≡ get p es
  get-delete_key_other p q [] h = refl
  get-delete_key_other p q ((r, b) ∷ es) h = elim (Bool-cases (same r q)) [
    | inl t ↦
        let other : same r p ≡ false = rw (same-equal r q t) h in
        rw (t, other) (get-delete_key_other p q es h)
    | inr f ↦ rw f (ap (λ x. if same r p then some b else x) (get-delete_key_other p q es h))
  ]
