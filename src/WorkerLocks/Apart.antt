-- ===== src/WorkerLocks/Apart.antt =====
-- src/ipc/ipc.ts: lists of objects or requests whose numbers differ.
use acebase.Prelude.{
  suc, All-keep, All-append, ℕ, ◌<◌, ◌≡◌, ◌≢◌, arith, Bool, true, not, List, [], ◌∷◌, ◌++◌, ◌==◌,
  keep, map, remove_first, Bool-cases, inl, inr, refl, sym, ap, ◌∙◌, All, All-In, In,
  keep_everything,
}

module _ {A : Type 0} where
  abbrev pub AreApart : (A → ℕ) → List A → Type 0
  AreApart f [] = Unit
  AreApart f (x ∷ xs) = All (λ y. f y ≢ f x) xs × AreApart f xs

  pub AreApart-keep :
      (f : A → ℕ) (p : A → Bool) (xs : List A) → AreApart f xs → AreApart f (keep p xs)
  AreApart-keep f p [] a = tt
  AreApart-keep f p (x ∷ xs) (h, a) = elim (Bool-cases (p x)) [
    | inl t ↦ rw t (All-keep _ p xs h, AreApart-keep f p xs a)
    | inr n ↦ rw n (AreApart-keep f p xs a)
  ]

  -- A new number.
  pub AreApart-append :
      (f : A → ℕ) (x : A) (xs : List A)
      → All (λ y. f y ≢ f x) xs
      → AreApart f xs
      → AreApart f (xs ++ x ∷ [])
  AreApart-append f x [] b a = (tt, tt)
  AreApart-append f x (y ∷ xs) (n, b) (h, a) =
      (All-append _ xs (x ∷ []) h ((λ e. n (sym e)), tt), AreApart-append f x xs b a)

  pub below-apart :
      (f : A → ℕ) (n : ℕ) (xs : List A) → All (λ y. f y < n) xs → All (λ y. f y ≢ n) xs
  below-apart f n [] b = tt
  below-apart f n (x ∷ xs) (l, b) = ((λ e. omega arith), below-apart f n xs b)

  pub below_next :
      (f : A → ℕ) (n : ℕ) (xs : List A) → All (λ y. f y < n) xs → All (λ y. f y < suc n) xs
  below_next f n [] b = tt
  below_next f n (x ∷ xs) (l, b) = (omega arith, below_next f n xs b)

  pub AreApart-map :
      (f : A → ℕ) (g : A → A) (xs : List A)
      → ((x : A) → f (g x) ≡ f x)
      → AreApart f xs
      → AreApart f (map g xs)
  AreApart-map f g [] e a = tt
  AreApart-map f g (x ∷ xs) e (h, a) = (others xs h, AreApart-map f g xs e a)
    where
      others : (ys : List A) → All (λ y. f y ≢ f x) ys → All (λ y. f y ≢ f (g x)) (map g ys)
      others [] h = tt
      others (y ∷ ys) (n, h) = ((λ q. n (sym (e y) ∙ q ∙ e x)), others ys h)

  -- One number, one element.
  pub apart_injective :
      (f : A → ℕ) (x y : A) (xs : List A) → AreApart f xs → In x xs → In y xs → f x ≡ f y → x ≡ y
  apart_injective f x y [] a m n e = elim m [ ]
  apart_injective f x y (z ∷ zs) (h, a) (inl p) (inl q) e = p ∙ sym q
  apart_injective f x y (z ∷ zs) (h, a) (inl p) (inr n) e =
      absurd (All-In _ zs y h n (sym e ∙ ap f p))
  apart_injective f x y (z ∷ zs) (h, a) (inr m) (inl q) e = absurd (All-In _ zs x h m (e ∙ ap f q))
  apart_injective f x y (z ∷ zs) (h, a) (inr m) (inr n) e = apart_injective f x y zs a m n e

  pub remove_first-keep :
      (f : A → ℕ) (k : ℕ) (xs : List A)
      → AreApart f xs
      → remove_first (λ x. f x == k) xs ≡ keep (λ x. not (f x == k)) xs
  remove_first-keep f k [] a = refl
  remove_first-keep f k (x ∷ xs) (h, a) = elim (Bool-cases (f x == k)) [
    | inl t ↦ rw t (sym (keep_everything _ xs (others xs (ground arith) h)))
    | inr n ↦ rw n (ap (◌∷◌ x) (remove_first-keep f k xs a))
  ]
    where
      others :
          (ys : List A) → f x ≡ k → All (λ y. f y ≢ f x) ys → All (λ y. not (f y == k) ≡ true) ys
      others [] e h = tt
      others (y ∷ ys) e (n, h) = (ground arith, others ys e h)
