-- ===== src/FreeSpace/Sums.antt =====
-- src/storage/binary/index.ts: sums over free ranges, which count records.
use acebase.Prelude.{
  ℕ, ◌+◌, ◌≤◌, ◌≡◌, inl, inr, refl, sym, ap, ◌∙◌, arith, Bool, true, List, [], ◌∷◌, ◌++◌, In,
  Bool-cases, if◌then◌else◌, ◌==◌, ltb, leb, ◌&&◌,
}
use acebase.FreeSpace.{
  FreeRange, AddressRange, width, same_range, erase, advance, total_free, insert_range, sort_ranges,
}

-- Zero, and the two parts of a range add up to the range.
pub record IsAdditive (f : FreeRange → ℕ) : Type 0 where
  pub empty : (p s : ℕ) → f (record { page = p; start = s; end = s }) ≡ 0
  pub parts :
      (p s m e : ℕ)
      → s ≤ m
      → m ≤ e
      → f (record { page = p; start = s; end = m }) + f (record { page = p; start = m; end = e })
        ≡ f (record { page = p; start = s; end = e })

abbrev pub sum : (FreeRange → ℕ) → List FreeRange → ℕ
sum f [] = 0
sum f (r ∷ rs) = f r + sum f rs

-- The records of an address range, as a range.
abbrev pub as_free : AddressRange → FreeRange
as_free a = record { page = a.page_nr; start = a.record_nr; end = a.record_nr + a.length }

-- 1 for a range that holds the record, 0 for the others.
abbrev pub holds : ℕ → ℕ → FreeRange → ℕ
holds page record_nr r =
    if (r.page == page) && (leb r.start record_nr && ltb record_nr r.end) then 1 else 0

pub holds-IsAdditive : (page record_nr : ℕ) → IsAdditive (holds page record_nr)
holds-IsAdditive page record_nr = record {
  empty = λ p s. ground arith;
  parts = λ p s m e h k. ground arith;
}

pub width-IsAdditive : IsAdditive width
width-IsAdditive = record { empty = λ p s. ground arith; parts = λ p s m e h k. ground arith }

pub sum-width : (rs : List FreeRange) → sum width rs ≡ total_free rs
sum-width [] = refl
sum-width (r ∷ rs) = ap (width r +◌) (sum-width rs)

pub sum-append :
    (f : FreeRange → ℕ) (xs ys : List FreeRange) → sum f (xs ++ ys) ≡ sum f xs + sum f ys
sum-append f [] ys = ground arith
sum-append f (x ∷ xs) ys = ground (arith, sum-append f xs ys)

sum-insert_range :
    (f : FreeRange → ℕ) (le : FreeRange → FreeRange → Bool) (x : FreeRange) (xs : List FreeRange)
    → sum f (insert_range le x xs) ≡ f x + sum f xs
sum-insert_range f le x [] = refl
sum-insert_range f le x (y ∷ ys) = elim (Bool-cases (le x y)) [
  | inl t ↦ rw t refl
  | inr e ↦ rw e (ground (arith, sum-insert_range f le x ys))
]

pub sum-sort_ranges :
    (f : FreeRange → ℕ) (le : FreeRange → FreeRange → Bool) (xs : List FreeRange)
    → sum f (sort_ranges le xs) ≡ sum f xs
sum-sort_ranges f le [] = refl
sum-sort_ranges f le (x ∷ xs) =
    sum-insert_range f le x (sort_ranges le xs) ∙ ap (f x +◌) (sum-sort_ranges f le xs)

same_range-equal : (a b : FreeRange) → same_range a b ≡ true → a ≡ b
same_range-equal a b h = ground arith

same_range_refl : (a : FreeRange) → same_range a a ≡ true
same_range_refl a = ground arith

same_range_of : (a b : FreeRange) → a ≡ b → same_range b a ≡ true
same_range_of a b q = rw (← q) (same_range_refl a)

-- The records of addresses.
abbrev pub granted : (FreeRange → ℕ) → List AddressRange → ℕ
granted f [] = 0
granted f (a ∷ rest) = f (as_free a) + granted f rest

pub granted-append :
    (f : FreeRange → ℕ) (rest bs : List AddressRange)
    → granted f (rest ++ bs) ≡ granted f rest + granted f bs
granted-append f [] bs = ground arith
granted-append f (a ∷ rest) bs = ground (arith, granted-append f rest bs)

pub sum-erase :
    (f : FreeRange → ℕ) (x : FreeRange) (rs : List FreeRange)
    → In x rs
    → f x + sum f (erase x rs) ≡ sum f rs
sum-erase f x [] m = elim m [ ]
sum-erase f x (y ∷ ys) m = elim (Bool-cases (same_range y x)) [
  | inl t ↦ rw (t, same_range-equal y x t) refl
  | inr e ↦ elim m [
    | inl q ↦ ground (arith, same_range_of x y q)
    | inr m' ↦ rw e (ground (arith, sum-erase f x ys m'))
  ]
]

pub sum-advance :
    (f : FreeRange → ℕ) (x : FreeRange) (n : ℕ) (rs : List FreeRange)
    → In x rs
    → f x + sum f (advance x n rs) ≡ f (record x { start = x.start + n }) + sum f rs
sum-advance f x n [] m = elim m [ ]
sum-advance f x n (y ∷ ys) m = elim (Bool-cases (same_range y x)) [
  | inl t ↦ rw (t, same_range-equal y x t) (ground arith)
  | inr e ↦ elim m [
    | inl q ↦ ground (arith, same_range_of x y q)
    | inr m' ↦ rw e (ground (arith, sum-advance f x n ys m'))
  ]
]

-- Lists with the same sums have the same ranges.
abbrev pub SameSums : List FreeRange → List FreeRange → Type 0
SameSums xs ys = (f : FreeRange → ℕ) → sum f xs ≡ sum f ys

abbrev is_range : FreeRange → FreeRange → ℕ
is_range x y = if same_range y x then 1 else 0

In-of_sum : (x : FreeRange) (rs : List FreeRange) → 1 ≤ sum (is_range x) rs → In x rs
In-of_sum x [] h = ground arith
In-of_sum x (y ∷ ys) h = elim (Bool-cases (same_range y x)) [
  | inl t ↦ inl (sym (same_range-equal y x t))
  | inr e ↦ inr (In-of_sum x ys (ground arith))
]

pub SameSums-In : (x : FreeRange) (xs rs : List FreeRange) → SameSums (x ∷ xs) rs → In x rs
SameSums-In x xs rs h = In-of_sum x rs (ground (arith, h (is_range x), same_range_refl x))

pub SameSums-erase :
    (x : FreeRange) (xs rs : List FreeRange) → SameSums (x ∷ xs) rs → SameSums xs (erase x rs)
SameSums-erase x xs rs h f = ground (arith, h f, sum-erase f x rs (SameSums-In x xs rs h))

pub SameSums-advance :
    (x : FreeRange) (n : ℕ) (xs rs : List FreeRange)
    → SameSums (x ∷ xs) rs
    → SameSums (record x { start = x.start + n } ∷ xs) (advance x n rs)
SameSums-advance x n xs rs h f = ground (arith, h f, sum-advance f x n rs (SameSums-In x xs rs h))

pub SameSums-swap :
    (x : FreeRange) (xs ys rs : List FreeRange)
    → SameSums (x ∷ (xs ++ ys)) rs
    → SameSums (xs ++ x ∷ ys) rs
SameSums-swap x xs ys rs h f = ground (arith, h f, sum-append f xs ys, sum-append f xs (x ∷ ys))
