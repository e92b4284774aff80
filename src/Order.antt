-- ===== src/Order.antt =====
-- Linear orders by a three-way comparison: the interface between the keys of an index, which
-- src/btree/typesafe-compare.ts compares, and the trees, which only need the laws.
use acebase.Prelude.{ℕ, ◌≡◌, Bool, true, false, List, [], ◌∷◌, refl, arith, compare, Ordering}
use Prim.Native.Nat.Ordering.{lt, eq, gt}

pub record IsLinear {ℓ} {K : Type ℓ} (cmp : K → K → Ordering) : Type ℓ where
  pub cmp_self : (a : K) → cmp a a ≡ eq
  pub eq_of_cmp : (a b : K) → cmp a b ≡ eq → a ≡ b
  pub cmp_gt_lt : (a b : K) → cmp a b ≡ gt → cmp b a ≡ lt
  pub cmp_lt_gt : (a b : K) → cmp a b ≡ lt → cmp b a ≡ gt
  pub cmp_trans : (a b c : K) → cmp a b ≡ lt → cmp b c ≡ lt → cmp a c ≡ lt

pub record Order {ℓ} (K : Type ℓ) : Type ℓ where
  pub cmp : K → K → Ordering
  pub linear : IsLinear cmp
  pub open linear use *

abbrev pub is_lt : Ordering → Bool
is_lt lt = true
is_lt _ = false

abbrev pub is_eq : Ordering → Bool
is_eq eq = true
is_eq _ = false

abbrev pub is_gt : Ordering → Bool
is_gt gt = true
is_gt _ = false

pub compare-IsLinear : IsLinear compare
compare-IsLinear = ground arith

instance unfoldable pub nat_order : Order ℕ
nat_order = record { cmp = compare; linear = compare-IsLinear }

-- false < true
abbrev pub bool_cmp : Bool → Bool → Ordering
bool_cmp false false = eq
bool_cmp false true = lt
bool_cmp true false = gt
bool_cmp true true = eq

-- The order of strings: by their code units, a prefix first.
unfoldable pub lex_cmp : List ℕ → List ℕ → Ordering
lex_cmp [] [] = eq
lex_cmp [] (y ∷ ys) = lt
lex_cmp (x ∷ xs) [] = gt
lex_cmp (x ∷ xs) (y ∷ ys) = elim (compare x y) [ lt ↦ lt | eq ↦ lex_cmp xs ys | gt ↦ gt ]

lex_cmp_self : (xs : List ℕ) → lex_cmp xs xs ≡ eq
unfolding lex_cmp
lex_cmp_self [] = refl
lex_cmp_self (x ∷ xs) = ground (arith, lex_cmp_self xs)

eq_of_lex_cmp : (xs ys : List ℕ) → lex_cmp xs ys ≡ eq → xs ≡ ys
unfolding lex_cmp
eq_of_lex_cmp [] [] h = refl
eq_of_lex_cmp [] (y ∷ ys) h = cc
eq_of_lex_cmp (x ∷ xs) [] h = cc
eq_of_lex_cmp (x ∷ xs) (y ∷ ys) h = ground (arith, eq_of_lex_cmp xs ys)

lex_cmp_antisym : (xs ys : List ℕ) → lex_cmp xs ys ≡ gt → lex_cmp ys xs ≡ lt
unfolding lex_cmp
lex_cmp_antisym [] [] h = cc
lex_cmp_antisym [] (y ∷ ys) h = cc
lex_cmp_antisym (x ∷ xs) [] h = refl
lex_cmp_antisym (x ∷ xs) (y ∷ ys) h = ground (arith, lex_cmp_antisym xs ys)

lex_cmp_sym : (xs ys : List ℕ) → lex_cmp xs ys ≡ lt → lex_cmp ys xs ≡ gt
unfolding lex_cmp
lex_cmp_sym [] [] h = cc
lex_cmp_sym [] (y ∷ ys) h = refl
lex_cmp_sym (x ∷ xs) [] h = cc
lex_cmp_sym (x ∷ xs) (y ∷ ys) h = ground (arith, lex_cmp_sym xs ys)

lex_cmp_trans : (xs ys zs : List ℕ) → lex_cmp xs ys ≡ lt → lex_cmp ys zs ≡ lt → lex_cmp xs zs ≡ lt
unfolding lex_cmp
lex_cmp_trans [] [] zs h k = k
lex_cmp_trans [] (y ∷ ys) [] h k = cc
lex_cmp_trans [] (y ∷ ys) (z ∷ zs) h k = refl
lex_cmp_trans (x ∷ xs) [] zs h k = cc
lex_cmp_trans (x ∷ xs) (y ∷ ys) [] h k = cc
lex_cmp_trans (x ∷ xs) (y ∷ ys) (z ∷ zs) h k = ground (arith, lex_cmp_trans xs ys zs)

pub lex_cmp-IsLinear : IsLinear lex_cmp
lex_cmp-IsLinear = record {
  cmp_self = lex_cmp_self;
  eq_of_cmp = eq_of_lex_cmp;
  cmp_gt_lt = lex_cmp_antisym;
  cmp_lt_gt = lex_cmp_sym;
  cmp_trans = lex_cmp_trans;
}
