-- ===== src/Compare.antt =====
-- src/btree/typesafe-compare.ts: comparison of the values that can be keys of an index, which are no
-- objects but dates. Numbers other than NaN, the time values of valid dates, and bigints are taken from
-- a linearly ordered type, in which 0 and -0 are one; a string is the list of its code units.
pub mod Laws
mod Tests
use acebase.Prelude.{
  ℕ, ltb, ◌==◌, Bool, true, false, not, ◌&&◌, List, if◌then◌else◌, compare, Ordering, Option, none,
  some,
}
use Prim.Native.Nat.Ordering.{lt, eq, gt}
use acebase.Order.{Order, is_lt, is_eq, is_gt, bool_cmp, lex_cmp}

pub data Value (N : Type 0) : Type 0 where
  undefined null : Value N
  boolean : Bool → Value N
  number bigint date : N → Value N
  nan invalid_date : Value N
  string : List ℕ → Value N

-- What `_getComparibleValue` makes NaN of.
abbrev pub is_nan : {N : Type 0} → Value N → Bool
is_nan Value.nan = true
is_nan Value.invalid_date = true
is_nan _ = false

-- A value that compares.
pub data Comparable (N : Type 0) : Type 0 where
  null : Comparable N
  boolean : Bool → Comparable N
  number bigint : N → Comparable N
  string : List ℕ → Comparable N

-- A value as `_getComparibleValue` leaves it: NaN, of which all tests but `!==` are false, or a value
-- that compares.
pub data Compared (N : Type 0) : Type 0 where
  nan : Compared N
  ordered : Comparable N → Compared N

module _ {N : Type 0} where
  -- `_getComparibleValue`
  pub get_comparable : Value N → Compared N
  get_comparable Value.undefined = ordered Comparable.null
  get_comparable Value.null = ordered Comparable.null
  get_comparable (Value.boolean b) = ordered (Comparable.boolean b)
  get_comparable (Value.number n) = ordered (Comparable.number n)
  get_comparable (Value.bigint n) = ordered (Comparable.bigint n)
  get_comparable (Value.date n) = ordered (Comparable.number n)
  get_comparable (Value.string s) = ordered (Comparable.string s)
  get_comparable Value.nan = Compared.nan
  get_comparable Value.invalid_date = Compared.nan

  -- The place of `typeof val` in the order of the names bigint, boolean, number, object, string.
  abbrev pub type_of : Compared N → ℕ
  type_of (ordered Comparable.null) = 3
  type_of (ordered (Comparable.boolean b)) = 1
  type_of (ordered (Comparable.number n)) = 2
  type_of (ordered (Comparable.bigint n)) = 0
  type_of (ordered (Comparable.string s)) = 4
  type_of Compared.nan = 2

  abbrev pub is_null : Compared N → Bool
  is_null (ordered Comparable.null) = true
  is_null _ = false

-- What a test says of how two values compare, and false where they do not.
abbrev pub holds : (Ordering → Bool) → Option Ordering → Bool
holds test none = false
holds test (some r) = test r

-- The end of `_sortCompare`: 0 where neither value is less.
abbrev pub or_zero : Option Ordering → Ordering
or_zero none = eq
or_zero (some r) = r

module _ {N : Type 0} ⦃o : Order N⦄ where
  -- JavaScript's order on two values of one type. The tests below never reach it with two types.
  abbrev pub same_type_cmp : Comparable N → Comparable N → Ordering
  same_type_cmp (Comparable.boolean a) (Comparable.boolean b) = bool_cmp a b
  same_type_cmp (Comparable.number a) (Comparable.number b) = o.cmp a b
  same_type_cmp (Comparable.bigint a) (Comparable.bigint b) = o.cmp a b
  same_type_cmp (Comparable.string a) (Comparable.string b) = lex_cmp a b
  same_type_cmp _ _ = eq

  -- How two values of one type compare, if they do.
  abbrev pub relation : Compared N → Compared N → Option Ordering
  relation (ordered a) (ordered b) = some (same_type_cmp a b)
  relation _ _ = none

  pub is_equal : Value N → Value N → Bool
  unfolding get_comparable
  is_equal val1 val2 =
      let a = get_comparable val1 in
      let b = get_comparable val2 in
      if not (type_of a == type_of b) then false else holds is_eq (relation a b)

  pub is_not_equal : Value N → Value N → Bool
  unfolding get_comparable
  is_not_equal val1 val2 =
      let a = get_comparable val1 in
      let b = get_comparable val2 in
      if not (type_of a == type_of b) then true else not (holds is_eq (relation a b))

  pub is_less : Value N → Value N → Bool
  unfolding get_comparable
  is_less val1 val2 =
      let a = get_comparable val1 in
      let b = get_comparable val2 in
      if is_null b
      then false
      else if is_null a
      then not (is_null b)
      else if not (type_of a == type_of b)
      then ltb (type_of a) (type_of b)
      else holds is_lt (relation a b)

  pub is_less_or_equal : Value N → Value N → Bool
  unfolding get_comparable
  is_less_or_equal val1 val2 =
      let a = get_comparable val1 in
      let b = get_comparable val2 in
      if is_null a
      then true
      else if is_null b
      then false
      else if not (type_of a == type_of b)
      then ltb (type_of a) (type_of b)
      else holds (λ r. not (is_gt r)) (relation a b)

  pub is_more : Value N → Value N → Bool
  unfolding get_comparable
  is_more val1 val2 =
      let a = get_comparable val1 in
      let b = get_comparable val2 in
      if is_null a
      then false
      else if is_null b
      then true
      else if not (type_of a == type_of b)
      then ltb (type_of b) (type_of a)
      else holds is_gt (relation a b)

  pub is_more_or_equal : Value N → Value N → Bool
  unfolding get_comparable
  is_more_or_equal val1 val2 =
      let a = get_comparable val1 in
      let b = get_comparable val2 in
      if is_null a
      then is_null b
      else if is_null b
      then true
      else if not (type_of a == type_of b)
      then ltb (type_of b) (type_of a)
      else holds (λ r. not (is_lt r)) (relation a b)

  -- `_sortCompare` behind `_getComparibleValue`; -1, 0 and 1 are `lt`, `eq` and `gt`.
  pub compared_cmp : Compared N → Compared N → Ordering
  compared_cmp a b =
      if is_null a && not (is_null b)
      then lt
      else if not (is_null a) && is_null b
      then gt
      else if ltb (type_of a) (type_of b)
      then lt
      else if ltb (type_of b) (type_of a)
      then gt
      else or_zero (relation a b)

  -- `_sortCompare` on values that compare.
  pub comparable_cmp : Comparable N → Comparable N → Ordering
  unfolding compared_cmp
  comparable_cmp a b = compared_cmp (ordered a) (ordered b)

  pub sort_compare : Value N → Value N → Ordering
  unfolding get_comparable compared_cmp
  sort_compare val1 val2 = compared_cmp (get_comparable val1) (get_comparable val2)
