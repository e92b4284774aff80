-- ===== src/Compare/Laws.antt =====
-- src/btree/typesafe-compare.ts: the six tests and `_sortCompare` as an order.
use acebase.Prelude.{◌≡◌, true, false, not, refl, ap, arith}
use Prim.Native.Nat.Ordering.{lt, eq, gt}
use acebase.Order.{Order, IsLinear, is_lt, is_eq, is_gt, lex_cmp-IsLinear}
use acebase.Compare.{
  Value, Comparable, is_equal, is_not_equal, is_less, is_less_or_equal, is_more, is_more_or_equal,
  is_nan, comparable_cmp, compared_cmp, sort_compare, get_comparable,
}

module _ {N : Type 0} ⦃o : Order N⦄ where
  cmp_self : (a : Comparable N) → comparable_cmp a a ≡ eq
  unfolding comparable_cmp compared_cmp
  cmp_self Comparable.null = refl
  cmp_self (Comparable.boolean true) = refl
  cmp_self (Comparable.boolean false) = refl
  cmp_self (Comparable.number n) = o.cmp_self n
  cmp_self (Comparable.bigint n) = o.cmp_self n
  cmp_self (Comparable.string s) = lex_cmp-IsLinear.cmp_self s

  eq_of_cmp : (a b : Comparable N) → comparable_cmp a b ≡ eq → a ≡ b
  unfolding comparable_cmp compared_cmp
  eq_of_cmp (Comparable.number n) (Comparable.number m) h = ap Comparable.number (o.eq_of_cmp n m h)
  eq_of_cmp (Comparable.bigint n) (Comparable.bigint m) h = ap Comparable.bigint (o.eq_of_cmp n m h)
  eq_of_cmp (Comparable.string s) (Comparable.string t) h =
      ap Comparable.string (lex_cmp-IsLinear.eq_of_cmp s t h)
  eq_of_cmp _ _ h = ground arith

  comparable_cmp_antisym : (a b : Comparable N) → comparable_cmp a b ≡ gt → comparable_cmp b a ≡ lt
  unfolding comparable_cmp compared_cmp
  comparable_cmp_antisym (Comparable.number n) (Comparable.number m) h = o.cmp_gt_lt n m h
  comparable_cmp_antisym (Comparable.bigint n) (Comparable.bigint m) h = o.cmp_gt_lt n m h
  comparable_cmp_antisym (Comparable.string s) (Comparable.string t) h =
      lex_cmp-IsLinear.cmp_gt_lt s t h
  comparable_cmp_antisym _ _ h = ground arith

  comparable_cmp_sym : (a b : Comparable N) → comparable_cmp a b ≡ lt → comparable_cmp b a ≡ gt
  unfolding comparable_cmp compared_cmp
  comparable_cmp_sym (Comparable.number n) (Comparable.number m) h = o.cmp_lt_gt n m h
  comparable_cmp_sym (Comparable.bigint n) (Comparable.bigint m) h = o.cmp_lt_gt n m h
  comparable_cmp_sym (Comparable.string s) (Comparable.string t) h =
      lex_cmp-IsLinear.cmp_lt_gt s t h
  comparable_cmp_sym _ _ h = ground arith

  cmp_trans :
      (a b c : Comparable N)
      → comparable_cmp a b ≡ lt
      → comparable_cmp b c ≡ lt
      → comparable_cmp a c ≡ lt
  unfolding comparable_cmp compared_cmp
  cmp_trans (Comparable.number n) (Comparable.number m) (Comparable.number k) h g =
      o.cmp_trans n m k h g
  cmp_trans (Comparable.bigint n) (Comparable.bigint m) (Comparable.bigint k) h g =
      o.cmp_trans n m k h g
  cmp_trans (Comparable.string s) (Comparable.string t) (Comparable.string u) h g =
      lex_cmp-IsLinear.cmp_trans s t u h g
  cmp_trans _ _ _ h g = ground arith

  -- On the values that `_getComparibleValue` leaves, other than NaN and objects, `_sortCompare` is a linear
  -- order, if the numbers and the bigints are linearly ordered: two of these values are equal exactly
  -- if they compare as equal, the comparison of a pair turns round with the pair, and it is
  -- transitive.
  pub comparable_cmp-IsLinear : IsLinear {K = Comparable N} comparable_cmp
  comparable_cmp-IsLinear = record {
    cmp_self = cmp_self;
    eq_of_cmp = eq_of_cmp;
    cmp_gt_lt = comparable_cmp_antisym;
    cmp_lt_gt = comparable_cmp_sym;
    cmp_trans = cmp_trans;
  }

  instance unfoldable pub comparable_order : Order (Comparable N)
  comparable_order = record { cmp = comparable_cmp; linear = comparable_cmp-IsLinear }

  abbrev pub TestsAgree : Value N → Value N → Type 0
  TestsAgree a b =
      (is_equal a b ≡ is_eq (sort_compare a b))
      × (is_not_equal a b ≡ not (is_eq (sort_compare a b)))
      × (is_less a b ≡ is_lt (sort_compare a b))
      × (is_less_or_equal a b ≡ not (is_gt (sort_compare a b)))
      × (is_more a b ≡ is_gt (sort_compare a b))
      × (is_more_or_equal a b ≡ not (is_lt (sort_compare a b)))

  -- The six tests and `_sortCompare` answer alike, on values of one type or of two that are neither NaN,
  -- nor an invalid date, nor another object.
  pub tests-sort_compare : (a b : Value N) → is_nan a ≡ false → is_nan b ≡ false → TestsAgree a b
  unfolding is_equal is_not_equal is_less is_less_or_equal is_more is_more_or_equal sort_compare
      compared_cmp get_comparable
  tests-sort_compare (Value.boolean a) (Value.boolean b) h g = ground arith
  tests-sort_compare Value.nan b h g = cc
  tests-sort_compare Value.invalid_date b h g = cc
  tests-sort_compare a Value.nan h g = cc
  tests-sort_compare a Value.invalid_date h g = cc
  tests-sort_compare _ _ h g = ground arith
