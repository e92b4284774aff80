-- ===== src/Compare/Tests.antt =====
-- src/btree/typesafe-compare.ts: the laws at concrete values.
use acebase.Prelude.{ℕ, ◌≡◌, true, false, [], ◌∷◌, refl}
use Prim.Native.Nat.Ordering.{eq}
use acebase.Order.{IsLinear, nat_order}
use acebase.Compare.{
  compared_cmp, get_comparable, Value, Comparable, is_less, is_equal, is_not_equal, is_more,
  sort_compare, comparable_cmp,
}
use acebase.Compare.Laws.{TestsAgree, tests-sort_compare, comparable_cmp-IsLinear}

abbrev missing : Value ℕ
missing = Value.undefined

abbrev day : Value ℕ
day = Value.date 5

abbrev nine : Value ℕ
nine = Value.number 9

abbrev text : Value ℕ
text = Value.string (1 ∷ [])

-- A missing value is less than all others, a date is its time, a number is less than a string.
mixed_types :
    (is_less missing nine ≡ true)
    × (is_equal day (Value.number 5) ≡ true)
    × (is_more text nine ≡ true)
unfolding is_less is_equal is_more nat_order
mixed_types = (refl, refl, refl)

-- NaN is not equal to itself, and sorts as equal to every number.
nan_sorts_alike :
    (is_equal {N = ℕ} Value.nan Value.nan ≡ false)
    × (is_not_equal {N = ℕ} Value.nan Value.nan ≡ true)
    × (sort_compare Value.nan nine ≡ eq)
    × (sort_compare {N = ℕ} Value.nan Value.invalid_date ≡ eq)
unfolding is_equal is_not_equal sort_compare get_comparable compared_cmp
nan_sorts_alike = (refl, refl, refl, refl)

tests-sort_compare_example : TestsAgree day nine
tests-sort_compare_example = tests-sort_compare day nine refl refl

comparable_cmp-IsLinear_example : IsLinear {K = Comparable ℕ} comparable_cmp
comparable_cmp-IsLinear_example = comparable_cmp-IsLinear
