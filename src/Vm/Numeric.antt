-- ===== src/Vm/Numeric.antt =====
-- How internal/vm/vm.go reads, compares and equates values as numbers.
use Prim.Native.Nat.{Ordering}
use howlframe.Common.{
  ℕ, Bool, true, false, ◌&&◌, ◌||◌, not, Option, none, some, ℤ, ltb_ℤ, ◌==◌, str_eq, str_lt,
  if◌then◌else◌,
}
use howlframe.Vm.Value.{Val, nil, bool, int, float, string, bytes, list, dict, handle, Host}
use howlframe.Vm.Float.{
  is_nan, float_lt, float_ge, float_eq, in_int64_range, truncate, floor, float_is_whole_int64,
  int_equals_float, two_63, minus_two_63,
}
use howlframe.Vm.Integer.{eq_ℤ}

-- `asInt64`
unfoldable pub as_int64 : Val → Option ℤ
as_int64 (int n) = some n
as_int64 _ = none

-- `toFloat64`
unfoldable pub to_float64 : Host → Val → Option ℕ
to_float64 host (int n) = some (host.float_of_int n)
to_float64 host (float f) = some f
to_float64 host _ = none

-- `int64(f)`
unfoldable pub int64_of_float : Host → ℕ → ℤ
int64_of_float host f = if in_int64_range f then truncate f else host.int_of_wild_float f

-- `ToInt`
unfoldable pub to_int : Host → Val → Option ℤ
unfolding int64_of_float
to_int host (int n) = some n
to_int host (float f) = some (int64_of_float host f)
to_int host (string t) = host.parse_int t
to_int host _ = none

-- The order of two int64 values, as -1, 0 or 1 in the source.
unfoldable pub compare_ints : ℤ → ℤ → Ordering
compare_ints a b = if ltb_ℤ a b then Ordering.lt else if ltb_ℤ b a then Ordering.gt else Ordering.eq

unfoldable pub reverse_order : Ordering → Ordering
reverse_order Ordering.lt = Ordering.gt
reverse_order Ordering.eq = Ordering.eq
reverse_order Ordering.gt = Ordering.lt

-- `cmpIntNonWholeFloat`
unfoldable pub compare_non_whole : ℤ → ℕ → Ordering
unfolding floor
compare_non_whole i f =
    if float_ge f two_63
    then Ordering.lt
    else if float_lt f minus_two_63
    then Ordering.gt
    else if not (ltb_ℤ (floor f) i)
    then Ordering.lt
    else Ordering.gt

unfoldable pub compare_floats : ℕ → ℕ → Ordering
unfolding float_lt
compare_floats a b =
    if float_lt a b then Ordering.lt else if float_lt b a then Ordering.gt else Ordering.eq

-- An int64 against a float64 in `compareNumeric`.
unfoldable pub compare_mixed : Host → ℤ → ℕ → Ordering
unfolding is_nan compare_non_whole compare_ints compare_floats float_is_whole_int64
compare_mixed host i f =
    if not (is_nan f) && not (float_is_whole_int64 f)
    then compare_non_whole i f
    else if float_is_whole_int64 f
    then compare_ints i (truncate f)
    else compare_floats (host.float_of_int i) f

-- `compareNumeric`: `none` where the source returns false.
unfoldable pub compare_numeric : Host → Val → Val → Option Ordering
unfolding compare_ints compare_floats compare_mixed reverse_order
compare_numeric host (int a) (int b) = some (compare_ints a b)
compare_numeric host (int a) (float b) = some (compare_mixed host a b)
compare_numeric host (float a) (int b) = some (reverse_order (compare_mixed host b a))
compare_numeric host (float a) (float b) = some (compare_floats a b)
compare_numeric host _ _ = none

-- `compareStrings`
unfoldable pub compare_strings : Val → Val → Option Ordering
unfolding str_lt
compare_strings (string a) (string b) =
    some (if str_lt a b then Ordering.lt else if str_lt b a then Ordering.gt else Ordering.eq)
compare_strings _ _ = none

-- `relationalHasNaN`; the conversion of an int64 is a number.
unfoldable pub relational_has_nan : Host → Val → Val → Bool
unfolding to_float64 is_nan
relational_has_nan host a b = elim (to_float64 host a) [
  | none ↦ false
  | some af ↦ elim (to_float64 host b) [ none ↦ false | some bf ↦ is_nan af || is_nan bf ]
]

-- `numericEqual`: `none` where `ok` is false.
unfoldable pub numeric_equal : Val → Val → Option Bool
unfolding eq_ℤ float_eq int_equals_float
numeric_equal (int a) (int b) = some (eq_ℤ a b)
numeric_equal (float a) (float b) = some (float_eq a b)
numeric_equal (int a) (float b) = some (int_equals_float a b)
numeric_equal (float a) (int b) = some (int_equals_float b a)
numeric_equal _ _ = none

-- `a == b` of two values that are neither numbers, lists nor maps.
unfoldable pub same_value : Val → Val → Bool
same_value nil nil = true
same_value (bool true) (bool b) = b
same_value (bool false) (bool b) = not b
same_value (string a) (string b) = str_eq a b
same_value (handle a) (handle b) = a == b
same_value _ _ = false

unfoldable pub is_collection : Val → Bool
is_collection (list _) = true
is_collection (bytes _) = true
is_collection (dict _) = true
is_collection _ = false

-- `BcValuesEqual`
unfoldable pub values_equal : Val → Val → Bool
unfolding is_collection numeric_equal same_value
values_equal a b =
    if is_collection a || is_collection b
    then false
    else elim (numeric_equal a b) [ some e ↦ e | none ↦ same_value a b ]
