-- ===== src/Vm/Float.antt =====
-- The float64 comparisons and conversions of internal/vm/vm.go, on IEEE 754 bit patterns.
use howlframe.Common.{
  ℕ, ◌+◌, ◌-◌, ◌*◌, ◌/◌, ◌%◌, ◌^◌, max, Bool, not, ◌&&◌, ◌||◌, ℤ, pos, leb, ◌==◌, if◌then◌else◌,
  ltb_ℤ, ◌-ℤ◌,
}
use howlframe.Program.{is_finite}

unfoldable pub exponent_bits : ℕ → ℕ
exponent_bits f = f / 2 ^ 52 % 2 ^ 11

unfoldable pub fraction_bits : ℕ → ℕ
fraction_bits f = f % 2 ^ 52

unfoldable pub is_negative : ℕ → Bool
is_negative f = f / 2 ^ 63 % 2 == 1

-- `math.IsNaN(f)`
unfoldable pub is_nan : ℕ → Bool
unfolding exponent_bits fraction_bits
is_nan f = exponent_bits f == 2047 && not (fraction_bits f == 0)

-- -n or n.
abbrev pub signed : Bool → ℕ → ℤ
signed b n = if b then pos 0 -ℤ pos n else pos n

-- Floats that are not NaN have the order of these numbers, and both zeros have the same.
unfoldable pub order_key : ℕ → ℤ
unfolding is_negative
order_key f = signed (is_negative f) (f % 2 ^ 63)

-- `a < b`, `a >= b` and `a == b`
unfoldable pub float_lt : ℕ → ℕ → Bool
unfolding order_key is_nan
float_lt a b = not (is_nan a) && not (is_nan b) && ltb_ℤ (order_key a) (order_key b)

unfoldable pub float_ge : ℕ → ℕ → Bool
unfolding order_key is_nan
float_ge a b = not (is_nan a) && not (is_nan b) && not (ltb_ℤ (order_key a) (order_key b))

unfoldable pub float_eq : ℕ → ℕ → Bool
unfolding float_ge
float_eq a b = float_ge a b && float_ge b a

-- 2^63 and -2^63
abbrev pub two_63 : ℕ
two_63 = 1086 * 2 ^ 52

abbrev pub minus_two_63 : ℕ
minus_two_63 = 3134 * 2 ^ 52

-- A finite float is its significand times 2^(scale - 1075).
unfoldable pub significand : ℕ → ℕ
unfolding exponent_bits fraction_bits
significand f = if exponent_bits f == 0 then fraction_bits f else fraction_bits f + 2 ^ 52

unfoldable pub scale : ℕ → ℕ
unfolding exponent_bits
scale f = max (exponent_bits f) 1

-- `f == math.Trunc(f)`
unfoldable pub is_whole : ℕ → Bool
unfolding is_nan significand scale
is_whole f = not (is_nan f) && (leb 1075 (scale f) || significand f % 2 ^ (1075 - scale f) == 0)

-- The whole part of the magnitude of a finite float.
unfoldable pub whole_part : ℕ → ℕ
unfolding significand scale
whole_part f =
    if leb 1075 (scale f)
    then significand f * 2 ^ (scale f - 1075)
    else significand f / 2 ^ (1075 - scale f)

-- `math.Trunc(f)`, as an integer.
unfoldable pub truncate : ℕ → ℤ
unfolding is_negative whole_part
truncate f = signed (is_negative f) (whole_part f)

-- `math.Floor(f)`, as an integer.
unfoldable pub floor : ℕ → ℤ
unfolding is_negative is_whole truncate
floor f = if is_negative f && not (is_whole f) then truncate f -ℤ pos 1 else truncate f

-- -2^63 <= f < 2^63
unfoldable pub in_int64_range : ℕ → Bool
unfolding float_ge float_lt
in_int64_range f = float_ge f minus_two_63 && float_lt f two_63

-- `floatIsWholeInt64`
unfoldable pub float_is_whole_int64 : ℕ → Bool
unfolding in_int64_range is_whole
float_is_whole_int64 f = is_finite f && in_int64_range f && is_whole f

-- `intEqualsFloat`
unfoldable pub int_equals_float : ℤ → ℕ → Bool
unfolding in_int64_range is_whole truncate
int_equals_float i f =
    is_whole f && in_int64_range f && not (ltb_ℤ (truncate f) i) && not (ltb_ℤ i (truncate f))
