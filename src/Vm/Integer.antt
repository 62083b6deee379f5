-- ===== src/Vm/Integer.antt =====
-- The checked int64 arithmetic of internal/vm/vm.go.
use howlframe.Common.{
  suc, ◌+◌, ◌-◌, ◌*◌, ◌/◌, ◌%◌, ◌^◌, Bool, true, false, not, ◌&&◌, ◌||◌, ℤ, pos, negsuc,
  if◌then◌else◌, ltb_ℤ, ◌+ℤ◌, ◌-ℤ◌, [], sub_ℕ,
}
use howlframe.Common.Result.{Result, ok, err}
use howlframe.Opcode.{unknown}
use howlframe.Vm.Value.{VmError, runtime_error}

-- `math.MaxInt64` and `math.MinInt64`
abbrev pub max_int64 : ℤ
max_int64 = pos (2 ^ 63 - 1)

abbrev pub min_int64 : ℤ
min_int64 = negsuc (2 ^ 63 - 1)

-- The int64 that has the same last 64 bits.
unfoldable pub wrap_int64 : ℤ → ℤ
wrap_int64 (pos n) = sub_ℕ ((n + 2 ^ 63) % 2 ^ 64) (2 ^ 63)
wrap_int64 (negsuc n) = sub_ℕ ((2 ^ 64 + 2 ^ 63 - suc n % 2 ^ 64) % 2 ^ 64) (2 ^ 63)

infixl 70 ◌*ℤ◌ ◌/ℤ◌
unfoldable pub ◌*ℤ◌ : ℤ → ℤ → ℤ
pos a *ℤ pos b = pos (a * b)
pos a *ℤ negsuc b = sub_ℕ 0 (a * suc b)
negsuc a *ℤ pos b = sub_ℕ 0 (suc a * b)
negsuc a *ℤ negsuc b = pos (suc a * suc b)

-- `a / b`, which rounds towards zero; `b` is not zero.
unfoldable pub ◌/ℤ◌ : ℤ → ℤ → ℤ
pos a /ℤ pos b = pos (a / b)
pos a /ℤ negsuc b = sub_ℕ 0 (a / suc b)
negsuc a /ℤ pos b = sub_ℕ 0 (suc a / b)
negsuc a /ℤ negsuc b = pos (suc a / suc b)

unfoldable pub eq_ℤ : ℤ → ℤ → Bool
eq_ℤ a b = not (ltb_ℤ a b) && not (ltb_ℤ b a)

abbrev pub overflow : Result VmError ℤ
overflow = err (runtime_error "RUNTIME_ERROR" (pos 0) unknown "integer overflow" [])

-- `bcCheckedAddInt64`
unfoldable pub checked_add : ℤ → ℤ → Result VmError ℤ
checked_add a b =
    if ltb_ℤ (pos 0) b && ltb_ℤ (max_int64 -ℤ b) a || ltb_ℤ b (pos 0) && ltb_ℤ a (min_int64 -ℤ b)
    then overflow
    else ok (wrap_int64 (a +ℤ b))

-- `bcCheckedSubInt64`
unfoldable pub checked_sub : ℤ → ℤ → Result VmError ℤ
checked_sub a b =
    if ltb_ℤ (pos 0) b && ltb_ℤ a (min_int64 +ℤ b) || ltb_ℤ b (pos 0) && ltb_ℤ (max_int64 +ℤ b) a
    then overflow
    else ok (wrap_int64 (a -ℤ b))

-- `mulOverflowsInt64`
unfoldable pub mul_overflows : ℤ → ℤ → Bool
unfolding wrap_int64 ◌*ℤ◌ ◌/ℤ◌ eq_ℤ
mul_overflows a b =
    if eq_ℤ a (pos 0) || eq_ℤ b (pos 0)
    then false
    else if eq_ℤ a (negsuc 0) && eq_ℤ b min_int64 || eq_ℤ b (negsuc 0) && eq_ℤ a min_int64
    then true
    else not (eq_ℤ (wrap_int64 (wrap_int64 (a *ℤ b) /ℤ b)) a)

-- `bcCheckedMulInt64`
unfoldable pub checked_mul : ℤ → ℤ → Result VmError ℤ
unfolding wrap_int64 ◌*ℤ◌ mul_overflows
checked_mul a b = if mul_overflows a b then overflow else ok (wrap_int64 (a *ℤ b))
