-- ===== src/Vm/Exact.antt =====
-- The checked int64 arithmetic of internal/vm/vm.go is exact or reports an overflow.
use howlframe.Common.{
  ◌-◌, ◌∙◌, sub_ℕ, zero, ap, ◌≤◌, ◌*◌, ◌/◌, ℕ, suc, false, ◌^◌, ◌≡◌, refl, arith, Bool, true, not,
  ◌&&◌, ◌||◌, ltb, ltb_ℤ, if◌then◌else◌, ℤ, pos, negsuc, ◌+ℤ◌, ◌-ℤ◌, Bool-cases, inl, inr,
}
use mathlib.Core.Bool.{and-eq-true_iff}
use native.Mathlib.Nat.{div-mul-le_self, div-le_self, mul-div_cancel, zero-div}
use howlframe.Common.Result.{Result, ok}
use howlframe.Vm.Value.{VmError}
use howlframe.Vm.Integer.{
  checked_mul, checked_sub, checked_add, mul_overflows, eq_ℤ, ◌/ℤ◌, ◌*ℤ◌, max_int64, min_int64,
  wrap_int64, overflow,
}

-- An integer that 64 bits hold.
abbrev pub is_int64 : ℤ → Bool
is_int64 (pos n) = ltb n (2 ^ 63)
is_int64 (negsuc n) = ltb n (2 ^ 63)

-- The integer itself, or the overflow error if 64 bits do not hold it.
abbrev pub exact : ℤ → Result VmError ℤ
exact z = if is_int64 z then ok z else overflow

wrap_int64_id : (z : ℤ) → is_int64 z ≡ true → wrap_int64 z ≡ z
unfolding wrap_int64
wrap_int64_id (pos n) h = ground arith
wrap_int64_id (negsuc n) h = ground arith

-- Arithmetic that wraps around unless its test reports an overflow.
wrap-exact :
    (t : Bool) (z : ℤ)
    → t ≡ not (is_int64 z)
    → (if t then overflow else ok (wrap_int64 z)) ≡ exact z
wrap-exact t z e = elim (Bool-cases (is_int64 z)) [
  | inl h ↦ rw (e, h, wrap_int64_id z h) refl
  | inr h ↦ rw (e, h) refl
]

add_test :
    (a b : ℤ)
    → is_int64 a ≡ true
    → is_int64 b ≡ true
    → (ltb_ℤ (pos 0) b && ltb_ℤ (max_int64 -ℤ b) a || ltb_ℤ b (pos 0) && ltb_ℤ a (min_int64 -ℤ b))
      ≡ not (is_int64 (a +ℤ b))
add_test (pos a) (pos b) p q = ground arith
add_test (pos a) (negsuc b) p q = ground arith
add_test (negsuc a) (pos b) p q = ground arith
add_test (negsuc a) (negsuc b) p q = ground arith

sub_test :
    (a b : ℤ)
    → is_int64 a ≡ true
    → is_int64 b ≡ true
    → (ltb_ℤ (pos 0) b && ltb_ℤ a (min_int64 +ℤ b) || ltb_ℤ b (pos 0) && ltb_ℤ (max_int64 +ℤ b) a)
      ≡ not (is_int64 (a -ℤ b))
sub_test (pos a) (pos b) p q = ground arith
sub_test (pos a) (negsuc b) p q = ground arith
sub_test (negsuc a) (pos b) p q = ground arith
sub_test (negsuc a) (negsuc b) p q = ground arith

product_le : (c b : ℕ) {a : ℕ} → c / b ≡ a → a * b ≤ c
product_le c b e = rw (← e) (div-mul-le_self c b)

-- The quotient that `mulOverflowsInt64` compares is the first factor only if the product is small.
mul_small :
    (a b c : ℤ)
    → is_int64 a ≡ true
    → is_int64 b ≡ true
    → is_int64 c ≡ true
    → eq_ℤ a (pos 0) ≡ false
    → (eq_ℤ b (negsuc 0) && eq_ℤ a min_int64) ≡ false
    → eq_ℤ (wrap_int64 (c /ℤ b)) a ≡ true
    → is_int64 (a *ℤ b) ≡ true
unfolding wrap_int64 ◌*ℤ◌ ◌/ℤ◌ eq_ℤ
mul_small (pos a) (pos b) (pos c) p q r z s e =
    let small = div-le_self c b in
    let quotient : c / b ≡ a = ground arith in let below = product_le c b quotient in ground arith
mul_small (pos a) (pos b) (negsuc c) p q r z s e = let small = div-le_self (suc c) b in ground arith
mul_small (pos a) (negsuc b) (pos c) p q r z s e = let small = div-le_self c (suc b) in ground arith
mul_small (pos a) (negsuc b) (negsuc c) p q r z s e =
    let small = div-le_self (suc c) (suc b) in
    let quotient : suc c / suc b ≡ a = ground arith in
    let below = product_le (suc c) (suc b) quotient in ground arith
mul_small (negsuc a) (pos b) (pos c) p q r z s e = let small = div-le_self c b in ground arith
mul_small (negsuc a) (pos b) (negsuc c) p q r z s e =
    let small = div-le_self (suc c) b in
    let quotient : suc c / b ≡ suc a = ground arith in
    let below = product_le (suc c) b quotient in ground arith
mul_small (negsuc a) (negsuc b) (pos c) p q r z s e =
    let small = div-le_self c (suc b) in
    let quotient : c / suc b ≡ suc a = ground arith in
    let below = product_le c (suc b) quotient in ground arith
mul_small (negsuc a) (negsuc b) (negsuc c) p q r z s e =
    let small = div-le_self (suc c) (suc b) in
    let quotient : suc c / suc b ≡ 2 ^ 63 = ground arith in
    let below = product_le (suc c) (suc b) quotient in ground arith

wrap_in_range : (z : ℤ) → is_int64 (wrap_int64 z) ≡ true
unfolding wrap_int64
wrap_in_range (pos n) = ground arith
wrap_in_range (negsuc n) = ground arith

minus_suc : (p : ℕ) → sub_ℕ 0 (suc p) ≡ negsuc p
minus_suc p = ground arith

-- A number that is subtracted from zero, divided by a negative or a positive number.
minus-quot_negsuc : (p b : ℕ) → sub_ℕ 0 p /ℤ negsuc b ≡ pos (p / suc b)
unfolding ◌/ℤ◌
minus-quot_negsuc zero b = ground (arith, zero-div (suc b))
minus-quot_negsuc (suc p) b = rw (minus_suc p) refl

minus-quot_pos : (p b : ℕ) → sub_ℕ 0 p /ℤ pos b ≡ sub_ℕ 0 (p / b)
unfolding ◌/ℤ◌
minus-quot_pos zero b = ground (arith, zero-div b)
minus-quot_pos (suc p) b = rw (minus_suc p) refl

-- Dividing a product by its second factor gives the first.
mul-quot : (a b : ℤ) → eq_ℤ b (pos 0) ≡ false → (a *ℤ b) /ℤ b ≡ a
unfolding ◌*ℤ◌ ◌/ℤ◌ eq_ℤ
mul-quot (pos a) (pos b) h = ap pos (mul-div_cancel a (ground arith))
mul-quot (pos a) (negsuc b) h =
    minus-quot_negsuc (a * suc b) b ∙ ap pos (mul-div_cancel a (omega arith))
mul-quot (negsuc a) (pos b) h =
    minus-quot_pos (suc a * b) b
    ∙ ap (sub_ℕ 0) (mul-div_cancel (suc a) (ground arith))
    ∙ minus_suc a
mul-quot (negsuc a) (negsuc b) h = ap (sub_ℕ 0) (mul-div_cancel (suc a) (omega arith)) ∙ minus_suc a

eq_ℤ_refl : (a : ℤ) → eq_ℤ a a ≡ true
unfolding eq_ℤ
eq_ℤ_refl (pos n) = ground arith
eq_ℤ_refl (negsuc n) = ground arith

mul_zero_left : (a b : ℤ) → eq_ℤ a (pos 0) ≡ true → is_int64 (a *ℤ b) ≡ true
unfolding ◌*ℤ◌ eq_ℤ
mul_zero_left (pos a) (pos b) h = let e : a ≡ 0 = ground arith in rw e (ground arith)
mul_zero_left (pos a) (negsuc b) h = let e : a ≡ 0 = ground arith in rw e (ground arith)
mul_zero_left (negsuc a) b h = ground arith

mul_zero_right : (a b : ℤ) → eq_ℤ b (pos 0) ≡ true → is_int64 (a *ℤ b) ≡ true
unfolding ◌*ℤ◌ eq_ℤ
mul_zero_right (pos a) (pos b) h = let e : b ≡ 0 = ground arith in rw e (ground arith)
mul_zero_right (negsuc a) (pos b) h = let e : b ≡ 0 = ground arith in rw e (ground arith)
mul_zero_right a (negsuc b) h = ground arith

-- The only overflow by a factor of -1.
mul_special :
    (a b : ℤ)
    → eq_ℤ a (negsuc 0) ≡ true
    → eq_ℤ b min_int64 ≡ true
    → (is_int64 (a *ℤ b) ≡ false) × (is_int64 (b *ℤ a) ≡ false)
unfolding ◌*ℤ◌ eq_ℤ
mul_special (pos a) b p q = ground arith
mul_special (negsuc a) (pos b) p q = ground arith
mul_special (negsuc a) (negsuc b) p q =
    let e : a ≡ 0 = ground arith in let f : b ≡ 2 ^ 63 - 1 = ground arith in rw (e, f) (refl, refl)

-- With factors that are not zero and without the special case, the test compares the quotient.
mul_quotient_test :
    (a b : ℤ)
    → is_int64 a ≡ true
    → is_int64 b ≡ true
    → eq_ℤ a (pos 0) ≡ false
    → eq_ℤ b (pos 0) ≡ false
    → (eq_ℤ b (negsuc 0) && eq_ℤ a min_int64) ≡ false
    → not (eq_ℤ (wrap_int64 (wrap_int64 (a *ℤ b) /ℤ b)) a) ≡ not (is_int64 (a *ℤ b))
mul_quotient_test a b p q za zb s = elim (Bool-cases (is_int64 (a *ℤ b))) [
  | inl r ↦ rw (wrap_int64_id (a *ℤ b) r, mul-quot a b zb, wrap_int64_id a p, eq_ℤ_refl a, r) refl
  | inr r ↦ elim (Bool-cases (eq_ℤ (wrap_int64 (wrap_int64 (a *ℤ b) /ℤ b)) a)) [
    | inl e ↦ cc (mul_small a b (wrap_int64 (a *ℤ b)) p q (wrap_in_range (a *ℤ b)) za s e)
    | inr e ↦ rw (e, r) refl
  ]
]

mul_nonzero_test :
    (a b : ℤ)
    → is_int64 a ≡ true
    → is_int64 b ≡ true
    → eq_ℤ a (pos 0) ≡ false
    → eq_ℤ b (pos 0) ≡ false
    → mul_overflows a b ≡ not (is_int64 (a *ℤ b))
unfolding mul_overflows
mul_nonzero_test a b p q za zb = elim (Bool-cases (eq_ℤ a (negsuc 0) && eq_ℤ b min_int64)) [
  | inl s ↦
      let (x, y) = (and-eq-true_iff _ _).0 s in
      rw (mul_overflows, za, zb, s, (mul_special a b x y).0) refl
  | inr s ↦ elim (Bool-cases (eq_ℤ b (negsuc 0) && eq_ℤ a min_int64)) [
    | inl t ↦
        let (x, y) = (and-eq-true_iff _ _).0 t in
        rw (mul_overflows, za, zb, s, t, (mul_special b a x y).1) refl
    | inr t ↦ rw (mul_overflows, za, zb, s, t) (mul_quotient_test a b p q za zb t)
  ]
]

-- `mulOverflowsInt64` is the test that the product is out of range.
mul_test :
    (a b : ℤ) → is_int64 a ≡ true → is_int64 b ≡ true → mul_overflows a b ≡ not (is_int64 (a *ℤ b))
unfolding mul_overflows
mul_test a b p q = elim (Bool-cases (eq_ℤ a (pos 0))) [
  | inl za ↦ rw (mul_overflows, za, mul_zero_left a b za) refl
  | inr za ↦ elim (Bool-cases (eq_ℤ b (pos 0))) [
    | inl zb ↦ rw (mul_overflows, za, zb, mul_zero_right a b zb) refl
    | inr zb ↦ mul_nonzero_test a b p q za zb
  ]
]

-- On two int64 values + - * give the sum, the difference and the product of the integers if 64 bits
-- hold it, and the overflow error otherwise.
pub checked_arithmetic_exact :
    (a b : ℤ)
    → is_int64 a ≡ true
    → is_int64 b ≡ true
    → (checked_add a b ≡ exact (a +ℤ b))
      × (checked_sub a b ≡ exact (a -ℤ b))
      × (checked_mul a b ≡ exact (a *ℤ b))
unfolding checked_add checked_sub checked_mul
checked_arithmetic_exact a b p q = (
  wrap-exact _ (a +ℤ b) (add_test a b p q),
  wrap-exact _ (a -ℤ b) (sub_test a b p q),
  wrap-exact (mul_overflows a b) (a *ℤ b) (mul_test a b p q),
)
