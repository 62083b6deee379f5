-- ===== src/Validate/Resolve.antt =====
-- The single tests of `validateInstructions`: opcodes, constants and callees.
use howlframe.Common.{
  ◌≢◌, refl, ◌↔◌, lookup, if◌then◌else◌, ℕ, String, ◌≡◌, true, Option, none, some, arith, ◌⊎◌, inl,
  inr, Bool-cases,
}
use howlframe.Common.Result.{err, ok}
use howlframe.Opcode.{call, Opcode, is_registered, name_to_opcode, is_zero, unknown, load_const}
use howlframe.Opcode.Names.{is_zero→unknown, is_registered→not_zero}
use howlframe.Program.{Value, float, Functions}
use howlframe.Validate.{
  present, check_call, InvalidProgram, check_opcode, named_opcode, check_constant,
}
use howlframe.Validate.Fits.{ConstantFits, CalleeExists}

-- The opcode by which an instruction with opcode `o` and this name is checked.
abbrev pub Resolves : String → Opcode → Opcode → Type 0
Resolves name o op =
    ((o ≡ op) × (is_registered op ≡ true)) ⊎ ((o ≡ unknown) × (name_to_opcode name ≡ some op))

named_opcode-eq-ok :
    (i : ℕ) (name : String) (found : Option Opcode) (op : Opcode)
    → named_opcode i name found ≡ ok op
    → found ≡ some op
named_opcode-eq-ok i name none op h = cc
named_opcode-eq-ok i name (some o) op h = cc

registered-eq-ok :
    (o op : Opcode) (e : InvalidProgram)
    → (if is_registered o then ok o else err e) ≡ ok op
    → (o ≡ op) × (is_registered op ≡ true)
registered-eq-ok o op e h = elim (Bool-cases (is_registered o)) [
  | inl r ↦ let same : o ≡ op = cc (rw r at h) in (same, rw (← same) r)
  | inr r ↦ cc (rw r at h)
]

pub check_opcode-Resolves :
    (i : ℕ) (name : String) (o op : Opcode) → check_opcode i name o ≡ ok op → Resolves name o op
unfolding check_opcode
check_opcode-Resolves i name o op h = elim (Bool-cases (is_zero o)) [
  | inl z ↦
      inr (is_zero→unknown o z, named_opcode-eq-ok i name (name_to_opcode name) op (rw z at h))
  | inr z ↦ inl (registered-eq-ok o op _ (rw z at h))
]

pub Resolves-check_opcode :
    (i : ℕ) (name : String) (o op : Opcode) → Resolves name o op → check_opcode i name o ≡ ok op
unfolding check_opcode is_zero
Resolves-check_opcode i name o op (inl (e, r)) = rw (e, is_registered→not_zero op r, r)
Resolves-check_opcode i name o op (inr (e, r)) = rw (e, r)

pub check_constant-ConstantFits :
    (i : ℕ) (op : Opcode) (v : Value) → check_constant i op v ≡ ok tt → ConstantFits op v
unfolding check_constant
check_constant-ConstantFits i load_const (float bits) h = ground arith
check_constant-ConstantFits i load_const _ h = tt
check_constant-ConstantFits i _ v h = tt

pub ConstantFits-check_constant :
    (i : ℕ) (op : Opcode) (v : Value) → ConstantFits op v → check_constant i op v ≡ ok tt
unfolding check_constant
ConstantFits-check_constant i load_const (float bits) h = rw h
ConstantFits-check_constant i load_const _ h = refl
ConstantFits-check_constant i _ v h = refl

present-ok {ℓ} :
    {A : Type ℓ} (o : Option A) (e : InvalidProgram) → (present o e ≡ ok tt) ↔ (o ≢ none)
present-ok none e = (λ h. cc, λ h. absurd (h refl))
present-ok (some a) e = (λ h. cc, λ h. refl)

module _ (functions : Functions) (i : ℕ) (name : String) where
  pub check_call-CalleeExists :
      (op : Opcode) → check_call functions i op name ≡ ok tt → CalleeExists functions op name
  unfolding check_call
  check_call-CalleeExists call h = (present-ok (lookup name functions) _).0 h
  check_call-CalleeExists _ h = tt

  pub CalleeExists-check_call :
      (op : Opcode) → CalleeExists functions op name → check_call functions i op name ≡ ok tt
  unfolding check_call
  CalleeExists-check_call call h = (present-ok (lookup name functions) _).1 h
  CalleeExists-check_call _ h = refl
