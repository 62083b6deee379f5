-- ===== src/Opcode/Names.antt =====
-- Wire names of opcodes, `NameToOpcode` of internal/bytecode/opcode.go.
use howlframe.Common.{
  String, ◌≡◌, refl, true, false, some, List, [], ◌∷◌, ◌↔◌, arith, eq_iff, inl, inr, Bool-cases,
  subst,
}
use howlframe.Opcode.{
  Opcode, registry, registered, find_name, has_name, name_to_opcode, is_registered, is_zero,
  spec_of, load_const, unknown,
}

-- No earlier entry of the registry has the name of a registered opcode.
name_to_opcode-spec_of :
    (op : Opcode) → is_registered op ≡ true → name_to_opcode (spec_of op).name ≡ some op
unfolding name_to_opcode is_registered spec_of
name_to_opcode-spec_of load_const h = refl
name_to_opcode-spec_of unknown h = cc
name_to_opcode-spec_of (Opcode.numbered n) h = cc
name_to_opcode-spec_of _ h = refl

has_name_sound :
    (name : String) (op : Opcode)
    → has_name name (registry op) ≡ true
    → (is_registered op ≡ true) × ((spec_of op).name ≡ name)
unfolding is_registered spec_of
has_name_sound name op h = ground (arith, eq_iff (spec_of op).name name)

find_name_sound :
    (name : String) (ops : List Opcode) (op : Opcode)
    → find_name name ops ≡ some op
    → (is_registered op ≡ true) × ((spec_of op).name ≡ name)
unfolding find_name
find_name_sound name [] op h = cc
find_name_sound name (o ∷ ops) op h = elim (Bool-cases (has_name name (registry o))) [
  | inl e ↦
      let same : o ≡ op = ground arith in
      subst (λ p. (is_registered p ≡ true) × ((spec_of p).name ≡ name)) same
        (has_name_sound name o e)
  | inr e ↦ find_name_sound name ops op (rw e at h)
]

-- `name_to_opcode` finds exactly the registered opcode that has the name: names are unique, so the
-- order in which the source's map is read does not matter.
pub name_to_opcode_iff :
    (name : String) (op : Opcode)
    → (name_to_opcode name ≡ some op) ↔ ((is_registered op ≡ true) × ((spec_of op).name ≡ name))
name_to_opcode_iff name op = (
  unfold name_to_opcode in find_name_sound name registered op,
  λ (r, e). subst (λ n. name_to_opcode n ≡ some op) e (name_to_opcode-spec_of op r),
)

pub is_zero→unknown : (op : Opcode) → is_zero op ≡ true → op ≡ unknown
unfolding is_zero
is_zero→unknown unknown h = refl
is_zero→unknown _ h = cc

-- The zero opcode is no key of the registry.
pub is_registered→not_zero : (op : Opcode) → is_registered op ≡ true → is_zero op ≡ false
unfolding is_zero is_registered
is_registered→not_zero unknown h = cc
is_registered→not_zero _ h = refl
