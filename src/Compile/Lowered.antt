-- ===== src/Compile/Lowered.antt =====
-- The shape of compiled code: what the emitters of internal/bytecode/bytecode.go build.
use howlframe.Opcode.{
  Opcode, spec_of, unknown, numbered, jump, jump_if_false, for_init, for_next, try_let, spawn,
  spawn_agent, http_route,
}
use howlframe.Program.{Instruction}
use howlframe.Compile.Monad.{Code}
use howlframe.Compile.Emit.{emit_if, emit_while, emit_for, emit_try, emit_body, short_circuit}
use howlframe.Common.{String, ◌++◌, ◌≡◌, Bool, false, true, ◌∷◌, []}

-- An opcode that neither moves the instruction pointer nor holds a body.
unfoldable pub is_plain : Opcode → Bool
is_plain unknown = false
is_plain (numbered n) = false
is_plain jump = false
is_plain jump_if_false = false
is_plain for_init = false
is_plain for_next = false
is_plain try_let = false
is_plain spawn = false
is_plain spawn_agent = false
is_plain http_route = false
is_plain _ = true

-- An opcode whose operand is the length of the body behind it.
unfoldable pub holds_body : Opcode → Bool
holds_body spawn = true
holds_body spawn_agent = true
holds_body http_route = true
holds_body _ = false

abbrev pub IsNamed : Instruction → Type 0
IsNamed inst = inst.op_string ≡ (spec_of inst.op).name

abbrev pub IsPlain : Instruction → Type 0
IsPlain inst = (is_plain inst.op ≡ true) × IsNamed inst

abbrev pub IsHolder : Instruction → Type 0
IsHolder inst = (holds_body inst.op ≡ true) × IsNamed inst

-- Code in which jumps and bodies come only from the emitters, each over code of the same shape.
pub data Lowered : Code → Type 0 where
  empty : Lowered []
  plain : (inst : Instruction) → IsPlain inst → Lowered (inst ∷ [])
  join : {a b : Code} → Lowered a → Lowered b → Lowered (a ++ b)
  branch : {t c e : Code} → Lowered t → Lowered c → Lowered e → Lowered (emit_if t c e)
  loop : {t b : Code} → Lowered t → Lowered b → Lowered (emit_while t b)
  each :
      {items body : Code} (item : String)
      → Lowered items
      → Lowered body
      → Lowered (emit_for item items body)
  guarded :
      {v c s : Code} (name error : String)
      → Lowered v
      → Lowered c
      → Lowered s
      → Lowered (emit_try name error v c s)
  logical : {l r : Code} (op : String) → Lowered l → Lowered r → Lowered (short_circuit op l r)
  holder : {b : Code} (inst : Instruction) → IsHolder inst → Lowered b → Lowered (emit_body inst b)

-- Code and a plain instruction behind it, or in front of it.
pub Lowered-snoc :
    {code : Code} (inst : Instruction) → Lowered code → IsPlain inst → Lowered (code ++ inst ∷ [])
Lowered-snoc inst h p = join h (plain inst p)

pub Lowered-cons :
    {code : Code} (inst : Instruction) → IsPlain inst → Lowered code → Lowered (inst ∷ code)
Lowered-cons inst p h = join (plain inst p) h
