-- ===== src/Validate.antt =====
-- internal/bytecode/artifact.go: `ValidateProgram`, run on every artifact before it is executed.
pub mod Fits
pub mod Resolve
pub mod Sound
mod Tests
use howlframe.Common.{
  ℕ, suc, ◌+◌, ◌-◌, String, Bool, true, false, ◌&&◌, ◌||◌, Option, none, some, List, [], ◌∷◌, ℤ,
  sub_ℕ, pos, ltb_ℤ, ◌-ℤ◌, length, lookup, if◌then◌else◌,
}
use howlframe.Common.Result.{Result, err, ok, ◌>>=◌, ◌>>◌}
use howlframe.Opcode.{
  Opcode, name_to_opcode, is_registered, is_zero, jump, jump_if_false, for_next, spawn_agent, spawn,
  http_route, try_let, load_const, call,
}
use howlframe.Program.{Value, float, Instruction, Function, Functions, Program, is_finite}

-- The segments of a TRY_LET.
pub data Segment : Type 0 where
  value catch success : Segment

-- The errors of `validateInstructions` and `ValidateProgram`, with the arguments of their messages.
pub data InvalidProgram : Type 0 where
  unknown_opcode_name : ℕ → String → InvalidProgram
  unknown_opcode : ℕ → Opcode → String → InvalidProgram
  jump_out_of_bounds : ℕ → ℤ → ℕ → InvalidProgram
  body_length : ℕ → Opcode → ℤ → ℤ → InvalidProgram
  try_length : ℕ → Segment → ℤ → ℤ → InvalidProgram
  not_finite : ℕ → ℕ → InvalidProgram
  missing_function : ℕ → String → InvalidProgram
  nil_function : String → InvalidProgram
  in_main : InvalidProgram → InvalidProgram
  in_function : String → InvalidProgram → InvalidProgram

abbrev pub Checked : Type 0
Checked = Result InvalidProgram (Unit {0})

-- `inst.Op`, or the opcode of `inst.OpString` where that is zero.
abbrev pub named_opcode : ℕ → String → Option Opcode → Result InvalidProgram Opcode
named_opcode i name none = err (unknown_opcode_name i name)
named_opcode i name (some op) = ok op

unfoldable pub check_opcode : ℕ → String → Opcode → Result InvalidProgram Opcode
check_opcode i name op =
    if is_zero op
    then named_opcode i name (name_to_opcode name)
    else if is_registered op
    then ok op
    else err (unknown_opcode i op name)

unfoldable pub is_jump : Opcode → Bool
is_jump jump = true
is_jump jump_if_false = true
is_jump for_next = true
is_jump _ = false

-- Jump targets: the offset of instruction `i` of `n` leads into [0, n].
unfoldable pub check_jump : ℕ → ℕ → Opcode → ℤ → Checked
unfolding is_jump
check_jump n i op offset =
    if is_jump op && (ltb_ℤ offset (sub_ℕ 0 i) || ltb_ℤ (sub_ℕ n i) offset)
    then err (jump_out_of_bounds i offset n)
    else ok tt

abbrev pub outside : ℤ → ℤ → Bool
outside size remaining = ltb_ℤ size (pos 0) || ltb_ℤ remaining size

unfoldable pub check_try : ℕ → ℤ → ℤ → ℤ → ℤ → Checked
check_try i value_len catch_len success_len remaining =
    if outside value_len remaining
    then err (try_length i value value_len remaining)
    else if outside catch_len (remaining -ℤ value_len)
    then err (try_length i catch catch_len (remaining -ℤ value_len))
    else if outside success_len (remaining -ℤ value_len -ℤ catch_len)
    then err (try_length i success success_len (remaining -ℤ value_len -ℤ catch_len))
    else ok tt

abbrev pub check_body : ℕ → Opcode → ℤ → ℤ → Checked
check_body i op size remaining =
    if outside size remaining then err (body_length i op size remaining) else ok tt

-- The segments that instruction `i` holds lie among the `remaining` instructions after it.
unfoldable pub check_segments : ℕ → ℤ → Opcode → Instruction → Checked
unfolding check_try
check_segments i remaining spawn_agent inst = check_body i spawn_agent inst.int_operand remaining
check_segments i remaining spawn inst = check_body i spawn inst.int_operand remaining
check_segments i remaining http_route inst = check_body i http_route inst.int_operand remaining
check_segments i remaining try_let inst =
    check_try i inst.int_operand inst.int_operand2 inst.int_operand3 remaining
check_segments i remaining _ inst = ok tt

-- NaN and infinity are not values.
unfoldable pub check_constant : ℕ → Opcode → Value → Checked
check_constant i load_const (float bits) = if is_finite bits then ok tt else err (not_finite i bits)
check_constant i op v = ok tt

abbrev pub present {ℓ} : {A : Type ℓ} → Option A → InvalidProgram → Checked
present none e = err e
present (some a) e = ok tt

unfoldable pub check_call : Functions → ℕ → Opcode → String → Checked
check_call functions i call name = present (lookup name functions) (missing_function i name)
check_call functions i op name = ok tt

-- One round of the loop of `validateInstructions`, at instruction `i` of `n`.
unfoldable pub check_instruction : Functions → ℕ → ℕ → Instruction → Checked
check_instruction functions n i inst = do
  op ← check_opcode i inst.op_string inst.op
  check_jump n i op inst.int_operand
  check_segments i (sub_ℕ n (i + 1)) op inst
  check_constant i op inst.value_operand
  check_call functions i op inst.string_operand

unfoldable pub check_from : Functions → ℕ → ℕ → List Instruction → Checked
check_from functions n i [] = ok tt
check_from functions n i (inst ∷ insts) =
    check_instruction functions n i inst >> check_from functions n (suc i) insts

-- `validateInstructions`
unfoldable pub validate_instructions : Functions → List Instruction → Checked
unfolding check_from
validate_instructions functions insts = check_from functions (length insts) 0 insts

abbrev pub wrap : (InvalidProgram → InvalidProgram) → Checked → Checked
wrap f (err e) = err (f e)
wrap f (ok a) = ok a

abbrev pub validate_function : Functions → String → Option Function → Checked
validate_function functions name none = err (nil_function name)
validate_function functions name (some fn) =
    wrap (in_function name) (validate_instructions functions fn.instructions)

-- The map is read in the order of its entries.
unfoldable pub validate_functions : Functions → Functions → Checked
validate_functions functions [] = ok tt
validate_functions functions ((name, fn) ∷ rest) =
    validate_function functions name fn >> validate_functions functions rest

-- `ValidateProgram`
unfoldable pub validate_program : Program → Checked
unfolding validate_functions
validate_program prog =
    wrap in_main (validate_instructions prog.functions prog.main)
    >> validate_functions prog.functions prog.functions
