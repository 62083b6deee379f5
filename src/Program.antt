-- ===== src/Program.antt =====
-- internal/bytecode/bytecode.go: instructions, functions and programs.
use howlframe.Common.{ℕ, ◌/◌, ◌%◌, ◌^◌, String, Bool, not, Option, List, ℤ, pos, ◌==◌}
use howlframe.Opcode.{Opcode}

-- The values that `ValueOperand` holds. A float64 is its IEEE 754 bit pattern.
pub data Value : Type 0 where
  nil : Value
  bool : Bool → Value
  int : ℤ → Value
  float : ℕ → Value
  string : String → Value

-- Neither `math.IsNaN` nor `math.IsInf`: the exponent bits are not all ones.
unfoldable pub is_finite : ℕ → Bool
is_finite bits = not (bits / 2 ^ 52 % 2 ^ 11 == 2047)

-- `BCInstruction`, less the provenance marker that no artifact carries.
pub record Instruction : Type 0 where
  pub op_string : String
  pub op : Opcode
  pub string_operand : String
  pub string_operand2 : String
  pub string_operand3 : String
  pub int_operand : ℤ
  pub int_operand2 : ℤ
  pub int_operand3 : ℤ
  pub value_operand : Value

-- `BCInstruction{OpString: s, Op: op}`: the other fields are zero values.
abbrev pub instruction : String → Opcode → Instruction
instruction s op = record {
  op_string = s;
  op = op;
  string_operand = "";
  string_operand2 = "";
  string_operand3 = "";
  int_operand = pos 0;
  int_operand2 = pos 0;
  int_operand3 = pos 0;
  value_operand = nil;
}

-- `BCFunction`
pub record Function : Type 0 where
  pub params : List String
  pub instructions : List Instruction
  pub lazy_synthesize : Bool
  pub docstring : String
  pub name : String

-- `map[string]*BCFunction`: `none` is a nil pointer.
abbrev pub Functions : Type 0
Functions = List (String × Option Function)

-- `BCProgram`, less the in-memory provenance fields.
pub record Program : Type 0 where
  pub version : ℤ
  pub functions : Functions
  pub main : List Instruction
