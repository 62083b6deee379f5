-- ===== src/Validate/Tests.antt =====
-- Validation at concrete programs.
use howlframe.Common.{pos, ◌∷◌, [], ◌≡◌, ◌↔◌}
use howlframe.Common.Result.{ok}
use howlframe.Opcode.{jump, print}
use howlframe.Program.{Program, instruction}
use howlframe.Validate.{validate_program}
use howlframe.Validate.Sound.{AllFit, FunctionsFit, validate_program_iff}

-- A jump past one instruction, onto the end.
abbrev jumping : Program
jumping = record {
  version = pos 1;
  functions = [];
  main = record (instruction "JUMP" jump) { int_operand = pos 2 } ∷ instruction "PRINT" print ∷ [];
}

validate_program_iff_example :
    (validate_program jumping ≡ ok tt)
    ↔ (AllFit jumping.functions 0 jumping.main × FunctionsFit jumping.functions jumping.functions)
validate_program_iff_example = validate_program_iff jumping
