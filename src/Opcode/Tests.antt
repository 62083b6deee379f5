-- ===== src/Opcode/Tests.antt =====
-- Wire names at concrete opcodes.
use howlframe.Common.{true, some, ◌≡◌, ◌↔◌}
use howlframe.Opcode.{name_to_opcode, is_registered, spec_of, jump}
use howlframe.Opcode.Names.{name_to_opcode_iff}

name_to_opcode_iff_example :
    (name_to_opcode "JUMP" ≡ some jump)
    ↔ ((is_registered jump ≡ true) × ((spec_of jump).name ≡ "JUMP"))
name_to_opcode_iff_example = name_to_opcode_iff "JUMP" jump
