-- ===== src/Artifact/Names.antt =====
-- `resolveArtifactOpcodeNames` leaves a program alone whose opcodes agree with their names.
use howlframe.Common.{
  str_eq, ℕ, String, Option, List, suc, ◌∷◌, [], none, some, ◌≡◌, refl, ◌⊎◌, inl, inr, Bool-cases,
  EntriesHold,
}
use howlframe.Program.{Program, Functions, Function, Instruction}
use howlframe.Artifact.Envelope.{
  resolve_function, resolve_artifact_opcode_names, resolve_functions, resolve_from,
  resolve_instruction,
}
use howlframe.Opcode.{name_to_opcode}
use howlframe.Common.Result.{ok}

-- An instruction without a name, or with the name of its opcode.
abbrev pub IsNamed : Instruction → Type 0
IsNamed inst = (inst.op_string ≡ "") ⊎ (name_to_opcode inst.op_string ≡ some inst.op)

abbrev pub AllNamed : List Instruction → Type 0
AllNamed [] = Unit
AllNamed (inst ∷ insts) = IsNamed inst × AllNamed insts

abbrev pub FunctionNamed : Option Function → Type 0
FunctionNamed none = Unit
FunctionNamed (some fn) = AllNamed fn.instructions

resolve_instruction-IsNamed :
    (i : ℕ) (inst : Instruction) → IsNamed inst → resolve_instruction i inst ≡ ok inst
unfolding resolve_instruction
resolve_instruction-IsNamed i inst (inl e) = rw e refl
resolve_instruction-IsNamed i inst (inr e) = elim (Bool-cases (str_eq inst.op_string "")) [
  | inl t ↦ rw t refl
  | inr t ↦ rw (t, e) refl
]

resolve_from-AllNamed :
    (i : ℕ) (insts : List Instruction) → AllNamed insts → resolve_from i insts ≡ ok insts
unfolding resolve_from
resolve_from-AllNamed i [] h = refl
resolve_from-AllNamed i (inst ∷ insts) (h, hs) =
    rw (resolve_instruction-IsNamed i inst h, resolve_from-AllNamed (suc i) insts hs) refl

resolve_function-FunctionNamed :
    (name : String) (fn : Option Function) → FunctionNamed fn → resolve_function name fn ≡ ok fn
resolve_function-FunctionNamed name none h = refl
resolve_function-FunctionNamed name (some fn) h =
    rw (resolve_from-AllNamed 0 fn.instructions h) refl

resolve_functions-named :
    (functions : Functions)
    → EntriesHold FunctionNamed functions
    → resolve_functions functions ≡ ok functions
unfolding resolve_functions
resolve_functions-named [] h = refl
resolve_functions-named ((name, fn) ∷ rest) (h, hs) =
    rw (resolve_function-FunctionNamed name fn h, resolve_functions-named rest hs) refl

pub resolve_artifact_opcode_names-named :
    (prog : Program)
    → AllNamed prog.main
    → EntriesHold FunctionNamed prog.functions
    → resolve_artifact_opcode_names prog ≡ ok prog
unfolding resolve_artifact_opcode_names
resolve_artifact_opcode_names-named prog h hs =
    rw (resolve_from-AllNamed 0 prog.main h, resolve_functions-named prog.functions hs) refl
