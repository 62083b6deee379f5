-- ===== src/Compile/Link.antt =====
-- Compiled programs under `ValidateProgram` of internal/bytecode/artifact.go: the compiler neither
-- resolves calls nor looks at the bits of a float, and nothing else can be refused.
use howlframe.Common.{
  lookup, arith, map, length, ◌≡◌, ◌+◌, String, Option, Bool-cases, inr, inl, refl, suc, ◌∷◌, [],
  none, some, ℕ,
}
use howlframe.Common.Result.{err, ok, ◌>>◌}
use howlframe.Opcode.{Opcode}
use howlframe.Program.{is_finite, Value, Instruction, Program, Function, Functions}
use howlframe.Ast.{Node, depth}
use howlframe.Validate.{
  present, InvalidProgram, Checked, check_constant, check_call, check_instruction, check_from,
  validate_instructions, validate_functions, validate_program, wrap, not_finite, missing_function,
  in_main, in_function,
}
use howlframe.Validate.Fits.{TargetFits-check_jump, SegmentsFit-check_segments}
use howlframe.Validate.Resolve.{Resolves-check_opcode}
use howlframe.Compile.Monad.{Services, Compiled, Outcome, Code, done, reported}
use howlframe.Compile.Lowered.{Lowered}
use howlframe.Compile.Closed.{Lowered-Closed}
use howlframe.Compile.Fits.{InstructionFits, CodeFits}
use howlframe.Compile.Ensures.{Post, FunctionsLowered}
use howlframe.Compile.Valid.{Ensures-compile_node}
use howlframe.Compile.Switch.{compile_scoped, compile_node, compile_program, finish}
use howlframe.Scope.Walk.{scope_bindings}

-- The two errors that depend on more than the shape of the code.
abbrev pub IsLinkError : InvalidProgram → Type 0
IsLinkError (not_finite i bits) = Unit
IsLinkError (missing_function i name) = Unit
IsLinkError (in_main e) = IsLinkError e
IsLinkError (in_function name e) = IsLinkError e
IsLinkError _ = ⊥

-- A check that can fail by a link error alone.
abbrev pub OnlyLinkErrors : Checked → Type 0
OnlyLinkErrors (err e) = IsLinkError e
OnlyLinkErrors (ok u) = Unit

then-OnlyLinkErrors :
    (m k : Checked) → OnlyLinkErrors m → OnlyLinkErrors k → OnlyLinkErrors (m >> k)
then-OnlyLinkErrors (err e) k hm hk = hm
then-OnlyLinkErrors (ok u) k hm hk = hk

wrap-OnlyLinkErrors :
    (f : InvalidProgram → InvalidProgram) (m : Checked)
    → ((e : InvalidProgram) → IsLinkError e → IsLinkError (f e))
    → OnlyLinkErrors m
    → OnlyLinkErrors (wrap f m)
wrap-OnlyLinkErrors f (err e) hf h = hf e h
wrap-OnlyLinkErrors f (ok u) hf h = tt

check_constant-OnlyLinkErrors :
    (i : ℕ) (op : Opcode) (v : Value) → OnlyLinkErrors (check_constant i op v)
unfolding check_constant
check_constant-OnlyLinkErrors i Opcode.load_const (Value.float bits) =
    elim (Bool-cases (is_finite bits)) [ inl e ↦ rw e tt | inr e ↦ rw e tt ]
check_constant-OnlyLinkErrors i Opcode.load_const _ = tt
check_constant-OnlyLinkErrors i _ v = tt

present-OnlyLinkErrors :
    (o : Option (Option Function)) (e : InvalidProgram)
    → IsLinkError e
    → OnlyLinkErrors (present o e)
present-OnlyLinkErrors none e h = h
present-OnlyLinkErrors (some a) e h = tt

check_call-OnlyLinkErrors :
    (functions : Functions) (i : ℕ) (op : Opcode) (name : String)
    → OnlyLinkErrors (check_call functions i op name)
unfolding check_call
check_call-OnlyLinkErrors functions i Opcode.call name =
    present-OnlyLinkErrors (lookup name functions) (missing_function i name) tt
check_call-OnlyLinkErrors functions i _ name = tt

-- The function map of a compiled program has no nil entry.
abbrev non_nil : Compiled → Functions
non_nil = map (λ (name, fn). (name, some fn))

module _ (functions : Functions) where
  check_instruction-OnlyLinkErrors :
      (i after : ℕ) (inst : Instruction)
      → InstructionFits i inst after
      → OnlyLinkErrors (check_instruction functions (i + 1 + after) i inst)
  unfolding check_instruction
  check_instruction-OnlyLinkErrors i after inst (known, target, segments) =
      rw
        (
          Resolves-check_opcode i inst.op_string inst.op inst.op (inl (refl, known)),
          TargetFits-check_jump i after inst.op inst.int_operand target,
          SegmentsFit-check_segments i after inst.op inst segments,
        )
        (then-OnlyLinkErrors (check_constant i inst.op inst.value_operand) _
          (check_constant-OnlyLinkErrors i inst.op inst.value_operand)
          (check_call-OnlyLinkErrors functions i inst.op inst.string_operand))

  check_from-OnlyLinkErrors :
      (n i : ℕ) (insts : Code)
      → n ≡ i + length insts
      → CodeFits i insts 0
      → OnlyLinkErrors (check_from functions n i insts)
  unfolding check_from
  check_from-OnlyLinkErrors n i [] e h = tt
  check_from-OnlyLinkErrors n i (inst ∷ insts) e (h, hs) =
      let here : n ≡ i + 1 + (length insts + 0) = omega arith in
      then-OnlyLinkErrors (check_instruction functions n i inst) _
        (rw here (check_instruction-OnlyLinkErrors i (length insts + 0) inst h))
        (check_from-OnlyLinkErrors n (suc i) insts (omega arith) hs)

  validate_instructions-OnlyLinkErrors :
      {code : Code} → Lowered code → OnlyLinkErrors (validate_instructions functions code)
  unfolding validate_instructions
  validate_instructions-OnlyLinkErrors {code} h =
      check_from-OnlyLinkErrors (length code) 0 code (omega arith) (Lowered-Closed h)

  validate_functions-OnlyLinkErrors :
      (compiled : Compiled)
      → FunctionsLowered compiled
      → OnlyLinkErrors (validate_functions functions (non_nil compiled))
  unfolding validate_functions
  validate_functions-OnlyLinkErrors [] h = tt
  validate_functions-OnlyLinkErrors ((name, fn) ∷ rest) (h, hs) =
      then-OnlyLinkErrors
        (wrap (in_function name) (validate_instructions functions fn.instructions)) _
        (wrap-OnlyLinkErrors (in_function name) (validate_instructions functions fn.instructions)
          (λ e he. he) (validate_instructions-OnlyLinkErrors h))
        (validate_functions-OnlyLinkErrors rest hs)

-- The compiler ended without running out of fuel, and its program can be refused for a missing
-- function or a float that is not finite, and for nothing else.
abbrev pub IsLinkable : Outcome Program → Type 0
IsLinkable (done prog) = OnlyLinkErrors (validate_program prog)
IsLinkable Outcome.out_of_fuel = ⊥
IsLinkable _ = Unit

finish-IsLinkable : (r : Outcome (Code × Compiled)) → Post Lowered r → IsLinkable (finish r)
unfolding validate_program
finish-IsLinkable (done (code, compiled)) (h, hs) =
    let functions = non_nil compiled in
    then-OnlyLinkErrors (wrap in_main (validate_instructions functions code)) _
      (wrap-OnlyLinkErrors in_main (validate_instructions functions code) (λ e he. he)
        (validate_instructions-OnlyLinkErrors functions h))
      (validate_functions-OnlyLinkErrors functions compiled hs)
finish-IsLinkable (reported r l c) h = tt
finish-IsLinkable Outcome.panicked h = tt
finish-IsLinkable Outcome.out_of_fuel h = h

compile_scoped-IsLinkable :
    (services : Services) (root : Option Node) → IsLinkable (compile_scoped services root)
unfolding compile_scoped
compile_scoped-IsLinkable services none = tt
compile_scoped-IsLinkable services (some root) =
    finish-IsLinkable (compile_node services (suc (depth root)) root [])
      ((Ensures-compile_node services (suc (depth root)) root (omega arith)).at [] tt)

-- Every tree is compiled within the fuel that its depth gives. If the result is a program, then the
-- checks made on every artifact refuse it for a missing function or a float that is not finite, and
-- for nothing else: opcodes are known, and jumps and bodies stay inside the code that holds them.
pub compile_program-IsLinkable :
    (services : Services) (root : Node) → IsLinkable (compile_program services root)
unfolding compile_program
compile_program-IsLinkable services root = compile_scoped-IsLinkable services (scope_bindings root)
