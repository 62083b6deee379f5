-- ===== src/Validate/Sound.antt =====
-- `ValidateProgram` accepts exactly the programs whose instructions fit.
use howlframe.Common.{
  EntriesHold, zero, refl, sub_ℕ, ◌-◌, ◌↔◌, ◌+◌, get_elem?, ℕ, suc, String, ◌≡◌, Option, none, some,
  List, [], ◌∷◌, arith, length,
}
use howlframe.Common.Result.{>>=-eq-ok, ◌>>◌, err, ok}
use howlframe.Opcode.{Opcode}
use howlframe.Program.{Program, Function, Instruction, Functions}
use howlframe.Validate.{
  in_main, in_function, validate_function, validate_program, validate_functions, wrap,
  check_segments, check_jump, validate_instructions, check_from, check_instruction, Checked,
  InvalidProgram, check_opcode, check_constant,
}
use howlframe.Validate.Resolve.{
  Resolves, check_opcode-Resolves, Resolves-check_opcode, check_constant-ConstantFits,
  ConstantFits-check_constant, check_call-CalleeExists, CalleeExists-check_call,
}
use howlframe.Validate.Fits.{
  check_segments-SegmentsFit, check_jump-TargetFits, SegmentsFit-check_segments,
  TargetFits-check_jump, TargetFits, SegmentsFit, ConstantFits, CalleeExists,
}

-- Instruction `i`, with `after` instructions behind it, is structurally sound.
abbrev pub InstructionFits : Functions → ℕ → Instruction → ℕ → Type 0
InstructionFits functions i inst after =
    (op : Opcode) × Resolves inst.op_string inst.op op
    × TargetFits i op inst.int_operand after
    × SegmentsFit op inst after
    × ConstantFits op inst.value_operand
    × CalleeExists functions op inst.string_operand

abbrev pub AllFit : Functions → ℕ → List Instruction → Type 0
AllFit functions i [] = Unit
AllFit functions i (inst ∷ insts) =
    InstructionFits functions i inst (length insts) × AllFit functions (suc i) insts

>>-eq-ok : (m : Checked) {k : Checked} → (m >> k) ≡ ok tt → (m ≡ ok tt) × (k ≡ ok tt)
>>-eq-ok (err e) h = cc
>>-eq-ok (ok u) h = (refl, h)

module _ (functions : Functions) (i : ℕ) (inst : Instruction) (after : ℕ) where
  check_instruction-InstructionFits :
      check_instruction functions (i + 1 + after) i inst ≡ ok tt
      → InstructionFits functions i inst after
  unfolding check_instruction
  check_instruction-InstructionFits h =
      let (op, resolved, h₁) = >>=-eq-ok (check_opcode i inst.op_string inst.op) _ h in
      let (jumps, h₂) = >>-eq-ok (check_jump (i + 1 + after) i op inst.int_operand) h₁ in
      let (segments, h₃) = >>-eq-ok (check_segments i (sub_ℕ (i + 1 + after) (i + 1)) op inst) h₂ in
      let (constant, h₄) = >>-eq-ok (check_constant i op inst.value_operand) h₃ in
      (
        op,
        check_opcode-Resolves i inst.op_string inst.op op resolved,
        check_jump-TargetFits i after op inst.int_operand jumps,
        check_segments-SegmentsFit i after op inst segments,
        check_constant-ConstantFits i op inst.value_operand constant,
        check_call-CalleeExists functions i inst.string_operand op h₄,
      )

  InstructionFits-check_instruction :
      InstructionFits functions i inst after
      → check_instruction functions (i + 1 + after) i inst ≡ ok tt
  unfolding check_instruction
  InstructionFits-check_instruction (op, resolved, jumps, segments, constant, callee) = rw (
    Resolves-check_opcode i inst.op_string inst.op op resolved,
    TargetFits-check_jump i after op inst.int_operand jumps,
    SegmentsFit-check_segments i after op inst segments,
    ConstantFits-check_constant i op inst.value_operand constant,
    CalleeExists-check_call functions i inst.string_operand op callee,
  )

module _ (functions : Functions) where
  check_from-AllFit :
      (n i : ℕ) (insts : List Instruction)
      → n ≡ i + length insts
      → check_from functions n i insts ≡ ok tt
      → AllFit functions i insts
  unfolding check_from
  check_from-AllFit n i [] e h = tt
  check_from-AllFit n i (inst ∷ insts) e h =
      let here : n ≡ i + 1 + length insts = omega arith in
      let (h₀, h₁) = >>-eq-ok (check_instruction functions n i inst) h in
      (
        check_instruction-InstructionFits functions i inst (length insts) (rw here at h₀),
        check_from-AllFit n (suc i) insts (omega arith) h₁,
      )

  AllFit-check_from :
      (n i : ℕ) (insts : List Instruction)
      → n ≡ i + length insts
      → AllFit functions i insts
      → check_from functions n i insts ≡ ok tt
  unfolding check_from
  AllFit-check_from n i [] e h = refl
  AllFit-check_from n i (inst ∷ insts) e (h₀, h₁) =
      let here : n ≡ i + 1 + length insts = omega arith in
      let first : check_instruction functions n i inst ≡ ok tt =
        rw here (InstructionFits-check_instruction functions i inst (length insts) h₀) in
      rw first (AllFit-check_from n (suc i) insts (omega arith) h₁)

  -- `validate_instructions` accepts exactly the code all of whose instructions fit.
  pub validate_instructions_iff :
      (insts : List Instruction)
      → (validate_instructions functions insts ≡ ok tt) ↔ AllFit functions 0 insts
  unfolding validate_instructions
  validate_instructions_iff insts = (
    check_from-AllFit (length insts) 0 insts (omega arith),
    AllFit-check_from (length insts) 0 insts (omega arith),
  )

  -- Fitting code, read at an index.
  pub AllFit-get_elem? :
      (i : ℕ) (insts : List Instruction) (j : ℕ) (inst : Instruction)
      → AllFit functions i insts
      → get_elem? insts j ≡ some inst
      → InstructionFits functions (i + j) inst (length insts - j - 1)
  AllFit-get_elem? i [] j inst h e = cc
  AllFit-get_elem? i (x ∷ xs) zero inst h e =
      let same : x ≡ inst = cc e in
      let place : i + 0 ≡ i = omega arith in
      let after : suc (length xs) - 0 - 1 ≡ length xs = omega arith in rw (place, after, ← same) h.0
  AllFit-get_elem? i (x ∷ xs) (suc j) inst h e =
      let place : i + suc j ≡ suc i + j = omega arith in
      let after : suc (length xs) - suc j - 1 ≡ length xs - j - 1 = omega arith in
      rw (place, after) (AllFit-get_elem? (suc i) xs j inst h.1 e)

-- The functions of a program: no nil entry, and every body fits.
abbrev pub FunctionFits : Functions → Option Function → Type 0
FunctionFits functions none = ⊥
FunctionFits functions (some fn) = AllFit functions 0 fn.instructions

abbrev pub FunctionsFit : Functions → Functions → Type 0
FunctionsFit functions entries = EntriesHold (FunctionFits functions) entries

wrap-eq-ok : (f : InvalidProgram → InvalidProgram) (m : Checked) → (wrap f m ≡ ok tt) ↔ (m ≡ ok tt)
wrap-eq-ok f (err e) = (λ h. cc, λ h. cc)
wrap-eq-ok f (ok u) = (λ h. h, λ h. h)

validate_function-FunctionFits :
    (functions : Functions) (name : String) (fn : Option Function)
    → (validate_function functions name fn ≡ ok tt) ↔ FunctionFits functions fn
validate_function-FunctionFits functions name none = (λ h. cc, λ h. absurd h)
validate_function-FunctionFits functions name (some fn) =
    let wrapped = wrap-eq-ok (in_function name) (validate_instructions functions fn.instructions) in
    let valid = validate_instructions_iff functions fn.instructions in
    (λ h. valid.0 (wrapped.0 h), λ h. wrapped.1 (valid.1 h))

module _ (functions : Functions) where
  validate_functions_sound :
      (entries : Functions)
      → validate_functions functions entries ≡ ok tt
      → FunctionsFit functions entries
  unfolding validate_functions
  validate_functions_sound [] h = tt
  validate_functions_sound ((name, fn) ∷ rest) h =
      let (h₀, h₁) = >>-eq-ok (validate_function functions name fn) h in
      ((validate_function-FunctionFits functions name fn).0 h₀, validate_functions_sound rest h₁)

  validate_functions_complete :
      (entries : Functions)
      → FunctionsFit functions entries
      → validate_functions functions entries ≡ ok tt
  unfolding validate_functions
  validate_functions_complete [] h = refl
  validate_functions_complete ((name, fn) ∷ rest) (h₀, h₁) =
      rw ((validate_function-FunctionFits functions name fn).1 h₀)
        (validate_functions_complete rest h₁)

-- `ValidateProgram` accepts a program exactly when every instruction of its main code and of each
-- of its functions fits: a known opcode, jumps and segments inside the code that holds it, a finite
-- constant and a callee that exists. No entry of the function map is nil.
pub validate_program_iff :
    (prog : Program)
    → (validate_program prog ≡ ok tt)
      ↔ (AllFit prog.functions 0 prog.main × FunctionsFit prog.functions prog.functions)
unfolding validate_program
validate_program_iff prog =
    let wrapped = wrap-eq-ok in_main (validate_instructions prog.functions prog.main) in
    let valid = validate_instructions_iff prog.functions prog.main in
    (
      λ h.
          let (h₀, h₁) =
            >>-eq-ok (wrap in_main (validate_instructions prog.functions prog.main)) h in
          (valid.0 (wrapped.0 h₀), validate_functions_sound prog.functions prog.functions h₁),
      λ (h₀, h₁).
          rw (wrapped.1 (valid.1 h₀))
            (validate_functions_complete prog.functions prog.functions h₁),
    )
