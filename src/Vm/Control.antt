-- ===== src/Vm/Control.antt =====
-- The instructions of internal/vm/vm.go that choose the next instruction: jumps, loops, TRY_LET.
use howlframe.Common.{
  ℕ, ◌+◌, ◌-◌, String, Bool, true, ◌||◌, List, [], ◌∷◌, ℤ, pos, negsuc, length, take, drop, str_eq,
  if◌then◌else◌, ltb_ℤ, ◌+ℤ◌, leb,
}
use howlframe.Common.Result.{Result, ok, err}
use howlframe.Opcode.{Opcode}
use howlframe.Program.{Instruction}
use howlframe.Vm.Value.{Val, int, float, string, type_of, value, number, text, State, Host}
use howlframe.Vm.Monad.{
  on_option, Vm, Outcome, done, returned, exited, failed, crashed, lost, out_of_fuel, pure, ◌>>=◌,
  ◌>>◌, gets, fail, push, pop, truncate_stack, bind_var,
}
use howlframe.Vm.Float.{float_eq}
use howlframe.Vm.Integer.{wrap_int64, eq_ℤ}
use howlframe.Vm.Numeric.{to_int, int64_of_float}
use howlframe.Vm.Binop.{to_bool}
use howlframe.Vm.Data.{lift, type_error, list_length, element_at}

-- Where a frame goes on: the next instruction and the heights of its loops, the innermost first.
abbrev pub Next : Type 0
Next = ℤ × List ℕ

-- `vm.run` on a part of the code.
abbrev pub Run : Type 0
Run = List Instruction → Vm (Unit {0})

-- The next instruction, `n` instructions on.
abbrev pub advance : ℕ → List ℕ → ℕ → Vm Next
advance ip bases n = pure (pos (ip + 1 + n), bases)

-- `ip += int(offset)`
abbrev pub jump_by : ℕ → List ℕ → ℤ → Vm Next
jump_by ip bases offset = pure (wrap_int64 (pos ip +ℤ offset), bases)

-- JUMP_IF_FALSE
unfoldable pub exec_jump_if_false : ℕ → List ℕ → ℤ → Opcode → Vm Next
exec_jump_if_false ip bases offset op = do
  v ← pop op
  b ← lift (to_bool v)
  if b then advance ip bases 0 else jump_by ip bases offset

-- FOR_INIT
unfoldable pub exec_for_init : ℕ → List ℕ → Opcode → Vm Next
exec_for_init ip bases op = do
  v ← pop op
  on_option (list_length v) (type_error op "for requires a list, got %T" (type_of v ∷ [])) λ n.
      gets (λ s. length s.stack) >>= λ height.
      push v >> push (float 0) >> advance ip (height ∷ bases) 0

-- What FOR_NEXT drops of the operands that the body left.
unfoldable pub trim_loop : List ℕ → Vm (Unit {0})
trim_loop [] = pure tt
trim_loop (base ∷ bases) = truncate_stack (base + 2)

-- `loopBases[:n-1]`
abbrev pub outer_loops : List ℕ → List ℕ
outer_loops [] = []
outer_loops (base ∷ bases) = bases

module _ (host : Host) where
  -- The index is not a float with a fraction.
  unfoldable pub is_index : Val → Bool
  is_index (float f) = float_eq (host.float_of_int (int64_of_float host f)) f
  is_index _ = true

  -- The index of FOR_NEXT, as a number.
  unfoldable pub loop_index : Val → Opcode → Vm ℤ
  loop_index v op =
      on_option (to_int host v)
        (type_error op "for index must be a number, got %T" (type_of v ∷ []))
        λ i.
          if is_index v
          then pure i
          else fail "RUNTIME_ERROR" op "for index must be an integer, got %v" (value v ∷ [])

  -- The round of a loop with `n` items at index `i`, or its end.
  unfoldable pub loop_round : Instruction → ℕ → List ℕ → Val → ℕ → ℤ → Vm Next
  loop_round i ip bases items n index =
      if ltb_ℤ index (pos 0) || ltb_ℤ (pos n) index
      then fail "RUNTIME_ERROR" i.op "for index %d out of range [0,%d)"
          (number index ∷ number (pos n) ∷ [])
      else if eq_ℤ index (pos n)
      then jump_by ip (outer_loops bases) i.int_operand
      else bind_var i.string_operand (element_at host items index)
        >> push items
        >> push (float (host.float_of_int (index +ℤ pos 1)))
        >> advance ip bases 0

  -- FOR_NEXT
  unfoldable pub exec_for_next : Instruction → ℕ → List ℕ → Vm Next
  exec_for_next i ip bases = do
    trim_loop bases
    v ← pop i.op
    items ← pop i.op
    on_option (list_length items)
        (type_error i.op "for requires a list, got %T" (type_of items ∷ []))
        λ n. loop_index v i.op >>= loop_round i ip bases items n

  -- EXIT's code.
  unfoldable pub exit_code : Val → ℤ
  exit_code (int n) = n
  exit_code (float f) = int64_of_float host f
  exit_code _ = pos 0

  -- What the deferred function of TRY_LET makes of an end: an error's text, or the panic again.
  unfoldable pub recover_error :
      {A : Type 0} → Outcome A → State → Outcome (Result String A) × State
  recover_error (done a) s = (done (ok a), s)
  recover_error (returned v) s = (returned v, s)
  recover_error (exited c) s = (exited c, s)
  recover_error (failed e) s =
      if str_eq e.code "HFIR_DEADLINE_EXCEEDED"
      then (failed e, s)
      else (done (err (host.catch_string e)), s)
  recover_error (crashed m) s = (done (err m), s)
  recover_error lost s = (lost, s)
  recover_error out_of_fuel s = (out_of_fuel, s)

  unfoldable pub attempt : {A : Type 0} → Vm A → Vm (Result String A)
  attempt m s = let (r, s') = m s in recover_error r s'

-- One of the lengths of TRY_LET, and what remains after it.
unfoldable pub check_segment : String → ℤ → ℕ → Opcode → Vm (ℕ × ℕ)
check_segment name (negsuc n) remaining op =
    fail "RUNTIME_ERROR" op "try_let %s length %d out of range [0,%d]"
      (text name ∷ number (negsuc n) ∷ number (pos remaining) ∷ [])
check_segment name (pos n) remaining op =
    if leb n remaining
    then pure (n, remaining - n)
    else fail "RUNTIME_ERROR" op "try_let %s length %d out of range [0,%d]"
        (text name ∷ number (pos n) ∷ number (pos remaining) ∷ [])

-- `insts[from : from+n]`
abbrev pub segment : List Instruction → ℕ → ℕ → List Instruction
segment insts from n = take n (drop from insts)

module _ (host : Host) where
  -- The rest of TRY_LET once the value has been tried.
  unfoldable pub after_try :
      Run
      → Instruction
      → ℕ
      → List Instruction
      → List Instruction
      → Result String (Unit {0})
      → Vm (Unit {0})
  after_try rec i height on_error on_value (err message) =
      truncate_stack height >> bind_var i.string_operand2 (string message) >> rec on_error
  after_try rec i height on_error on_value (ok _) =
      pop i.op >>= λ v. bind_var i.string_operand v >> truncate_stack height >> rec on_value

  -- TRY_LET
  unfoldable pub exec_try_let : Run → List Instruction → Instruction → ℕ → List ℕ → Vm Next
  exec_try_let rec insts i ip bases = do
    (vn, after_value) ← check_segment "value" i.int_operand (length insts - ip - 1) i.op
    (cn, after_catch) ← check_segment "catch" i.int_operand2 after_value i.op
    (sn, after_success) ← check_segment "success" i.int_operand3 after_catch i.op
    height ← gets (λ s. length s.stack)
    r ← attempt host (rec (segment insts (ip + 1) vn))
    after_try rec i height (segment insts (ip + 1 + vn) cn) (segment insts (ip + 1 + vn + cn) sn) r
    advance ip bases (vn + cn + sn)
