-- ===== src/Vm/Monad.antt =====
-- The ways in which code of the machine ends, and the small operations on its state.
use howlframe.Common.{
  ℕ, zero, suc, ◌-◌, String, Bool, true, false, Option, none, some, List, [], ◌∷◌, ◌++◌, ℤ, length,
  drop, lookup, has_key, insert, if◌then◌else◌,
}
use howlframe.Common.Result.{Result, ok, err}
use howlframe.Opcode.{Opcode}
use howlframe.Vm.Value.{Val, Vars, Arg, text, VmError, runtime_error, State}

-- `returned` is a panic with VmReturn, `exited` one with VmExit, `failed` one with a *VMError, and
-- `crashed` a panic of Go itself. `lost` is code that does not come back: a call that blocks for ever,
-- or a process that the Go runtime ends. `out_of_fuel` has no counterpart in the program.
pub data Outcome (A : Type 0) : Type 0 where
  done : A → Outcome A
  returned : Val → Outcome A
  exited : ℤ → Outcome A
  failed : VmError → Outcome A
  crashed : String → Outcome A
  lost : Outcome A
  out_of_fuel : Outcome A

-- The state comes back after a panic too: what was written stays written.
abbrev pub Vm : Type 0 → Type 0
Vm A = State → Outcome A × State

unfoldable pub pure : {A : Type 0} → A → Vm A
pure a s = (done a, s)

abbrev pub continue_with : {A B : Type 0} → Outcome A → State → (A → Vm B) → Outcome B × State
continue_with (done a) s f = f a s
continue_with (returned v) s f = (returned v, s)
continue_with (exited c) s f = (exited c, s)
continue_with (failed e) s f = (failed e, s)
continue_with (crashed m) s f = (crashed m, s)
continue_with lost s f = (lost, s)
continue_with out_of_fuel s f = (out_of_fuel, s)

infixl 5 ◌>>=◌ ◌>>◌
unfoldable pub ◌>>=◌ : {A B : Type 0} → Vm A → (A → Vm B) → Vm B
◌>>=◌ m f s = let (r, s') = m s in continue_with r s' f

unfoldable pub ◌>>◌ : {A B : Type 0} → Vm A → Vm B → Vm B
unfolding ◌>>=◌
m >> k = m >>= λ _. k

-- A panic, which ends the code with this outcome.
unfoldable pub stop : {A : Type 0} → Outcome A → Vm A
stop r s = (r, s)

unfoldable pub gets : {A : Type 0} → (State → A) → Vm A
gets f s = (done (f s), s)

-- `panic(NewRuntimeError(code, "main", vm.ip, op, format, args...))`
unfoldable pub fail : {A : Type 0} → String → Opcode → String → List Arg → Vm A
fail code op format args s = (failed (runtime_error code s.ip op format args), s)

-- The same, unless the test holds.
unfoldable pub fail_unless : Bool → String → Opcode → String → List Arg → Vm (Unit {0})
fail_unless true code op format args = pure tt
fail_unless false code op format args = fail code op format args

-- `vm.push(v)`
unfoldable pub push : Val → Vm (Unit {0})
push v s = (done tt, record s { stack = v ∷ s.stack })

-- `vm.truncateStack(height)`: the top comes first.
unfoldable pub truncate_stack : ℕ → Vm (Unit {0})
truncate_stack height s = (done tt, record s { stack = drop (length s.stack - height) s.stack })

-- `vm.pop(op)`
unfoldable pub pop_from : List Val → Opcode → Vm Val
unfolding fail
pop_from [] op = fail "STACK_UNDERFLOW" op "stack underflow at %s" []
pop_from (v ∷ vs) op = λ s. (done v, record s { stack = vs })

unfoldable pub pop : Opcode → Vm Val
pop op s = pop_from s.stack op s

-- The values of `n` pops, the last popped first.
unfoldable pub pop_many : ℕ → Opcode → List Val → Vm (List Val)
pop_many zero op vs = pure vs
pop_many (suc n) op vs = pop op >>= λ v. pop_many n op (v ∷ vs)

-- `e.get(name)`
unfoldable pub find_var : String → List Vars → Option Val
find_var name [] = none
find_var name (vars ∷ parents) =
    let above = find_var name parents in elim (lookup name vars) [ some v ↦ some v | none ↦ above ]

-- `e.set(name, v)`: `none` where the source returns false.
unfoldable pub assign_var : String → Val → List Vars → Option (List Vars)
assign_var name v [] = none
assign_var name v (vars ∷ parents) =
    let above = assign_var name v parents in
    if has_key name vars
    then some (insert name v vars ∷ parents)
    else elim above [ some frames ↦ some (vars ∷ frames) | none ↦ none ]

-- `env.vars[name] = v`
unfoldable pub bind_top : String → Val → List Vars → List Vars
bind_top name v [] = []
bind_top name v (vars ∷ parents) = insert name v vars ∷ parents

unfoldable pub bind_var : String → Val → Vm (Unit {0})
bind_var name v s = (done tt, record s { frames = bind_top name v s.frames })

abbrev pub some_or_fail : {A : Type 0} → Option A → String → Opcode → String → List Arg → Vm A
some_or_fail none code op format args = fail code op format args
some_or_fail (some a) code op format args = pure a

-- The value of a variable, or UNDEFINED_VAR.
unfoldable pub load_var : String → Opcode → Vm Val
unfolding fail pure
load_var name op s =
    some_or_fail (find_var name s.frames) "UNDEFINED_VAR" op "undefined variable: %s"
      (text name ∷ []) s

abbrev pub store_result : Option (List Vars) → Vm Bool
store_result none s = (done false, s)
store_result (some frames) s = (done true, record s { frames = frames })

-- `env.set(name, v)` with its result.
unfoldable pub store_var : String → Val → Vm Bool
store_var name v s = store_result (assign_var name v s.frames) s

-- `fmt.Fprint` on `vm.Out` and `vm.ErrOut`.
unfoldable pub write_out : String → Vm (Unit {0})
write_out line s = (done tt, record s { out = s.out ++ line ∷ [] })

unfoldable pub write_err : String → Vm (Unit {0})
write_err line s = (done tt, record s { err_out = s.err_out ++ line ∷ [] })

-- The code for what an option or a result holds.
unfoldable pub on_option : {A B : Type 0} → Option A → Vm B → (A → Vm B) → Vm B
on_option none m f = m
on_option (some a) m f = f a

unfoldable pub on_result : {E A B : Type 0} → Result E A → (E → Vm B) → (A → Vm B) → Vm B
on_result (err e) m f = m e
on_result (ok a) m f = f a
