-- ===== src/Vm/Calls.antt =====
-- The instructions of internal/vm/vm.go that run other code, CALL and SPAWN_AGENT, and those that
-- the host performs.
use howlframe.Common.{
  ℕ, suc, ◌+◌, ◌-◌, String, false, ◌||◌, Option, none, some, List, [], ◌∷◌, ◌++◌, ℤ, pos, length,
  drop, str_eq, str_append, if◌then◌else◌, ltb_ℤ, lookup, insert, pos_part,
}
use howlframe.Common.Result.{Result, ok, err}
use howlframe.Capability.{network, no_capability}
use howlframe.Capability.Grants.{Grants, attenuate}
use howlframe.Opcode.{Opcode}
use howlframe.Program.{Instruction, Function}
use howlframe.Vm.Value.{
  Val, nil, int, string, type_of, number, text, Vars, Config, State, Host, Effect, VmError,
}
use howlframe.Vm.Monad.{
  fail_unless, on_result, Vm, Outcome, done, returned, exited, failed, crashed, lost, out_of_fuel,
  pure, ◌>>=◌, ◌>>◌, stop, gets, fail, push, pop, pop_many, truncate_stack, bind_var, write_out,
  write_err,
}
use howlframe.Vm.Integer.{eq_ℤ}
use howlframe.Vm.Guard.{require_capability, capability_of, charge_alloc}
use howlframe.Vm.Data.{type_error}
use howlframe.Vm.Control.{Next, Run, advance, segment}

unfoldable pub charge_all : Config → List ℕ → Opcode → Vm (Unit {0})
charge_all config [] op = pure tt
charge_all config (n ∷ ns) op = charge_alloc config (pos n) op >> charge_all config ns op

unfoldable pub bind_all : Vars → Vm (Unit {0})
bind_all [] = pure tt
bind_all ((k, v) ∷ vs) = bind_var k v >> bind_all vs

-- The part of an effect that is there in any case.
unfoldable pub set_effect : Effect → Vm (Unit {0})
set_effect e s = (
  done tt,
  record s {
    stack = e.stack;
    heap = e.heap;
    out = s.out ++ e.out;
    err_out = s.err_out ++ e.err_out;
    session = e.session;
  },
)

unfoldable pub effect_result : Result VmError ℕ → Vars → Vm ℕ
effect_result (ok n) binds = bind_all binds >> pure n
effect_result (err e) binds = stop (failed e)

-- An instruction of the host: what it writes, what it charges, and what it binds.
unfoldable pub apply_effect : Config → Effect → Opcode → Vm ℕ
apply_effect config e op =
    set_effect e >> charge_all config e.charges op >> effect_result e.result e.binds

unfoldable pub set_world : ℕ → Vm (Unit {0})
set_world w s = (done tt, record s { world = w })

-- Code of the host, if it comes back.
unfoldable pub when_back : {A : Type 0} → Config → Opcode → Vm A → Vm A
when_back config op m s = (if config.outside.comes_back op s then m else stop lost) s

-- The host performs an instruction.
unfoldable pub exec_guarded : Host → Config → Instruction → Vm ℕ
exec_guarded host config i = do
  e ← gets (host.guarded i)
  set_world e.world
  apply_effect config e i.op

unfoldable pub exec_unguarded : Host → Config → Instruction → Vm ℕ
exec_unguarded host config i = gets (host.unguarded i) >>= λ e. apply_effect config e i.op

-- An instruction that is not modelled. One without a capability leaves the world as it is.
unfoldable pub exec_effect : Host → Config → Instruction → ℕ → List ℕ → Vm Next
exec_effect host config i ip bases =
    when_back config i.op (
      if str_eq (capability_of i.op) no_capability
      then exec_unguarded host config i
      else exec_guarded host config i)
    >>= advance ip bases

-- `callEnv`
unfoldable pub bind_params : List String → List Val → Vars → Vars
bind_params [] vs vars = vars
bind_params (p ∷ ps) [] vars = vars
bind_params (p ∷ ps) (v ∷ vs) vars = bind_params ps vs (insert p v vars)

-- The end of a callee for its caller: VmReturn is its result.
unfoldable pub call_result : Outcome (Unit {0}) → Outcome Val
call_result (done _) = done nil
call_result (returned v) = done v
call_result (exited c) = exited c
call_result (failed e) = failed e
call_result (crashed m) = crashed m
call_result lost = lost
call_result out_of_fuel = out_of_fuel

-- The callee runs one call deeper in its own environment, and both are taken back however it ends.
unfoldable pub in_frame : Vars → Vm (Unit {0}) → Vm Val
in_frame vars m s =
    let (r, s') = m (record s { frames = vars ∷ s.frames; call_depth = suc s.call_depth }) in
    (call_result r, record s' { frames = drop 1 s'.frames; call_depth = s'.call_depth - 1 })

unfoldable pub set_function : String → Function → Vm (Unit {0})
set_function name fn s = (done tt, record s { functions = insert name (some fn) s.functions })

module _ (host : Host) (config : Config) where
  -- The code that the network gives for a function.
  unfoldable pub synthesize : String → Function → Opcode → Vm Function
  synthesize name fn op = do
    (e, insts) ← gets (host.synthesize name)
    set_world e.world
    apply_effect config e op
    let synthesized = record fn { instructions = insts; lazy_synthesize = false }
    set_function name synthesized
    pure synthesized

  -- A function that is to be synthesised gets its code.
  unfoldable pub synthesized : String → Function → Opcode → Vm Function
  synthesized name fn op =
      if fn.lazy_synthesize
      then require_capability host network op >> when_back config op (synthesize name fn op)
      else pure fn

  unfoldable pub found_function : String → Opcode → Option (Option Function) → Vm Function
  found_function name op none = fail "RUNTIME_ERROR" op "undefined function: %s" (text name ∷ [])
  found_function name op (some none) =
      stop (crashed "runtime error: invalid memory address or nil pointer dereference")
  found_function name op (some (some fn)) = pure fn

  -- `vm.prog.Functions[funcName]`
  unfoldable pub find_function : String → Opcode → Vm Function
  find_function name op s = found_function name op (lookup name s.functions) s

  unfoldable pub check_arity : String → Function → ℤ → Opcode → Vm (Unit {0})
  check_arity name fn n op =
      if eq_ℤ n (pos (length fn.params))
      then pure tt
      else fail "RUNTIME_ERROR" op "%s expects %d argument(s), got %d"
          (text name ∷ number (pos (length fn.params)) ∷ number n ∷ [])

  unfoldable pub check_call_depth : Opcode → Vm (Unit {0})
  check_call_depth op s =
      fail_unless (ltb_ℤ (pos s.call_depth) config.limits.max_call_depth) "LIMIT_EXCEEDED" op
        "call depth limit exceeded (max %d)" (number config.limits.max_call_depth ∷ []) s

  -- CALL
  unfoldable pub exec_call : Run → Instruction → Vm (Unit {0})
  exec_call rec i = do
    found ← find_function i.string_operand i.op
    fn ← synthesized i.string_operand found i.op
    check_arity i.string_operand fn i.int_operand i.op
    vs ← pop_many (length fn.params) i.op []
    check_call_depth i.op
    height ← gets (λ s. length s.stack)
    v ← in_frame (bind_params fn.params vs []) (rec fn.instructions)
    truncate_stack height
    push v

-- The texts that are requested for a child.
abbrev pub requested : Host → String → List String
requested host listed = if str_eq listed "" then [] else host.split listed "\n"

-- The state in which an agent's body starts.
unfoldable pub child_state : Host → Grants → State → State
child_state host grants s =
    let captured = host.capture s.heap s.frames in
    record s {
      stack = [];
      frames = captured.0 ∷ [];
      heap = captured.1;
      spawn_depth = suc s.spawn_depth;
      grants = grants;
    }

-- The parent's state after the agent: what the two share is the child's.
unfoldable pub parent_state : State → State → State
parent_state s c = record c {
  stack = s.stack;
  frames = s.frames;
  ip = s.ip;
  spawn_depth = s.spawn_depth;
  grants = s.grants;
  call_depth = s.call_depth;
}

module _ (host : Host) where
  -- How an agent ended: none, or what it failed with. LIMIT_EXCEEDED ends the parent too.
  unfoldable pub agent_result : Outcome (Unit {0}) → Outcome (Option String)
  agent_result (done _) = done none
  agent_result (returned v) = done (some "RETURN: return from spawn agent body")
  agent_result (exited c) = done (
      some
        (str_append "EXIT: exit " (str_append (host.sprint [] (int c)) " from spawn agent body")))
  agent_result (failed e) =
      if str_eq e.code "LIMIT_EXCEEDED"
      then failed e
      else done (some (str_append e.code (str_append ": " (host.message e))))
  agent_result (crashed m) = done (some (str_append "VM_INTERNAL: " m))
  agent_result lost = lost
  agent_result out_of_fuel = out_of_fuel

  -- The agent's machine, on its own stack and environment.
  unfoldable pub in_child : Grants → Vm (Unit {0}) → Vm (Option String)
  in_child grants m s =
      let (r, c) = m (child_state host grants s) in (agent_result r, parent_state s c)

  -- "[Swarm VM] Agent "name" ..."
  unfoldable pub agent_line : String → String → String → String → String
  agent_line before name between task =
      str_append before (str_append (host.quote name) (str_append between (host.quote task)))

  unfoldable pub report_agent : String → String → Option String → Vm (Unit {0})
  report_agent name task none =
      write_out (str_append (agent_line "[Swarm VM] Agent " name " completed task: " task) "\n")
  report_agent name task (some failure) = write_err (
      str_append (agent_line "[Swarm VM] Agent " name " failed task: " task)
        (str_append ": " (str_append failure "\n")))

  -- The text that SPAWN_AGENT pops.
  unfoldable pub expect_task : Val → Opcode → Vm String
  expect_task (string t) op = pure t
  expect_task v op = type_error op "spawn_agent expected string task, got %T" (type_of v ∷ [])

  -- `attenuateChild`
  unfoldable pub attenuate_child : String → Opcode → String → Vm Grants
  attenuate_child listed op what s =
      on_result (attenuate host.parsers s.grants (requested host listed))
        (λ reason.
          fail "CAPABILITY_DENIED" op "capability denied: %s: %s" (text what ∷ text reason ∷ []))
        pure s

  unfoldable pub check_spawn_depth : Config → Opcode → Vm (Unit {0})
  check_spawn_depth config op s =
      fail_unless (ltb_ℤ (pos s.spawn_depth) config.limits.max_call_depth) "LIMIT_EXCEEDED" op
        "spawn nesting depth limit exceeded" [] s

  unfoldable pub body_length : ℤ → ℕ → Opcode → Vm ℕ
  body_length n remaining op =
      if ltb_ℤ n (pos 0) || ltb_ℤ (pos remaining) n
      then fail "RUNTIME_ERROR" op "spawn_agent body length %d out of range [0,%d]"
          (number n ∷ number (pos remaining) ∷ [])
      else pure (pos_part n)

  -- The body of an agent; an empty one is not run.
  unfoldable pub run_body : Run → Grants → List Instruction → Vm (Option String)
  run_body rec grants [] = pure none
  run_body rec grants (i ∷ body) = in_child grants (rec (i ∷ body))

  -- SPAWN_AGENT
  unfoldable pub exec_spawn_agent :
      Config → Run → List Instruction → Instruction → ℕ → List ℕ → Vm Next
  exec_spawn_agent config rec insts i ip bases = do
    v ← pop i.op
    task ← expect_task v i.op
    grants ← attenuate_child i.string_operand2 i.op "spawn_agent"
    check_spawn_depth config i.op
    n ← body_length i.int_operand (length insts - ip - 1) i.op
    write_out (
        str_append (agent_line "[Swarm VM] Spawning agent " i.string_operand " for task: " task)
          "\n")
    failure ← run_body rec grants (segment insts (ip + 1) n)
    report_agent i.string_operand task failure
    advance ip bases n
