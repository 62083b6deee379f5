-- ===== src/Vm/Run.antt =====
-- `vm.run` and `runBytecodeEvidence` of internal/vm/vm.go.
use howlframe.Common.{
  ℕ, zero, suc, String, Bool, true, false, Option, none, some, List, [], ◌∷◌, ℤ, pos, negsuc,
  get_elem?, str_append, if◌then◌else◌, pos_part,
}
use howlframe.Capability.Grants.{Grants}
use howlframe.Opcode.{Opcode, registry}
use howlframe.Program.{Instruction, Program}
use howlframe.Vm.Value.{int, string, text, Config, State, Host, VmError}
use howlframe.Vm.Monad.{
  on_option, Vm, Outcome, done, returned, exited, failed, crashed, lost, out_of_fuel, pure, ◌>>=◌,
  ◌>>◌, stop, fail, push, pop, load_var, store_var, bind_var,
}
use howlframe.Vm.Guard.{
  check_deadline, check_limit, count_instruction, authorize, set_ip, instruction_limit,
}
use howlframe.Vm.Data.{
  constant, exec_binop, exec_convert, exec_str_split, exec_str_join, exec_regex_match,
  exec_make_list, exec_append, exec_list_get, exec_list_len, exec_is_nil, exec_encode_json,
  exec_escape, exec_secure_equal, exec_cli_args, exec_cli_args_get, exec_print, exec_stderr,
}
use howlframe.Vm.Maps.{exec_make_dict, exec_map_set, exec_map_delete, exec_map_get, exec_map_keys}
use howlframe.Vm.Control.{
  Next, Run, advance, jump_by, exec_jump_if_false, exec_for_init, exec_for_next, exit_code,
  exec_try_let,
}
use howlframe.Vm.Calls.{exec_effect, exec_call, exec_spawn_agent}

-- `bytecode.Registry[op].Name`
unfoldable pub registry_name : Opcode → String
registry_name op = elim (registry op) [ none ↦ "" | some spec ↦ spec.name ]

-- SET_VAR
unfoldable pub exec_set_var : String → Opcode → Vm (Unit {0})
exec_set_var name op = do
  v ← pop op
  found ← store_var name v
  if found then pure tt else fail "UNDEFINED_VAR" op "undefined variable: %s" (text name ∷ [])

module _ (host : Host) (config : Config) (rec : Run) where
  -- The instructions after which `vm.run` goes on to the next one; none for the others.
  unfoldable pub exec_plain : Opcode → Instruction → Option (Vm (Unit {0}))
  exec_plain Opcode.load_const i = some (push (constant i.value_operand))
  exec_plain Opcode.load_var i = some (load_var i.string_operand i.op >>= push)
  exec_plain Opcode.store_var i = some (pop i.op >>= bind_var i.string_operand)
  exec_plain Opcode.set_var i = some (exec_set_var i.string_operand i.op)
  exec_plain Opcode.call i = some (exec_call host config rec i)
  exec_plain Opcode.return i = some (pop i.op >>= λ v. stop (returned v))
  exec_plain Opcode.print i = some (exec_print host config i.int_operand i.op)
  exec_plain Opcode.stderr i = some (exec_stderr host config i.op)
  exec_plain Opcode.exit i = some (pop i.op >>= λ v. stop (exited (exit_code host v)))
  exec_plain Opcode.binop i = some (exec_binop host config i.string_operand i.op)
  exec_plain Opcode.convert i = some (exec_convert host config i.string_operand i.op)
  exec_plain Opcode.str_split i = some (exec_str_split host config i.op)
  exec_plain Opcode.str_join i = some (exec_str_join host config i.op)
  exec_plain Opcode.regex_match i = some (exec_regex_match host config i.op)
  exec_plain Opcode.make_list i = some (exec_make_list host config i.int_operand i.op)
  exec_plain Opcode.make_dict i = some (exec_make_dict host config i.int_operand i.op)
  exec_plain Opcode.append i = some (exec_append host config i.string_operand i.op)
  exec_plain Opcode.map_set i = some (exec_map_set host config i.string_operand i.op)
  exec_plain Opcode.map_delete i = some (exec_map_delete host config i.string_operand i.op)
  exec_plain Opcode.map_get i = some (exec_map_get host config i.string_operand i.op)
  exec_plain Opcode.list_get i = some (exec_list_get host config i.string_operand i.op)
  exec_plain Opcode.list_len i = some (exec_list_len host config i.op)
  exec_plain Opcode.map_keys i = some (exec_map_keys host config i.op)
  exec_plain Opcode.is_nil i = some (exec_is_nil host config i.op)
  exec_plain Opcode.encode_json i = some (exec_encode_json host config i.op)
  exec_plain Opcode.html_escape i = some (exec_escape host config "html_escape" i.op)
  exec_plain Opcode.attr_escape i = some (exec_escape host config "attr_escape" i.op)
  exec_plain Opcode.secure_equal i = some (exec_secure_equal host config i.op)
  exec_plain Opcode.cli_args i = some (exec_cli_args host config)
  exec_plain Opcode.cli_args_get i = some (exec_cli_args_get host config i.op)
  exec_plain Opcode.task i = some (push (string i.string_operand))
  exec_plain Opcode.unknown i =
      some (fail "VM_INTERNAL" i.op "unknown opcode: %s" (text (registry_name i.op) ∷ []))
  exec_plain (Opcode.numbered n) i =
      some (fail "VM_INTERNAL" i.op "unknown opcode: %s" (text (registry_name i.op) ∷ []))
  exec_plain _ i = none

  -- The switch of `vm.run`.
  unfoldable pub exec_op : Opcode → List Instruction → Instruction → ℕ → List ℕ → Vm Next
  exec_op Opcode.try_let insts i ip bases = exec_try_let host rec insts i ip bases
  exec_op Opcode.jump_if_false insts i ip bases = exec_jump_if_false ip bases i.int_operand i.op
  exec_op Opcode.jump insts i ip bases = jump_by ip bases i.int_operand
  exec_op Opcode.for_init insts i ip bases = exec_for_init ip bases i.op
  exec_op Opcode.for_next insts i ip bases = exec_for_next host i ip bases
  exec_op Opcode.spawn_agent insts i ip bases = exec_spawn_agent host config rec insts i ip bases
  exec_op op insts i ip bases = elim (exec_plain op i) [
    | some m ↦ m >> advance ip bases 0
    | none ↦ exec_effect host config i ip bases
  ]

  -- One round of the loop of `vm.run`, and what follows it.
  unfoldable pub step :
      List Instruction → Instruction → ℕ → List ℕ → (Next → Vm (Unit {0})) → Vm (Unit {0})
  step insts i ip bases again = do
    set_ip (pos ip)
    check_deadline host config i.op
    check_limit config i.op
    count_instruction
    authorize host i
    next ← exec_op i.op insts i ip bases
    again next

module _ (host : Host) (config : Config) where
  -- Go's panic at `insts[-(n + 1)]`.
  abbrev bad_index : ℕ → String
  bad_index n =
      str_append "runtime error: index out of range ["
        (str_append (host.sprint [] (int (negsuc n))) "]")

  -- `for ip < len(insts)`, on fuel.
  unfoldable pub loop : ℕ → List Instruction → ℤ → List ℕ → Vm (Unit {0})
  loop zero insts ip bases = stop out_of_fuel
  loop (suc fuel) insts (negsuc n) bases = set_ip (negsuc n) >> stop (crashed (bad_index n))
  loop (suc fuel) insts (pos ip) bases =
      let again = λ (next : Next). loop fuel insts next.0 next.1 in
      let nested = λ (part : List Instruction). loop fuel part (pos 0) [] in
      on_option (get_elem? insts ip) (pure tt) λ i. step host config nested insts i ip bases again

  -- `vm.run`
  unfoldable pub run : ℕ → Run
  unfolding loop
  run fuel insts = loop fuel insts (pos 0) []

-- The machine at its start.
abbrev pub start : Program → Grants → ℕ → ℕ → State
start prog grants world session = record {
  stack = [];
  frames = [] ∷ [];
  heap = [];
  functions = prog.functions;
  ip = pos 0;
  executed = 0;
  call_depth = 0;
  spawn_depth = 0;
  memory = 0;
  grants = grants;
  out = [];
  err_out = [];
  world = world;
  session = session;
}

-- `programServesHTTP`
unfoldable pub serves_http : List Instruction → Bool
serves_http [] = false
serves_http (i ∷ insts) = elim i.op [ Opcode.http_server_start ↦ true | _ ↦ serves_http insts ]

-- `bytecode.ExecutionEvidence`, as far as the end of the run goes.
pub record Evidence : Type 0 where
  pub exit_code : ℤ
  pub failure : Option VmError

-- The end of `runBytecodeEvidence`: none when the run is lost, or the fuel ran out.
unfoldable pub evidence_of : Outcome (Unit {0}) × State → Option Evidence
evidence_of (done _, s) = some (record { exit_code = pos 0; failure = none })
evidence_of (returned (int n), s) = some (record { exit_code = n; failure = none })
evidence_of (returned v, s) = some (record { exit_code = pos 0; failure = none })
evidence_of (exited c, s) = some (record { exit_code = c; failure = none })
evidence_of (failed e, s) = some (record { exit_code = pos 0; failure = some e })
evidence_of (crashed m, s) = some (record {
  exit_code = pos 0;
  failure = some (record {
    code = "VM_INTERNAL";
    instruction = s.ip;
    op = Opcode.unknown;
    format = "%v";
    args = text m ∷ [];
  });
})
evidence_of (lost, s) = none
evidence_of (out_of_fuel, s) = none

-- As many rounds as the instruction limit allows, and the one that finds it spent.
unfoldable pub enough_fuel : Config → ℕ
enough_fuel config = suc (pos_part (instruction_limit config))

-- The machine's settings for a program: `vm.startup` is `programServesHTTP(prog)`.
abbrev pub config_for : Config → Program → Config
config_for config prog = record config { startup = serves_http prog.main }

-- `runBytecodeEvidence`
unfoldable pub run_bytecode : Host → Config → Program → Grants → ℕ → ℕ → Option Evidence
unfolding run evidence_of enough_fuel
run_bytecode host config prog grants world session =
    let settings = config_for config prog in
    evidence_of
      (run host settings (enough_fuel settings) prog.main (start prog grants world session))
