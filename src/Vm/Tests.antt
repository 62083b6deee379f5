-- ===== src/Vm/Tests.antt =====
-- Runs of the machine on small programs, and the theorems on them.
use howlframe.Common.{
  ltb, insert, sort_strings, str_lt, contains, str_eq, if◌then◌else◌, ◌≢◌, inl, true, negsuc,
  lookup, length, arith, List, ◌≤◌, ◌≡◌, refl, suc, String, false, Option, none, some, [], ◌∷◌, ℤ,
  pos,
}
use howlframe.Common.Result.{ok, err}
use howlframe.Opcode.{spec_of, registry, Opcode}
use howlframe.Program
use howlframe.Artifact.{keys, function_at}
use howlframe.Vm.Value.{int}
use howlframe.Program.{Instruction, instruction, Function, Program}
use howlframe.Vm.Value.{Vars, Config, State, Host, Effect}
use howlframe.Vm.Run.{serves_http, run_bytecode, Evidence}
use howlframe.Vm.Monad.{
  find_var, assign_var, done, fail_unless, on_option, push, pop, pop_from, pure, stop, gets, ◌>>=◌,
  ◌>>◌, pop_many, fail,
}
use howlframe.Vm.Integer.{
  ◌*ℤ◌, min_int64, checked_add, checked_sub, checked_mul, mul_overflows, eq_ℤ, overflow,
}
use howlframe.Vm.Exact.{exact, checked_arithmetic_exact}
use howlframe.Vm.Bounded.{run_within_limits, run_restores, run_without_grants}
use howlframe.Vm.Calls.{
  call_result, in_frame, check_call_depth, synthesized, found_function, find_function, exec_call,
  check_arity,
}
use howlframe.Vm.Run.{exec_op, exec_plain, step, loop, run, start}
use howlframe.Vm.Guard.{
  instruction_limit, charge_text, is_request, capability_of, require_registered, authorize,
  count_instruction, check_limit, check_deadline, set_ip,
}
use howlframe.Vm.Data.{lift, exec_binop}
use howlframe.Vm.Binop.{bc_binop}
use howlframe.Vm.Integer.{wrap_int64, eq_ℤ, checked_add}
use howlframe.Report.{scan_from, is_fetch, scan_functions, scan, required_capabilities}
use howlframe.Capability.Grants.{serves, has, has_coarse}
use howlframe.Capability.{Capability}
use howlframe.Vm.Environment.{find_var-assign_var}
use howlframe.Vm.Granted.{require_registered-required}

-- A host that does nothing: its texts are empty, its floats zero, and nothing is granted.
abbrev pub quiet_effect : State → Effect
quiet_effect s = record {
  stack = s.stack;
  heap = s.heap;
  binds = [];
  out = [];
  err_out = [];
  world = suc s.world;
  session = s.session;
  charges = [];
  result = ok 0;
}

abbrev pub quiet_host : Host
quiet_host = record {
  float_add = λ a b. a;
  float_sub = λ a b. a;
  float_mul = λ a b. a;
  float_div = λ a b. a;
  float_of_int = λ n. 0;
  int_of_wild_float = λ f. pos 0;
  byte_of_float = λ f. 0;
  sprint = λ heap v. "";
  quote = λ t. t;
  message = λ e. e.format;
  parse_int = λ t. none;
  parse_float = λ t. none;
  trim_space = λ t. t;
  to_lower = λ t. t;
  to_upper = λ t. t;
  split = λ t sep. t ∷ [];
  match_regex = λ p t. ok false;
  html_escape = λ t. t;
  string_of_bytes = λ bs. "";
  encode_json = λ heap v. ok "";
  catch_string = λ e. e.code;
  parsers = record {
    parse_grant = λ g. some g;
    parse_fetch_grant = λ g. none;
    contained = λ a b. false;
    url_target = λ u. err "";
  };
  capture = λ heap frames. ([], heap);
  guarded = λ i s. quiet_effect s;
  unguarded = λ i s. quiet_effect s;
  synthesize = λ name s. (quiet_effect s, []);
  expired = λ s. false;
}

abbrev pub small_config : Config
small_config = record {
  limits = record {
    max_instructions = pos 100;
    max_memory_bytes = pos 1000;
    max_call_depth = pos 3;
    max_startup_instructions = pos 0;
  };
  startup = false;
  args = [];
  model_adapter = false;
  outside = record {
    comes_back = λ op s. true;
    slice_fits = λ n. ltb n 1_000_000;
    memory_suffices = λ n. true;
  };
}

abbrev load_int : ℤ → Instruction
load_int n = record (instruction "LOAD_CONST" Opcode.load_const) { value_operand = Program.int n }

abbrev named : String → Opcode → String → Instruction
named text op operand = record (instruction text op) { string_operand = operand }

abbrev with_int : ℤ → Instruction → Instruction
with_int n i = record i { int_operand = n }

-- (f x) where f calls itself for ever.
abbrev pub endless : Function
endless = record {
  params = [];
  instructions = with_int (pos 0) (named "CALL" Opcode.call "f") ∷ [];
  lazy_synthesize = false;
  docstring = "";
  name = "f";
}

abbrev pub endless_program : Program
endless_program = record {
  version = pos 2;
  functions = ("f", some endless) ∷ [];
  main = with_int (pos 0) (named "CALL" Opcode.call "f") ∷ [];
}

abbrev pub sum_program : Program
sum_program = record {
  version = pos 2;
  functions = [];
  main =
      load_int (pos 40)
      ∷ load_int (pos 2)
      ∷ named "BINOP" Opcode.binop "+"
      ∷ instruction "RETURN" Opcode.return
      ∷ [];
}

exit_of : Option Evidence → ℤ
exit_of none = pos 0
exit_of (some e) = e.exit_code

failure_code : Option Evidence → String
failure_code none = "out of fuel"
failure_code (some e) = elim e.failure [ none ↦ "none" | some error ↦ error.code ]

sum_exits : exit_of (run_bytecode quiet_host small_config sum_program [] 0 0) ≡ pos 42
unfolding exit_of run_bytecode run loop step set_ip check_deadline check_limit fail_unless
    count_instruction authorize require_registered capability_of spec_of is_request exec_op
    exec_plain exec_binop charge_text lift on_option push pop pop_from pure stop gets ◌>>=◌ ◌>>◌
    instruction_limit serves_http registry bc_binop checked_add wrap_int64
sum_exits = refl

endless_fails :
    failure_code (run_bytecode quiet_host small_config endless_program [] 0 0) ≡ "LIMIT_EXCEEDED"
unfolding failure_code run_bytecode run loop step set_ip check_deadline check_limit fail_unless
    count_instruction authorize require_registered capability_of spec_of is_request exec_op
    exec_plain exec_call find_function found_function synthesized check_arity pop_many
    check_call_depth in_frame call_result on_option push pop pop_from pure stop gets fail ◌>>=◌ ◌>>◌
    instruction_limit serves_http registry lookup eq_ℤ
endless_fails = refl

abbrev begun : State
begun = start endless_program [] 7 0

run_within_limits_example :
    (0 ≤ (run quiet_host small_config 5 endless_program.main begun).1.executed)
    × ((run quiet_host small_config 5 endless_program.main begun).1.executed ≤ 100)
    × (0 ≤ (run quiet_host small_config 5 endless_program.main begun).1.memory)
    × ((run quiet_host small_config 5 endless_program.main begun).1.memory ≤ 1_000)
unfolding instruction_limit
run_within_limits_example =
    run_within_limits quiet_host small_config 5 endless_program.main begun (omega arith)
      (omega arith)

run_restores_example :
    ((run quiet_host small_config 50 endless_program.main begun).1.call_depth ≡ 0)
    × ((run quiet_host small_config 50 endless_program.main begun).1.spawn_depth ≡ 0)
    × (length (run quiet_host small_config 50 endless_program.main begun).1.frames ≡ 1)
    × ((run quiet_host small_config 50 endless_program.main begun).1.grants ≡ [])
run_restores_example = run_restores quiet_host small_config 50 endless_program.main begun

-- A program that runs a command.
abbrev exec_main : List Instruction
exec_main = load_int (pos 1) ∷ instruction "EXEC" Opcode.exec ∷ []

run_without_grants_example : (run quiet_host small_config 50 exec_main begun).1.world ≡ 7
run_without_grants_example = run_without_grants quiet_host small_config 50 exec_main begun refl

checked_arithmetic_exact_example :
    (checked_add (pos 5) (negsuc 7) ≡ exact (negsuc 2))
    × (checked_sub (pos 5) (negsuc 7) ≡ exact (pos 13))
    × (checked_mul (pos 5) (negsuc 7) ≡ exact (negsuc 39))
unfolding ◌*ℤ◌
checked_arithmetic_exact_example = checked_arithmetic_exact (pos 5) (negsuc 7) refl refl

product_overflows : checked_mul min_int64 (negsuc 0) ≡ overflow
unfolding checked_mul mul_overflows eq_ℤ
product_overflows = refl

abbrev no_grant : String → Option String
no_grant url = none

abbrev exec_program : Program
exec_program = record { version = pos 2; functions = []; main = exec_main }

abbrev may_run : State
may_run = record begun { grants = "process" ∷ [] }

exec_capabilities : (required_capabilities no_grant exec_program).capabilities ≡ "process" ∷ []
unfolding required_capabilities scan scan_functions scan_from str_lt sort_strings keys function_at
    lookup spec_of insert is_fetch
exec_capabilities = refl

serves_reported :
    (c : Capability)
    → contains c (required_capabilities no_grant exec_program).capabilities ≡ true
    → has quiet_host.parsers c may_run.grants ≡ true
unfolding has serves
serves_reported c h =
    let listed : contains c ("process" ∷ []) ≡ true = rw exec_capabilities at h in
    ground (arith, listed)

require_registered-required_example :
    require_registered quiet_host Opcode.exec may_run ≡ (done tt, may_run)
unfolding has_coarse
require_registered-required_example =
    require_registered-required quiet_host no_grant exec_program may_run exec_main 1
      (instruction "EXEC" Opcode.exec) serves_reported (λ h. refl) (inl refl) refl

-- A variable of an outer environment, behind one of the same frame.
abbrev two_frames : List Vars
two_frames = (("x", int (pos 1)) ∷ []) ∷ (("y", int (pos 2)) ∷ ("x", int (pos 3)) ∷ []) ∷ []

find_var-assign_var_example :
    (assign_var "y" (int (pos 9)) two_frames ≡ none → find_var "y" two_frames ≡ none)
    × ((frames' : List Vars)
        → assign_var "y" (int (pos 9)) two_frames ≡ some frames'
        → (find_var "y" two_frames ≢ none)
          × ((x : String)
              → find_var x frames'
                ≡ (if str_eq "y" x then some (int (pos 9)) else find_var x two_frames)))
find_var-assign_var_example = find_var-assign_var "y" (int (pos 9)) two_frames
