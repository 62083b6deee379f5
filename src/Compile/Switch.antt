-- ===== src/Compile/Switch.antt =====
-- `compileNode` of internal/bytecode/bytecode.go: literals, the arity check and the switch.
use howlframe.Common.{
  map, ltb, ◌+◌, ◌||◌, ◌==◌, str_eq, ◌-◌, not, Option, String, ℕ, pos, suc, zero, ◌∷◌, [], none,
  some, List, ◌++◌, length, if◌then◌else◌,
}
use howlframe.Opcode.{Opcode, binop, convert, load_var}
use howlframe.Program.{Value, Instruction, Program, instruction}
use howlframe.Ast.{depth, Node, NodeType, type, value, children, is_symbol}
use howlframe.Arity.{Arity, lookup_arity, violates}
use howlframe.Compile.Table.{
  Construct, switch_head, block, operands, exact_operands, named, on_handle, counted, arithmetic,
  conversion, circuit, only_child, only_last, nothing, grants, optimized_block, defun,
  lazy_synthesize, let_form, if_form, while_form, for_form, return_form, try_form, logical,
  call_form, dict_form, map_get_form, arguments, exec_form, parse_json_form, fetch_form,
  request_form, db_connection, sql, open_store, generate, goal, task_form, spawn_form, agent_form,
  server,
}
use howlframe.Compile.Monad.{
  Outcome, reported, done, grants_misplaced, handle_not_symbol, wrong_shape, wrong_arity, Compiled,
  fuel_spent, invalid_float, no_lowering, Outcome, invalid_integer, Reason, Services, Compile, Code,
  Recur, ◌>>=◌, ◌>>◌, pure, report, report_if, rest, child, last_child, compile_list, compile_at,
  compile_range,
}
use howlframe.Compile.Emit.{load, with_int, with_string}
use howlframe.Compile.Forms.{
  compile_defun, compile_lazy, compile_try, compile_let, compile_if, compile_while, compile_for,
  compile_return, compile_logical, compile_call, compile_dict, compile_map_get,
}
use howlframe.Compile.Effects.{
  compile_arguments, compile_exec, compile_parse_json, compile_fetch, compile_request,
  compile_db_connect, compile_sql, compile_store_open, compile_achieve, compile_circuit,
  compile_generate, compile_task,
}
use howlframe.Compile.Server.{compile_server}
use howlframe.Compile.Children.{compile_agent, compile_spawn}
use howlframe.Scope.Walk.{scope_bindings}

-- `k` operands, then an instruction.
unfoldable pub compile_operands : Recur → ℕ → Instruction → Node → Compile Code
compile_operands rec k inst n = do code ← compile_range rec n 1 k; pure (code ++ inst ∷ [])

-- The block from child `i`.
unfoldable pub compile_block : Recur → ℕ → Node → Compile Code
compile_block rec i n = do forms ← rest n i; compile_list rec forms

-- A variable, then `k` operands, then an instruction that names the variable.
unfoldable pub compile_named : Recur → ℕ → String → Opcode → Node → Compile Code
compile_named rec k name op n = do
  variable ← child n 1
  code ← compile_range rec n 2 k
  pure (code ++ with_string name op (value variable) ∷ [])

-- The same for a store handle, which is checked.
unfoldable pub compile_on_handle : Recur → ℕ → String → Opcode → String → Node → Compile Code
unfolding ◌>>◌
compile_on_handle rec k name op head n = do
  report_if (not (length (children n) == k + 2)) (wrong_shape head) n
  handle ← child n 1
  report_if (not (is_symbol (type handle))) (handle_not_symbol head) handle
  code ← compile_range rec n 2 k
  pure (code ++ with_string name op (value handle) ∷ [])

unfoldable pub compile_counted : Recur → String → Opcode → Node → Compile Code
compile_counted rec name op n = do
  args ← rest n 1
  code ← compile_list rec args
  pure (code ++ with_int name op (pos (length (children n) - 1)) ∷ [])

-- One case of the switch.
unfoldable pub compile_construct : Services → Recur → String → Node → Construct → Compile Code
unfolding ◌>>◌
compile_construct services rec head n (block i) = compile_block rec i n
compile_construct services rec head n (operands k name op) =
    compile_operands rec k (instruction name op) n
compile_construct services rec head n (exact_operands k name op) =
    report_if (not (length (children n) == k + 1)) (wrong_shape head) n
    >> compile_operands rec k (instruction name op) n
compile_construct services rec head n (named k name op) = compile_named rec k name op n
compile_construct services rec head n (on_handle k name op) = compile_on_handle rec k name op head n
compile_construct services rec head n (counted name op) = compile_counted rec name op n
compile_construct services rec head n (arithmetic symbol) =
    compile_operands rec 2 (with_string "BINOP" binop symbol) n
compile_construct services rec head n conversion =
    compile_operands rec 1 (with_string "CONVERT" convert head) n
compile_construct services rec head n (circuit name op) = compile_circuit rec name op head n
compile_construct services rec head n (only_child i) = compile_at rec n i
compile_construct services rec head n only_last = last_child n >>= rec
compile_construct services rec head n nothing = pure []
compile_construct services rec head n grants = report grants_misplaced n
compile_construct services rec head n optimized_block =
    report_if (ltb (length (children n)) 4) (wrong_shape head) n >> compile_block rec 3 n
compile_construct services rec head n defun = compile_defun rec n
compile_construct services rec head n lazy_synthesize = compile_lazy n
compile_construct services rec head n let_form = compile_let rec n
compile_construct services rec head n if_form = compile_if rec n
compile_construct services rec head n while_form = compile_while rec n
compile_construct services rec head n for_form = compile_for rec n
compile_construct services rec head n return_form = compile_return rec n
compile_construct services rec head n try_form = compile_try rec n
compile_construct services rec head n logical = compile_logical rec head n
compile_construct services rec head n call_form = compile_call rec n
compile_construct services rec head n dict_form = compile_dict rec n
compile_construct services rec head n map_get_form = compile_map_get rec n
compile_construct services rec head n arguments = compile_arguments rec n
compile_construct services rec head n exec_form = compile_exec rec n
compile_construct services rec head n parse_json_form = compile_parse_json n
compile_construct services rec head n fetch_form = compile_fetch rec n
compile_construct services rec head n request_form = compile_request rec n
compile_construct services rec head n db_connection = compile_db_connect n
compile_construct services rec head n sql = compile_sql n
compile_construct services rec head n open_store = compile_store_open rec n
compile_construct services rec head n generate = compile_generate rec n
compile_construct services rec head n goal = compile_achieve n
compile_construct services rec head n task_form = compile_task n
compile_construct services rec head n spawn_form = compile_spawn services rec n
compile_construct services rec head n agent_form = compile_agent services rec n
compile_construct services rec head n server = compile_server services rec n

-- The arity check, which stands in front of the switch.
abbrev pub arity_error : Option Arity → String → Node → Compile (Unit {0})
arity_error none head n = pure tt
arity_error (some want) head n =
    report_if (violates want (length (children n) - 1))
      (wrong_arity head (length (children n) - 1) want) n

unfoldable pub check_arity : Node → Node → Compile (Unit {0})
check_arity first n =
    if is_symbol (type first)
    then arity_error (lookup_arity (value first)) (value first) n
    else pure tt

abbrev pub dispatch : Services → Recur → Node → Node → Option Construct → Compile Code
dispatch services rec first n none = report (no_lowering (value first)) first
dispatch services rec first n (some rule) = compile_construct services rec (value first) n rule

-- A list with a head.
unfoldable pub compile_call_form : Services → Recur → Node → Node → Compile Code
unfolding ◌>>◌
compile_call_form services rec first n =
    check_arity first n >> dispatch services rec first n (switch_head (value first))

abbrev pub compile_list_form : Services → Recur → Node → List Node → Compile Code
compile_list_form services rec n [] = pure []
compile_list_form services rec n (first ∷ args) = compile_call_form services rec first n

abbrev pub load_parsed : {A : Type 0} → (A → Value) → Reason → Option A → Node → Compile Code
load_parsed wrap reason none n = report reason n
load_parsed wrap reason (some a) n = pure (load (wrap a) ∷ [])

abbrev pub compile_symbol : String → Code
compile_symbol name =
    if str_eq name "true" || str_eq name "false"
    then load (Value.bool (str_eq name "true")) ∷ []
    else with_string "LOAD_VAR" load_var name ∷ []

abbrev pub compile_by_type : Services → Recur → Node → NodeType → Compile Code
compile_by_type services rec n NodeType.int =
    load_parsed Value.int (invalid_integer (value n)) (services.parse_int (value n)) n
compile_by_type services rec n NodeType.float =
    load_parsed Value.float (invalid_float (value n)) (services.parse_float (value n)) n
compile_by_type services rec n NodeType.string = pure (load (Value.string (value n)) ∷ [])
compile_by_type services rec n NodeType.symbol = pure (compile_symbol (value n))
compile_by_type services rec n NodeType.list = compile_list_form services rec n (children n)

-- The body of `compileNode`, over the way it calls itself.
unfoldable pub compile_step : Services → Recur → Recur
compile_step services rec n = compile_by_type services rec n (type n)

-- `compileNode`, with fuel.
unfoldable pub compile_node : Services → ℕ → Recur
compile_node services zero n = fuel_spent
compile_node services (suc fuel) n = compile_step services (compile_node services fuel) n

abbrev pub finish : Outcome (Code × Compiled) → Outcome Program
finish (done (code, functions)) = done (record {
  version = pos 1;
  functions = map (λ (name, fn). (name, some fn)) functions;
  main = code;
})
finish (reported r l c) = reported r l c
finish Outcome.panicked = Outcome.panicked
finish Outcome.out_of_fuel = Outcome.out_of_fuel

-- A tree that the scoping pass left; without one the pass panicked.
unfoldable pub compile_scoped : Services → Option Node → Outcome Program
unfolding compile_node
compile_scoped services none = Outcome.panicked
compile_scoped services (some root) = finish (compile_node services (suc (depth root)) root [])

-- `CompileToBytecode` on the tree that its call of `ast.Desugar` leaves. The depth of the tree is fuel
-- enough.
unfoldable pub compile_program : Services → Node → Outcome Program
unfolding compile_scoped scope_bindings
compile_program services root = compile_scoped services (scope_bindings root)
