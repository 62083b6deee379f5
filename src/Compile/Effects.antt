-- ===== src/Compile/Effects.antt =====
-- Cases of `compileNode` of internal/bytecode/bytecode.go for effects, stores and child programs.
use howlframe.Common.{
  ltb, ◌||◌, String, not, ◌-◌, ◌==◌, pos, ◌∷◌, [], none, some, ◌++◌, length, get_elem?,
  if◌then◌else◌,
}
use howlframe.Opcode.{
  Opcode, cli_args, cli_args_get, exec, parse_json, fetch, http_request, db_connect, sql_query,
  store_open, achieve, task, llm_generate,
}
use howlframe.Program.{Value, instruction}
use howlframe.Ast.{is_string, Node, type, value, children, is_symbol, stringify}
use howlframe.Compile.Monad.{
  handle_not_symbol, wrong_shape, headers_unsupported, Compile, Code, Recur, ◌>>=◌, ◌>>◌, pure,
  report_if, rest, child, compile_list, compile_at,
}
use howlframe.Compile.Emit.{load, with_int, with_string, fetch_with_body}

-- (cli_args [index])
unfoldable pub compile_arguments : Recur → Node → Compile Code
compile_arguments rec n =
    if length (children n) == 2
    then (do code ← compile_at rec n 1; pure (code ++ instruction "CLI_ARGS_GET" cli_args_get ∷ []))
    else pure (instruction "CLI_ARGS" cli_args ∷ [])

-- (exec program args...)
unfoldable pub compile_exec : Recur → Node → Compile Code
compile_exec rec n = do
  program ← compile_at rec n 1
  args ← rest n 2
  code ← compile_list rec args
  pure (program ++ (code ++ with_int "EXEC" exec (pos (length (children n) - 2)) ∷ []))

-- (parse_json type variable)
unfoldable pub compile_parse_json : Node → Compile Code
compile_parse_json n = do
  body ← child n 2
  pure (with_string "PARSE_JSON" parse_json (value body) ∷ [])

-- What follows the URL and the method of a fetch.
abbrev compile_fetch_tail : Recur → Node → Compile Code
compile_fetch_tail rec n =
    if length (children n) == 4
    then (do body ← compile_at rec n 3; pure (fetch_with_body body))
    else pure (instruction "FETCH" fetch ∷ [])

-- (fetch url method [body])
unfoldable pub compile_fetch : Recur → Node → Compile Code
unfolding ◌>>◌
compile_fetch rec n = do
  report_if (length (children n) == 5) headers_unsupported n
  url ← compile_at rec n 1
  method ← compile_at rec n 2
  tail ← compile_fetch_tail rec n
  pure (url ++ (method ++ tail))

-- (http_request url method [body])
unfoldable pub compile_request : Recur → Node → Compile Code
unfolding ◌>>◌
compile_request rec n = do
  report_if (not (length (children n) == 3 || length (children n) == 4))
      (wrong_shape "http_request") n
  url ← compile_at rec n 1
  method ← compile_at rec n 2
  body ← if length (children n) == 4 then compile_at rec n 3 else pure []
  let has_body = if length (children n) == 4 then 1 else 0
  pure (url ++ (method ++ (body ++ with_int "HTTP_REQUEST" http_request (pos has_body) ∷ [])))

-- (db_connect name driver dsn)
unfoldable pub compile_db_connect : Node → Compile Code
compile_db_connect n = do
  name ← child n 1
  driver ← child n 2
  dsn ← child n 3
  pure (
      record (with_string "DB_CONNECT" db_connect (value name)) {
        string_operand2 = value driver;
        string_operand3 = value dsn;
      }
      ∷ [])

-- (sql_query db query)
unfoldable pub compile_sql : Node → Compile Code
compile_sql n = do
  db ← child n 1
  query ← child n 2
  pure
      (record (with_string "SQL_QUERY" sql_query (value db)) { string_operand2 = value query } ∷ [])

-- (store_open handle uri): a literal URI is recorded for the capability report.
unfoldable pub compile_store_open : Recur → Node → Compile Code
unfolding ◌>>◌
compile_store_open rec n = do
  report_if (not (length (children n) == 3)) (wrong_shape "store_open") n
  handle ← child n 1
  uri ← child n 2
  report_if (not (is_symbol (type handle))) (handle_not_symbol "store_open") handle
  code ← rec uri
  pure (
      code
      ++ record (with_string "STORE_OPEN" store_open (value handle)) {
        string_operand2 = if is_string (type uri) then value uri else "";
      }
        ∷ [])

-- (achieve target constraint)
unfoldable pub compile_achieve : Node → Compile Code
unfolding ◌>>◌
compile_achieve n = do
  report_if (not (length (children n) == 3)) (wrong_shape "achieve") n
  target ← child n 1
  goal_constraint ← child n 2
  pure (
      load (Value.string (stringify target))
      ∷ load (Value.string (stringify goal_constraint))
      ∷ instruction "ACHIEVE" achieve
      ∷ [])

-- (neural_circuit (inputs...) instruction), and ephemeral_circuit
unfoldable pub compile_circuit : Recur → String → Opcode → String → Node → Compile Code
unfolding ◌>>◌
compile_circuit rec name op head n = do
  report_if (ltb (length (children n)) 3) (wrong_shape head) n
  inputs ← child n 1
  code ← compile_at rec n 2
  args ← compile_list rec (children inputs)
  pure (code ++ (args ++ with_int name op (pos (length (children inputs))) ∷ []))

abbrev pub model_name : Node → String
model_name n = elim (get_elem? (children n) 2) [ none ↦ "llama3" | some model ↦ value model ]

-- (llm_generate prompt [model])
unfoldable pub compile_generate : Recur → Node → Compile Code
compile_generate rec n = do
  prompt ← compile_at rec n 1
  pure (prompt ++ with_string "LLM_GENERATE" llm_generate (model_name n) ∷ [])

-- (task description ...)
unfoldable pub compile_task : Node → Compile Code
compile_task n = do description ← child n 1; pure (with_string "TASK" task (value description) ∷ [])
