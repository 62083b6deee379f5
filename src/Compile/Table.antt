-- ===== src/Compile/Table.antt =====
-- The `switch head` of `compileNode` in internal/bytecode/bytecode.go: how each construct is
-- lowered. A rule with numbers and names stands for cases of one shape; the others have a rule each.
use howlframe.Common.{ℕ, String, Option, List, [], ◌∷◌, lookup}
use howlframe.Opcode.{
  Opcode, append, attr_escape, confidence, encode_json, env, ephemeral_circuit, exit, granted,
  html_escape, http_req_body, http_req_header, http_req_id, http_req_method, http_req_path,
  http_req_query, http_req_url_path, http_res_header, is_nil, list_get, list_len, make_list,
  map_delete, map_keys, map_set, mkdir, neural_circuit, port_available, print, rand_hex, read_file,
  read_line, read_stdin, regex_match, res, res_json, secure_equal, set_var, sha256_hex, sleep,
  stderr, store_delete, store_get, store_keys, store_put, str_join, str_split, time_now, utf8_valid,
  write_file,
}

pub data Construct : Type 0 where
  -- the children from an index, in order
  block : ℕ → Construct
  -- so many operands, then a plain instruction; `exact_operands` checks their number first
  operands exact_operands : ℕ → String → Opcode → Construct
  -- a variable, so many operands after it, then an instruction that holds the variable;
  -- `on_handle` checks the number and that the variable is a symbol first
  named on_handle : ℕ → String → Opcode → Construct
  -- all children, then an instruction that holds their number
  counted : String → Opcode → Construct
  -- two operands, then BINOP with an operator
  arithmetic : String → Construct
  -- one operand, then CONVERT with the head
  conversion : Construct
  -- a list of inputs and an instruction
  circuit : String → Opcode → Construct
  only_child : ℕ → Construct
  only_last nothing grants optimized_block : Construct
  defun lazy_synthesize : Construct
  let_form if_form while_form for_form return_form try_form logical call_form dict_form : Construct
  map_get_form arguments exec_form parse_json_form fetch_form request_form : Construct
  db_connection sql open_store generate goal task_form spawn_form agent_form server : Construct

-- The cases of the switch.
abbrev pub constructs : List (String × Construct)
constructs =
    ("cli_app", block 1)
    ∷ ("wasm_app", block 1)
    ∷ ("web_app", block 1)
    ∷ ("defun", defun)
    ∷ ("lazy_synthesize", lazy_synthesize)
    ∷ ("type_hint", nothing)
    ∷ ("type_hints", nothing)
    ∷ ("type_param", nothing)
    ∷ ("try_let", try_form)
    ∷ ("db_connect", db_connection)
    ∷ ("sql_query", sql)
    ∷ ("store_open", open_store)
    ∷ ("store_put", on_handle 2 "STORE_PUT" store_put)
    ∷ ("store_get", on_handle 1 "STORE_GET" store_get)
    ∷ ("store_delete", on_handle 1 "STORE_DELETE" store_delete)
    ∷ ("store_keys", on_handle 0 "STORE_KEYS" store_keys)
    ∷ ("fetch", fetch_form)
    ∷ ("http_request", request_form)
    ∷ ("read_file", operands 1 "READ_FILE" read_file)
    ∷ ("write_file", operands 2 "WRITE_FILE" write_file)
    ∷ ("mkdir", operands 1 "MKDIR" mkdir)
    ∷ ("exec", exec_form)
    ∷ ("parse_json", parse_json_form)
    ∷ ("spawn", spawn_form)
    ∷ ("spawn_agent", agent_form)
    ∷ ("grants", grants)
    ∷ ("task", task_form)
    ∷ ("res", operands 3 "RES" res)
    ∷ ("res_json", operands 2 "RES_JSON" res_json)
    ∷ ("res_header", operands 2 "HTTP_RES_HEADER" http_res_header)
    ∷ ("req_method", operands 0 "HTTP_REQ_METHOD" http_req_method)
    ∷ ("req_query", exact_operands 2 "HTTP_REQ_QUERY" http_req_query)
    ∷ ("req_header", exact_operands 2 "HTTP_REQ_HEADER" http_req_header)
    ∷ ("req_path", exact_operands 2 "HTTP_REQ_PATH" http_req_path)
    ∷ ("http_server", server)
    ∷ ("confidence", operands 1 "CONFIDENCE" confidence)
    ∷ ("achieve", goal)
    ∷ ("neural_circuit", circuit "NEURAL_CIRCUIT" neural_circuit)
    ∷ ("ephemeral_circuit", circuit "EPHEMERAL_CIRCUIT" ephemeral_circuit)
    ∷ ("llm_generate", generate)
    ∷ ("schema_bridge", only_child 2)
    ∷ ("optimize_signature", only_last)
    ∷ ("let", let_form)
    ∷ ("set", named 1 "SET_VAR" set_var)
    ∷ ("if", if_form)
    ∷ ("while", while_form)
    ∷ ("for", for_form)
    ∷ ("return", return_form)
    ∷ ("print", counted "PRINT" print)
    ∷ ("stderr", operands 1 "STDERR" stderr)
    ∷ ("exit", operands 1 "EXIT" exit)
    ∷ ("read_line", operands 0 "READ_LINE" read_line)
    ∷ ("serialize_requests", nothing)
    ∷ ("req_body", exact_operands 1 "HTTP_REQ_BODY" http_req_body)
    ∷ ("req_url_path", exact_operands 1 "HTTP_REQ_URL_PATH" http_req_url_path)
    ∷ ("utf8_valid", exact_operands 1 "UTF8_VALID" utf8_valid)
    ∷ ("granted", exact_operands 1 "GRANTED" granted)
    ∷ ("port_available", exact_operands 1 "PORT_AVAILABLE" port_available)
    ∷ ("req_id", exact_operands 1 "HTTP_REQ_ID" http_req_id)
    ∷ ("sha256_hex", operands 1 "SHA256_HEX" sha256_hex)
    ∷ ("rand_hex", operands 1 "RAND_HEX" rand_hex)
    ∷ ("secure_equal", operands 2 "SECURE_EQUAL" secure_equal)
    ∷ ("read_stdin", operands 0 "READ_STDIN" read_stdin)
    ∷ ("call", call_form)
    ∷ ("and", logical)
    ∷ ("or", logical)
    ∷ ("+", arithmetic "+")
    ∷ ("-", arithmetic "-")
    ∷ ("*", arithmetic "*")
    ∷ ("/", arithmetic "/")
    ∷ ("<", arithmetic "<")
    ∷ (">", arithmetic ">")
    ∷ ("<=", arithmetic "<=")
    ∷ (">=", arithmetic ">=")
    ∷ ("==", arithmetic "==")
    ∷ ("!=", arithmetic "!=")
    ∷ ("=", arithmetic "==")
    ∷ ("to_int", conversion)
    ∷ ("time_now", operands 0 "TIME_NOW" time_now)
    ∷ ("to_float", conversion)
    ∷ ("to_string", conversion)
    ∷ ("bytes_to_string", conversion)
    ∷ ("to_lower", conversion)
    ∷ ("to_upper", conversion)
    ∷ ("str_trim", conversion)
    ∷ ("encode_json", operands 1 "ENCODE_JSON" encode_json)
    ∷ ("html_escape", exact_operands 1 "HTML_ESCAPE" html_escape)
    ∷ ("attr_escape", exact_operands 1 "ATTR_ESCAPE" attr_escape)
    ∷ ("str_split", operands 2 "STR_SPLIT" str_split)
    ∷ ("str_join", operands 2 "STR_JOIN" str_join)
    ∷ ("regex_match", operands 2 "REGEX_MATCH" regex_match)
    ∷ ("list_len", operands 1 "LIST_LEN" list_len)
    ∷ ("map_keys", exact_operands 1 "MAP_KEYS" map_keys)
    ∷ ("is_nil", operands 1 "IS_NIL" is_nil)
    ∷ ("list", counted "MAKE_LIST" make_list)
    ∷ ("dict", dict_form)
    ∷ ("append", named 1 "APPEND" append)
    ∷ ("map_set", named 2 "MAP_SET" map_set)
    ∷ ("map_delete", named 1 "MAP_DELETE" map_delete)
    ∷ ("map_get", map_get_form)
    ∷ ("list_get", named 1 "LIST_GET" list_get)
    ∷ ("cli_args", arguments)
    ∷ ("sleep", operands 1 "SLEEP" sleep)
    ∷ ("env", operands 1 "ENV" env)
    ∷ ("optimize_block", optimized_block)
    ∷ ("do", block 1)
    ∷ []

unfoldable pub switch_head : String → Option Construct
unfolding lookup
switch_head head = lookup head constructs
