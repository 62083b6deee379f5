-- ===== src/Opcode.antt =====
-- internal/bytecode/opcode.go: the instruction set and its registry.
pub mod Names
mod Tests
use howlframe.Common.{
  ℕ, String, Bool, true, false, Option, none, some, List, [], ◌∷◌, str_eq, if◌then◌else◌,
}
use howlframe.Capability.{
  Capability, no_capability, network, filesystem, process, environment, database,
}

-- `Opcode` is a uint16: the constants in their order, and `numbered` for any value past them.
pub data Opcode : Type 0 where
  unknown load_const load_var store_var set_var try_let db_connect sql_query fetch : Opcode
  read_file write_file mkdir exec parse_json spawn res res_json http_server_start : Opcode
  http_route http_server_serve http_req_method http_res_header confidence llm_generate : Opcode
  jump_if_false jump for_init for_next return print call binop convert str_split str_join : Opcode
  regex_match make_list make_dict append map_set map_delete map_get list_get cli_args : Opcode
  cli_args_get sleep env spawn_agent task achieve neural_circuit ephemeral_circuit : Opcode
  store_open store_put store_get store_delete read_line stderr exit list_len is_nil : Opcode
  time_now encode_json store_keys map_keys http_req_query http_req_header http_req_path : Opcode
  html_escape attr_escape http_request read_stdin sha256_hex rand_hex secure_equal : Opcode
  http_req_id http_req_body http_req_url_path utf8_valid granted port_available : Opcode
  numbered : ℕ → Opcode

-- `OperandType`
pub data OperandType : Type 0 where
  string int64 any_value : OperandType

-- `OpcodeSpec` less its code, which is the key, and its description. `pops` is none where the
-- source has -1: the count is an operand.
pub record OpcodeSpec : Type 0 where
  pub name : String
  pub operands : List OperandType
  pub pops : Option ℕ
  pub pushes : ℕ
  pub capability : Capability

abbrev spec : String → List OperandType → Option ℕ → ℕ → Capability → OpcodeSpec
spec name operands pops pushes capability = record {
  name = name;
  operands = operands;
  pops = pops;
  pushes = pushes;
  capability = capability;
}

-- `Registry`
unfoldable pub registry : Opcode → Option OpcodeSpec
registry unknown = none
registry load_const = some (spec "LOAD_CONST" (any_value ∷ []) (some 0) 1 no_capability)
registry load_var = some (spec "LOAD_VAR" (string ∷ []) (some 0) 1 no_capability)
registry store_var = some (spec "STORE_VAR" (string ∷ []) (some 1) 0 no_capability)
registry set_var = some (spec "SET_VAR" (string ∷ []) (some 1) 0 no_capability)
registry try_let = some (spec "TRY_LET" (string ∷ string ∷ int64 ∷ []) (some 0) 0 no_capability)
registry db_connect = some (spec "DB_CONNECT" (string ∷ string ∷ string ∷ []) (some 0) 0 database)
registry sql_query = some (spec "SQL_QUERY" (string ∷ string ∷ []) (some 0) 1 database)
registry fetch = some (spec "FETCH" [] (some 2) 1 network)
registry read_file = some (spec "READ_FILE" [] (some 1) 1 filesystem)
registry write_file = some (spec "WRITE_FILE" [] (some 2) 0 filesystem)
registry mkdir = some (spec "MKDIR" [] (some 1) 0 filesystem)
registry exec = some (spec "EXEC" (int64 ∷ []) none 1 process)
registry parse_json = some (spec "PARSE_JSON" (string ∷ []) (some 0) 1 no_capability)
registry spawn = some (spec "SPAWN" (int64 ∷ []) (some 0) 0 process)
registry res = some (spec "RES" [] (some 2) 0 no_capability)
registry res_json = some (spec "RES_JSON" [] (some 2) 0 no_capability)
registry http_server_start = some (spec "HTTP_SERVER_START" (string ∷ []) (some 0) 0 network)
registry http_route = some (spec "HTTP_ROUTE" (string ∷ string ∷ int64 ∷ []) (some 0) 0 network)
registry http_server_serve = some (spec "HTTP_SERVER_SERVE" [] (some 0) 0 network)
registry http_req_method = some (spec "HTTP_REQ_METHOD" [] (some 0) 1 no_capability)
registry http_res_header = some (spec "HTTP_RES_HEADER" [] (some 2) 0 no_capability)
registry confidence = some (spec "CONFIDENCE" [] (some 1) 1 network)
registry llm_generate = some (spec "LLM_GENERATE" (string ∷ []) (some 1) 1 network)
registry jump_if_false = some (spec "JUMP_IF_FALSE" (int64 ∷ []) (some 1) 0 no_capability)
registry jump = some (spec "JUMP" (int64 ∷ []) (some 0) 0 no_capability)
registry for_init = some (spec "FOR_INIT" [] (some 1) 1 no_capability)
registry for_next = some (spec "FOR_NEXT" (string ∷ int64 ∷ []) (some 0) 0 no_capability)
registry return = some (spec "RETURN" [] (some 1) 0 no_capability)
registry print = some (spec "PRINT" (int64 ∷ []) none 0 no_capability)
registry call = some (spec "CALL" (string ∷ int64 ∷ []) none 1 no_capability)
registry binop = some (spec "BINOP" (string ∷ []) (some 2) 1 no_capability)
registry convert = some (spec "CONVERT" (string ∷ []) (some 1) 1 no_capability)
registry str_split = some (spec "STR_SPLIT" [] (some 2) 1 no_capability)
registry str_join = some (spec "STR_JOIN" [] (some 2) 1 no_capability)
registry regex_match = some (spec "REGEX_MATCH" [] (some 2) 1 no_capability)
registry make_list = some (spec "MAKE_LIST" (int64 ∷ []) none 1 no_capability)
registry make_dict = some (spec "MAKE_DICT" (int64 ∷ []) none 1 no_capability)
registry append = some (spec "APPEND" (string ∷ []) (some 1) 0 no_capability)
registry map_set = some (spec "MAP_SET" (string ∷ []) (some 2) 0 no_capability)
registry map_delete = some (spec "MAP_DELETE" (string ∷ []) (some 1) 0 no_capability)
registry map_get = some (spec "MAP_GET" (string ∷ []) (some 1) 1 no_capability)
registry list_get = some (spec "LIST_GET" (string ∷ []) (some 1) 1 no_capability)
registry cli_args = some (spec "CLI_ARGS" [] (some 0) 1 no_capability)
registry cli_args_get = some (spec "CLI_ARGS_GET" [] (some 1) 1 no_capability)
registry sleep = some (spec "SLEEP" [] (some 1) 0 no_capability)
registry env = some (spec "ENV" [] (some 1) 1 environment)
registry spawn_agent = some (spec "SPAWN_AGENT" (string ∷ int64 ∷ []) (some 1) 0 process)
registry task = some (spec "TASK" (string ∷ []) (some 0) 1 no_capability)
registry achieve = some (spec "ACHIEVE" [] (some 2) 1 network)
registry neural_circuit = some (spec "NEURAL_CIRCUIT" (int64 ∷ []) none 1 network)
registry ephemeral_circuit = some (spec "EPHEMERAL_CIRCUIT" (int64 ∷ []) none 1 network)
registry store_open = some (spec "STORE_OPEN" (string ∷ string ∷ []) (some 1) 0 database)
registry store_put = some (spec "STORE_PUT" (string ∷ []) (some 2) 0 database)
registry store_get = some (spec "STORE_GET" (string ∷ []) (some 1) 1 database)
registry store_delete = some (spec "STORE_DELETE" (string ∷ []) (some 1) 0 database)
registry read_line = some (spec "READ_LINE" [] (some 0) 1 no_capability)
registry stderr = some (spec "STDERR" [] (some 1) 0 no_capability)
registry exit = some (spec "EXIT" [] (some 1) 0 no_capability)
registry list_len = some (spec "LIST_LEN" [] (some 1) 1 no_capability)
registry is_nil = some (spec "IS_NIL" [] (some 1) 1 no_capability)
registry time_now = some (spec "TIME_NOW" [] (some 0) 1 no_capability)
registry encode_json = some (spec "ENCODE_JSON" [] (some 1) 1 no_capability)
registry store_keys = some (spec "STORE_KEYS" (string ∷ []) (some 0) 1 database)
registry map_keys = some (spec "MAP_KEYS" [] (some 1) 1 no_capability)
registry http_req_query = some (spec "HTTP_REQ_QUERY" [] (some 2) 1 no_capability)
registry http_req_header = some (spec "HTTP_REQ_HEADER" [] (some 2) 1 no_capability)
registry http_req_path = some (spec "HTTP_REQ_PATH" [] (some 2) 1 no_capability)
registry html_escape = some (spec "HTML_ESCAPE" [] (some 1) 1 no_capability)
registry attr_escape = some (spec "ATTR_ESCAPE" [] (some 1) 1 no_capability)
registry http_request = some (spec "HTTP_REQUEST" (int64 ∷ []) none 1 network)
registry read_stdin = some (spec "READ_STDIN" [] (some 0) 1 no_capability)
registry sha256_hex = some (spec "SHA256_HEX" [] (some 1) 1 no_capability)
registry rand_hex = some (spec "RAND_HEX" [] (some 1) 1 no_capability)
registry secure_equal = some (spec "SECURE_EQUAL" [] (some 2) 1 no_capability)
registry http_req_id = some (spec "HTTP_REQ_ID" [] (some 1) 1 no_capability)
registry http_req_body = some (spec "HTTP_REQ_BODY" [] (some 1) 1 no_capability)
registry http_req_url_path = some (spec "HTTP_REQ_URL_PATH" [] (some 1) 1 no_capability)
registry utf8_valid = some (spec "UTF8_VALID" [] (some 1) 1 no_capability)
registry granted = some (spec "GRANTED" [] (some 1) 1 no_capability)
registry port_available = some (spec "PORT_AVAILABLE" [] (some 1) 1 network)
registry (numbered n) = none

-- The keys of the registry.
abbrev pub registered : List Opcode
registered =
    load_const ∷ load_var ∷ store_var ∷ set_var ∷ try_let ∷ db_connect ∷ sql_query ∷ fetch
    ∷ read_file ∷ write_file ∷ mkdir ∷ exec ∷ parse_json ∷ spawn ∷ res ∷ res_json
    ∷ http_server_start ∷ http_route ∷ http_server_serve ∷ http_req_method ∷ http_res_header
    ∷ confidence ∷ llm_generate ∷ jump_if_false ∷ jump ∷ for_init ∷ for_next ∷ return ∷ print ∷ call
    ∷ binop ∷ convert ∷ str_split ∷ str_join ∷ regex_match ∷ make_list ∷ make_dict ∷ append
    ∷ map_set ∷ map_delete ∷ map_get ∷ list_get ∷ cli_args ∷ cli_args_get ∷ sleep ∷ env
    ∷ spawn_agent ∷ task ∷ achieve ∷ neural_circuit ∷ ephemeral_circuit ∷ store_open ∷ store_put
    ∷ store_get ∷ store_delete ∷ read_line ∷ stderr ∷ exit ∷ list_len ∷ is_nil ∷ time_now
    ∷ encode_json ∷ store_keys ∷ map_keys ∷ http_req_query ∷ http_req_header ∷ http_req_path
    ∷ html_escape ∷ attr_escape ∷ http_request ∷ read_stdin ∷ sha256_hex ∷ rand_hex ∷ secure_equal
    ∷ http_req_id ∷ http_req_body ∷ http_req_url_path ∷ utf8_valid ∷ granted ∷ port_available ∷ []

abbrev has_name : String → Option OpcodeSpec → Bool
has_name name none = false
has_name name (some s) = str_eq s.name name

-- The loop of `NameToOpcode` over the entries of the registry.
unfoldable pub find_name : String → List Opcode → Option Opcode
unfolding registry
find_name name [] = none
find_name name (op ∷ ops) = if has_name name (registry op) then some op else find_name name ops

-- `NameToOpcode`
unfoldable pub name_to_opcode : String → Option Opcode
unfolding find_name
name_to_opcode name = find_name name registered

-- `_, ok := Registry[op]`
unfoldable pub is_registered : Opcode → Bool
unfolding registry
is_registered op = elim (registry op) [ none ↦ false | some s ↦ true ]

-- `Registry[op]`, the zero value where there is no entry.
unfoldable pub spec_of : Opcode → OpcodeSpec
unfolding registry
spec_of op = elim (registry op) [ none ↦ spec "" [] (some 0) 0 no_capability | some s ↦ s ]

-- `op == 0`
unfoldable pub is_zero : Opcode → Bool
is_zero unknown = true
is_zero _ = false
