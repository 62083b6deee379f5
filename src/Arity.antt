-- ===== src/Arity.antt =====
-- internal/construct/arity.go: the argument count of every construct that is checked.
use howlframe.Common.{ℕ, String, Bool, ◌||◌, Option, none, some, List, [], ◌∷◌, ltb, lookup}

-- `Arity`: `upper` is none where the source has a negative maximum.
pub record Arity : Type 0 where
  pub lower : ℕ
  pub upper : Option ℕ

abbrev between : ℕ → ℕ → Arity
between lower upper = record { lower = lower; upper = some upper }

abbrev at_least : ℕ → Arity
at_least lower = record { lower = lower; upper = none }

-- `arities`
abbrev arities : List (String × Arity)
arities =
    ("export", at_least 1)
    ∷ ("module", at_least 1)
    ∷ ("!=", between 2 2)
    ∷ ("*", between 2 2)
    ∷ ("+", between 2 2)
    ∷ ("-", between 2 2)
    ∷ ("/", between 2 2)
    ∷ ("<", between 2 2)
    ∷ ("<=", between 2 2)
    ∷ ("=", between 2 2)
    ∷ ("==", between 2 2)
    ∷ (">", between 2 2)
    ∷ (">=", between 2 2)
    ∷ ("and", at_least 2)
    ∷ ("or", at_least 2)
    ∷ ("achieve", between 2 2)
    ∷ ("all", between 3 3)
    ∷ ("any", between 3 3)
    ∷ ("append", between 2 2)
    ∷ ("assert", between 1 1)
    ∷ ("attr_escape", between 1 1)
    ∷ ("blank", between 1 1)
    ∷ ("bytes_to_string", between 1 1)
    ∷ ("call", at_least 1)
    ∷ ("cli_app", at_least 0)
    ∷ ("cli_args", between 0 1)
    ∷ ("cond", at_least 1)
    ∷ ("confidence", between 1 1)
    ∷ ("count_by", between 3 3)
    ∷ ("db_connect", between 3 3)
    ∷ ("dec", between 1 1)
    ∷ ("defun", at_least 3)
    ∷ ("dict", at_least 0)
    ∷ ("do", at_least 0)
    ∷ ("encode_json", between 1 1)
    ∷ ("ends_with", between 2 2)
    ∷ ("env", between 1 1)
    ∷ ("ephemeral_circuit", at_least 2)
    ∷ ("exec", at_least 1)
    ∷ ("exit", between 1 1)
    ∷ ("fetch", between 2 4)
    ∷ ("filter", between 3 3)
    ∷ ("for", between 3 3)
    ∷ ("html_escape", between 1 1)
    ∷ ("http_body", between 1 1)
    ∷ ("http_request", between 2 3)
    ∷ ("http_res", between 1 1)
    ∷ ("http_server", at_least 1)
    ∷ ("http_status", between 1 1)
    ∷ ("if", at_least 2)
    ∷ ("inc", between 1 1)
    ∷ ("index_of", between 2 2)
    ∷ ("is_nil", between 1 1)
    ∷ ("lazy_synthesize", between 3 3)
    ∷ ("let", between 2 2)
    ∷ ("lines", between 1 1)
    ∷ ("list", at_least 0)
    ∷ ("list_contains", between 2 2)
    ∷ ("list_get", between 2 2)
    ∷ ("list_len", between 1 1)
    ∷ ("list_slice", between 2 3)
    ∷ ("llm_generate", between 1 2)
    ∷ ("map_delete", between 2 2)
    ∷ ("map_get", between 2 2)
    ∷ ("map_has", between 2 2)
    ∷ ("map_keys", between 1 1)
    ∷ ("map_list", between 3 3)
    ∷ ("map_set", between 3 3)
    ∷ ("max", between 1 1)
    ∷ ("min", between 1 1)
    ∷ ("mkdir", between 1 1)
    ∷ ("neural_circuit", at_least 2)
    ∷ ("not", between 1 1)
    ∷ ("nz", between 2 2)
    ∷ ("optimize_block", at_least 3)
    ∷ ("optimize_signature", at_least 1)
    ∷ ("parse_json", between 2 2)
    ∷ ("print", at_least 0)
    ∷ ("read_file", between 1 1)
    ∷ ("read_line", between 0 0)
    ∷ ("rand_hex", between 1 1)
    ∷ ("read_stdin", between 0 0)
    ∷ ("secure_equal", between 2 2)
    ∷ ("sha256_hex", between 1 1)
    ∷ ("read_text", between 1 1)
    ∷ ("reduce", between 5 5)
    ∷ ("regex_match", between 2 2)
    ∷ ("req_header", between 2 2)
    ∷ ("req_id", between 1 1)
    ∷ ("req_body", between 1 1)
    ∷ ("req_url_path", between 1 1)
    ∷ ("utf8_valid", between 1 1)
    ∷ ("granted", between 1 1)
    ∷ ("port_available", between 1 1)
    ∷ ("serialize_requests", between 0 0)
    ∷ ("req_method", between 1 1)
    ∷ ("req_path", between 2 2)
    ∷ ("req_query", between 2 2)
    ∷ ("res", between 3 3)
    ∷ ("res_header", between 2 2)
    ∷ ("res_json", between 2 2)
    ∷ ("return", between 1 1)
    ∷ ("reverse", between 1 1)
    ∷ ("schema_bridge", between 2 2)
    ∷ ("set", between 2 2)
    ∷ ("sget", between 2 2)
    ∷ ("sinc", between 2 2)
    ∷ ("sleep", between 1 1)
    ∷ ("sort", between 1 1)
    ∷ ("spawn", between 1 2)
    ∷ ("spawn_agent", between 2 3)
    ∷ ("sput", between 3 3)
    ∷ ("sql_query", at_least 2)
    ∷ ("starts_with", between 2 2)
    ∷ ("stderr", between 1 1)
    ∷ ("store_delete", between 2 2)
    ∷ ("store_get", between 2 2)
    ∷ ("store_keys", between 1 1)
    ∷ ("store_open", between 2 2)
    ∷ ("store_put", between 3 3)
    ∷ ("str", at_least 1)
    ∷ ("str_contains", between 2 2)
    ∷ ("str_join", between 2 2)
    ∷ ("str_len", between 1 1)
    ∷ ("str_replace", between 3 3)
    ∷ ("str_slice", between 2 3)
    ∷ ("str_split", between 2 2)
    ∷ ("str_trim", between 1 1)
    ∷ ("sum", between 1 1)
    ∷ ("switch", at_least 1)
    ∷ ("task", at_least 1)
    ∷ ("time_now", between 0 0)
    ∷ ("to_float", between 1 1)
    ∷ ("to_int", between 1 1)
    ∷ ("to_lower", between 1 1)
    ∷ ("to_string", between 1 1)
    ∷ ("to_upper", between 1 1)
    ∷ ("try_let", at_least 2)
    ∷ ("unix_now", between 0 0)
    ∷ ("unless", at_least 1)
    ∷ ("ver_ge", between 2 2)
    ∷ ("ver_gt", between 2 2)
    ∷ ("wasm_app", at_least 0)
    ∷ ("web_app", at_least 0)
    ∷ ("when", at_least 1)
    ∷ ("while", between 2 2)
    ∷ ("write_file", between 2 2)
    ∷ ("%", between 2 2)
    ∷ ("sort_by", between 3 3)
    ∷ ("pad_left", between 2 3)
    ∷ ("pad_right", between 2 3)
    ∷ ("str_repeat", between 2 2)
    ∷ ("rtrim", between 1 1)
    ∷ ("ltrim", between 1 1)
    ∷ ("to_base", between 2 2)
    ∷ ("rec", at_least 0)
    ∷ ("get", at_least 2)
    ∷ ("put", at_least 3)
    ∷ ("read_json", between 1 1)
    ∷ ("write_json", between 2 2)
    ∷ ("pluck", between 2 2)
    ∷ ("select", at_least 2)
    ∷ ("grants", at_least 0)
    ∷ ("group_by", between 3 3)
    ∷ ("merge", at_least 1)
    ∷ []

-- `LookupArity`
unfoldable pub lookup_arity : String → Option Arity
unfolding lookup
lookup_arity name = lookup name arities

abbrev above : Option ℕ → ℕ → Bool
above none got = Bool.false
above (some upper) got = ltb upper got

-- The test `got < want.Min || (want.Max >= 0 && got > want.Max)`.
unfoldable pub violates : Arity → ℕ → Bool
violates want got = ltb got want.lower || above want.upper got
