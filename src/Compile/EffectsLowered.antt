-- ===== src/Compile/EffectsLowered.antt =====
-- The cases of Compile/Effects, Compile/Children and Compile/Server produce code of the compiled
-- shape.
use howlframe.Common.{
  arith, ◌≡◌, ◌==◌, ◌-◌, String, if◌then◌else◌, length, pos, refl, true, [], ◌<◌, ◌≤◌, ℕ,
}
use howlframe.Opcode.{
  Opcode, spec_of, cli_args, cli_args_get, exec, parse_json, fetch, http_request, db_connect,
  sql_query, store_open, achieve, task, llm_generate, convert, map_get,
}
use howlframe.Program.{Value, instruction}
use howlframe.Ast.{Node, children, depth, value, type, is_string, stringify}
use howlframe.Compile.Monad.{child, compile_at, Recur, Code}
use howlframe.Compile.Emit.{load, with_int, with_string, fetch_with_body}
use howlframe.Compile.Lowered.{Lowered, empty, join, plain, Lowered-snoc, Lowered-cons, is_plain}
use howlframe.Compile.Ensures.{
  Ensures, Ensures-pure, Ensures-bind, Ensures-then, Ensures-if, Ensures-report_if, Ensures-child,
  Ensures-rest, Lowers, AllBelow-children, Ensures-compile_list, Ensures-compile_at,
}
use howlframe.Compile.Effects.{
  model_name, compile_arguments, compile_exec, compile_parse_json, compile_fetch, compile_request,
  compile_db_connect, compile_sql, compile_store_open, compile_achieve, compile_circuit,
  compile_generate, compile_task,
}

Lowered-fetch_with_body : {body : Code} → Lowered body → Lowered (fetch_with_body body)
unfolding fetch_with_body is_plain spec_of
Lowered-fetch_with_body h = join h (
    Lowered-cons (with_string "CONVERT" convert "to_string") (refl, refl)
      (Lowered-cons (with_int "HTTP_REQUEST" http_request (pos 1)) (refl, refl)
        (Lowered-cons (load (Value.string "body")) (refl, refl)
          (plain (instruction "MAP_GET" map_get) (refl, refl)))))

module _ (d : ℕ) (rec : Recur) (ih : Lowers d rec) (n : Node) (h : depth n ≤ d) where
  operand : (i : ℕ) → Ensures Lowered (compile_at rec n i)
  operand i = Ensures-compile_at d rec ih n i h

  field : (i : ℕ) → Ensures (λ c. depth c < d) (child n i)
  field i = Ensures-child d n i h

  pub Ensures-compile_arguments : Ensures Lowered (compile_arguments rec n)
  unfolding compile_arguments is_plain spec_of
  Ensures-compile_arguments =
      Ensures-if _
        (Ensures-bind (operand 1) λ code hc.
          Ensures-pure _ (Lowered-snoc (instruction "CLI_ARGS_GET" cli_args_get) hc (refl, refl)))
        (Ensures-pure _ (plain (instruction "CLI_ARGS" cli_args) (refl, refl)))

  pub Ensures-compile_exec : Ensures Lowered (compile_exec rec n)
  unfolding compile_exec is_plain spec_of
  Ensures-compile_exec = Ensures-bind (operand 1) λ p hp.
      Ensures-bind (Ensures-rest d n 2 h) λ args ha.
        Ensures-bind (Ensures-compile_list d rec ih args ha) λ code hc. Ensures-pure _ (
          join hp
            (Lowered-snoc (with_int "EXEC" exec (pos (length (children n) - 2))) hc (refl, refl)))

  pub Ensures-compile_parse_json : Ensures Lowered (compile_parse_json n)
  unfolding compile_parse_json is_plain spec_of
  Ensures-compile_parse_json = Ensures-bind (field 2) λ body _.
      Ensures-pure _ (plain (with_string "PARSE_JSON" parse_json (value body)) (refl, refl))

  pub Ensures-compile_fetch : Ensures Lowered (compile_fetch rec n)
  unfolding compile_fetch is_plain spec_of
  Ensures-compile_fetch = Ensures-then (Ensures-report_if _ _ n) (
      Ensures-bind (operand 1) λ url hu. Ensures-bind (operand 2) λ method hm.
        Ensures-bind
          (Ensures-if _
            (Ensures-bind (operand 3) λ body hb. Ensures-pure _ (Lowered-fetch_with_body hb))
            (Ensures-pure _ (plain (instruction "FETCH" fetch) (refl, refl))))
          λ tail ht. Ensures-pure _ (join hu (join hm ht)))

  pub Ensures-compile_request : Ensures Lowered (compile_request rec n)
  unfolding compile_request is_plain spec_of
  Ensures-compile_request = Ensures-then (Ensures-report_if _ _ n) (
      Ensures-bind (operand 1) λ url hu. Ensures-bind (operand 2) λ method hm.
        Ensures-bind (Ensures-if _ (operand 3) (Ensures-pure [] empty)) λ body hb. Ensures-pure _ (
          join hu (
            join hm (
              Lowered-snoc
                (with_int "HTTP_REQUEST" http_request
                  (pos (if length (children n) == 4 then 1 else 0)))
                hb (refl, refl)))))

  pub Ensures-compile_db_connect : Ensures Lowered (compile_db_connect n)
  unfolding compile_db_connect is_plain spec_of
  Ensures-compile_db_connect = Ensures-bind (field 1) λ name _. Ensures-bind (field 2) λ driver _.
      Ensures-bind (field 3) λ dsn _. Ensures-pure _ (
        plain
          (record (with_string "DB_CONNECT" db_connect (value name)) {
            string_operand2 = value driver;
            string_operand3 = value dsn;
          })
          (refl, refl))

  pub Ensures-compile_sql : Ensures Lowered (compile_sql n)
  unfolding compile_sql is_plain spec_of
  Ensures-compile_sql = Ensures-bind (field 1) λ db _. Ensures-bind (field 2) λ query _.
      Ensures-pure _ (
        plain
          (record (with_string "SQL_QUERY" sql_query (value db)) { string_operand2 = value query })
          (refl, refl))

  pub Ensures-compile_store_open : Ensures Lowered (compile_store_open rec n)
  unfolding compile_store_open is_plain spec_of
  Ensures-compile_store_open = Ensures-then (Ensures-report_if _ _ n) (
      Ensures-bind (field 1) λ handle _. Ensures-bind (field 2) λ uri hu.
        Ensures-then (Ensures-report_if _ _ handle) (
          Ensures-bind (ih uri hu) λ code hc. Ensures-pure _ (
            Lowered-snoc
              (record (with_string "STORE_OPEN" store_open (value handle)) {
                string_operand2 = if is_string (type uri) then value uri else "";
              })
              hc (refl, refl))))

  pub Ensures-compile_achieve : Ensures Lowered (compile_achieve n)
  unfolding compile_achieve is_plain spec_of
  Ensures-compile_achieve = Ensures-then (Ensures-report_if _ _ n) (
      Ensures-bind (field 1) λ target _. Ensures-bind (field 2) λ bound _. Ensures-pure _ (
        Lowered-cons (load (Value.string (stringify target))) (refl, refl)
          (Lowered-cons (load (Value.string (stringify bound))) (refl, refl)
            (plain (instruction "ACHIEVE" achieve) (refl, refl)))))

  pub Ensures-compile_circuit :
      (name : String) (op : Opcode) (head : String)
      → is_plain op ≡ true
      → name ≡ (spec_of op).name
      → Ensures Lowered (compile_circuit rec name op head n)
  unfolding compile_circuit
  Ensures-compile_circuit name op head p e = Ensures-then (Ensures-report_if _ _ n) (
      Ensures-bind (field 1) λ inputs hi. Ensures-bind (operand 2) λ code hc.
        Ensures-bind
          (Ensures-compile_list d rec ih (children inputs)
            (AllBelow-children d inputs (omega arith)))
          λ args ha.
            Ensures-pure _ (
              join hc (Lowered-snoc (with_int name op (pos (length (children inputs)))) ha (p, e))))

  pub Ensures-compile_generate : Ensures Lowered (compile_generate rec n)
  unfolding compile_generate is_plain spec_of
  Ensures-compile_generate = Ensures-bind (operand 1) λ prompt hp.
      Ensures-pure _
        (Lowered-snoc (with_string "LLM_GENERATE" llm_generate (model_name n)) hp (refl, refl))

  pub Ensures-compile_task : Ensures Lowered (compile_task n)
  unfolding compile_task is_plain spec_of
  Ensures-compile_task = Ensures-bind (field 1) λ description _.
      Ensures-pure _ (plain (with_string "TASK" task (value description)) (refl, refl))
