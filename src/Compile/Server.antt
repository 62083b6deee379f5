-- ===== src/Compile/Server.antt =====
-- The case "http_server" of `compileNode` in internal/bytecode/bytecode.go.
use howlframe.Opcode.{http_server_start, http_server_serve, http_route}
use howlframe.Program.{instruction}
use howlframe.Ast.{Node, type, value, children, is_form, is_int}
use howlframe.Compile.Monad.{
  Services, Compile, Code, Recur, ◌>>=◌, ◌>>◌, pure, report, report_if, rest, child, last_child,
  duplicate_grants, bad_route,
}
use howlframe.Compile.Emit.{with_int, with_string, emit_body}
use howlframe.Compile.Grants.{compile_spawn_grants}
use howlframe.Common.{
  none, some, str_eq, ◌+◌, ◌==◌, [], not, pos, ◌||◌, length, ◌∷◌, if◌then◌else◌, false, ◌&&◌, ◌++◌,
  String, Option, ℕ, List, Bool,
}

-- (serialize_requests)
unfoldable pub is_serialize_option : Node → Bool
is_serialize_option n = is_form "serialize_requests" n && length (children n) == 1

unfoldable pub any_serialize_option : List Node → Bool
any_serialize_option [] = false
any_serialize_option (n ∷ ns) = is_serialize_option n || any_serialize_option ns

-- Bit 2 of the operand of HTTP_SERVER_START.
abbrev pub start_flags : List Node → ℕ
start_flags ns = if any_serialize_option ns then 2 else 0

-- A port literal is an operand; any other port is on the stack, which bit 1 says.
unfoldable pub compile_start : Recur → Node → ℕ → Compile Code
unfolding ◌>>=◌ pure
compile_start rec port flags =
    if is_int (type port)
    then pure (
        record (with_int "HTTP_SERVER_START" http_server_start (pos flags)) {
          string_operand = value port;
        }
        ∷ [])
    else (do
      code ← rec port
      pure (code ++ with_int "HTTP_SERVER_START" http_server_start (pos (flags + 1)) ∷ []))

abbrev pub route_checked : Option String → Node → Compile (Unit {0})
route_checked none path = pure tt
route_checked (some message) path = report (bad_route message) path

module _ (services : Services) where
  -- The grants directly under the server, at most one list; an empty list counts as one.
  unfoldable pub server_grants : String → List Node → Compile String
  server_grants found [] = pure found
  server_grants found (n ∷ ns) =
      if is_form "grants" n
      then (do
        report_if (not (str_eq found "")) duplicate_grants n
        grants ← compile_spawn_grants services n
        server_grants (if str_eq grants "" then "\n" else grants) ns)
      else server_grants found ns

  abbrev pub route_grants : String → Node → Compile String
  route_grants found route =
      if length (children route) == 4
      then (child route 2 >>= compile_spawn_grants services)
      else pure (services.trim_space found)

  -- (route path [grants] (lambda (req) body))
  unfoldable pub compile_route : Recur → String → Node → Compile Code
  unfolding ◌>>◌ pure
  compile_route rec found route = do
    path ← child route 1
    route_checked (services.route_error (value path)) path
    handler ← last_child route
    grants ← route_grants found route
    params ← child handler 1
    req ← child params 0
    body_tree ← child handler 2
    body ← rec body_tree
    pure (
        emit_body
          (record (with_string "HTTP_ROUTE" http_route (value path)) {
            string_operand2 = value req;
            string_operand3 = grants;
          })
          body)

  abbrev pub compile_server_child : Recur → String → Node → Compile Code
  compile_server_child rec found n =
      if is_form "grants" n || is_serialize_option n
      then pure []
      else if is_form "route" n
      then compile_route rec found n
      else rec n

  unfoldable pub compile_server_children : Recur → String → List Node → Compile Code
  unfolding compile_route
  compile_server_children rec found [] = pure []
  compile_server_children rec found (n ∷ ns) = do
    a ← compile_server_child rec found n
    b ← compile_server_children rec found ns
    pure (a ++ b)

  unfoldable pub compile_server : Recur → Node → Compile Code
  unfolding compile_server_children server_grants compile_start any_serialize_option
  compile_server rec n = do
    port ← child n 1
    forms ← rest n 2
    start ← compile_start rec port (start_flags forms)
    found ← server_grants "" forms
    routes ← compile_server_children rec found forms
    pure (start ++ (routes ++ instruction "HTTP_SERVER_SERVE" http_server_serve ∷ []))
