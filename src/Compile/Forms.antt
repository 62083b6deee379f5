-- ===== src/Compile/Forms.antt =====
-- Cases of `compileNode` of internal/bytecode/bytecode.go that bind names or lay out control flow.
use howlframe.Common.{
  Bool, Option, ◌&&◌, not, ◌-◌, String, ltb, ◌==◌, ℕ, pos, false, true, ◌∷◌, [], none, some, List,
  ◌++◌, length, get_elem?, if◌then◌else◌,
}
use howlframe.Opcode.{store_var, call, return as return_op, make_dict, map_get}
use howlframe.Program.{Value, instruction}
use howlframe.Ast.{Node, type, value, children, is_symbol, param_names}
use howlframe.Compile.Monad.{
  wrong_shape, not_folded, Compile, Code, Recur, ◌>>=◌, ◌>>◌, pure, report_if, rest, child,
  set_function, compile_list, compile_at, compile_range,
}
use howlframe.Compile.Emit.{
  load, with_int, with_string, emit_if, emit_while, emit_for, emit_try, short_circuit,
}

abbrev symbol_at : Option Node → Bool
symbol_at none = false
symbol_at (some c) = is_symbol (type c)

-- The body of a defun starts after an optional return type.
abbrev body_start : Node → ℕ
body_start n = if ltb 4 (length (children n)) && symbol_at (get_elem? (children n) 3) then 4 else 3

unfoldable pub compile_defun : Recur → Node → Compile Code
unfolding ◌>>◌
compile_defun rec n = do
  name ← child n 1
  params ← child n 2
  forms ← rest n (body_start n)
  body ← compile_list rec forms
  set_function (value name) (record {
    params = param_names params;
    instructions = body;
    lazy_synthesize = false;
    docstring = "";
    name = value name;
  })
  pure []

unfoldable pub compile_lazy : Node → Compile Code
unfolding ◌>>◌
compile_lazy n = do
  name ← child n 1
  params ← child n 2
  docstring ← child n 3
  set_function (value name) (record {
    params = param_names params;
    instructions = [];
    lazy_synthesize = true;
    docstring = value docstring;
    name = value name;
  })
  pure []

-- (try_let (name value) (catch error handler) body)
unfoldable pub compile_try : Recur → Node → Compile Code
compile_try rec n = do
  binding ← child n 1
  name ← child binding 0
  value_code ← compile_at rec binding 1
  handler ← child n 2
  error ← child handler 1
  catch ← compile_at rec handler 2
  success ← compile_at rec n 3
  pure (emit_try (value name) (value error) value_code catch success)

-- (let (name value) body)
unfoldable pub compile_let : Recur → Node → Compile Code
compile_let rec n = do
  binding ← child n 1
  name ← child binding 0
  bound ← compile_at rec binding 1
  body ← compile_at rec n 2
  pure (bound ++ with_string "STORE_VAR" store_var (value name) ∷ body)

-- (if test then [else])
unfoldable pub compile_if : Recur → Node → Compile Code
compile_if rec n = do
  test ← compile_at rec n 1
  consequent ← compile_at rec n 2
  alternative ← if length (children n) == 4 then compile_at rec n 3 else pure []
  pure (emit_if test consequent alternative)

-- (while test body)
unfoldable pub compile_while : Recur → Node → Compile Code
compile_while rec n = do
  test ← compile_at rec n 1
  body ← compile_at rec n 2
  pure (emit_while test body)

-- (for item list body)
unfoldable pub compile_for : Recur → Node → Compile Code
compile_for rec n = do
  item ← child n 1
  items ← compile_at rec n 2
  body ← compile_at rec n 3
  pure (emit_for (value item) items body)

-- (return [value])
unfoldable pub compile_return : Recur → Node → Compile Code
compile_return rec n = do
  code ← if ltb 1 (length (children n)) then compile_at rec n 1 else pure (load Value.nil ∷ [])
  pure (code ++ instruction "RETURN" return_op ∷ [])

-- (and l r), (or l r)
unfoldable pub compile_logical : Recur → String → Node → Compile Code
unfolding ◌>>◌
compile_logical rec head n = do
  report_if (not (length (children n) == 3)) (not_folded head (length (children n) - 1)) n
  left ← compile_at rec n 1
  right ← compile_at rec n 2
  pure (short_circuit head left right)

-- (call name args...)
unfoldable pub compile_call : Recur → Node → Compile Code
compile_call rec n = do
  name ← child n 1
  args ← rest n 2
  code ← compile_list rec args
  pure (
      code
      ++ record (with_string "CALL" call (value name)) {
        int_operand = pos (length (children n) - 2);
      }
        ∷ [])

-- The pairs of a dict; a child that is no pair is passed over.
abbrev compile_pair : Recur → Node → Compile Code
compile_pair rec pair = if length (children pair) == 2 then compile_range rec pair 0 2 else pure []

unfoldable pub compile_pairs : Recur → List Node → Compile Code
compile_pairs rec [] = pure []
compile_pairs rec (pair ∷ pairs) = do
  a ← compile_pair rec pair
  b ← compile_pairs rec pairs
  pure (a ++ b)

-- (dict (key value)...)
unfoldable pub compile_dict : Recur → Node → Compile Code
unfolding compile_pairs
compile_dict rec n = do
  pairs ← rest n 1
  code ← compile_pairs rec pairs
  pure (code ++ with_int "MAKE_DICT" make_dict (pos (length (children n) - 1)) ∷ [])

-- A symbol is the variable operand of MAP_GET; any other dict is evaluated onto the stack.
abbrev compile_dict_operand : Recur → Node → Compile (String × Code)
compile_dict_operand rec dict =
    if is_symbol (type dict) then pure (value dict, []) else (rec dict >>= λ code. pure ("", code))

-- (map_get dict key)
unfoldable pub compile_map_get : Recur → Node → Compile Code
unfolding ◌>>◌
compile_map_get rec n = do
  report_if (not (length (children n) == 3)) (wrong_shape "map_get") n
  dict ← child n 1
  operand ← compile_dict_operand rec dict
  key ← compile_at rec n 2
  pure (operand.1 ++ (key ++ with_string "MAP_GET" map_get operand.0 ∷ []))
