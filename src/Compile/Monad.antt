-- ===== src/Compile/Monad.antt =====
-- The state and the outcomes of the compiler of internal/bytecode/bytecode.go.
use howlframe.Common.{
  ℕ, zero, suc, ◌-◌, String, Bool, Option, none, some, List, [], ◌∷◌, ◌++◌, ℤ, length, get_elem?,
  drop, leb, insert, if◌then◌else◌,
}
use howlframe.Ast.{Node, children, line, column}
use howlframe.Program.{Instruction, Function}
use howlframe.Arity.{Arity}

-- The functions of other packages and of the Go library that the compiler calls: strconv.ParseInt
-- and strconv.ParseFloat (its value as bits), strings.TrimSpace, capability.ParseGrant and
-- httpreq.ParseRoute. `none` is an error; of ParseRoute only the error is used, as `some` message.
pub record Services : Type 0 where
  pub parse_int : String → Option ℤ
  pub parse_float : String → Option ℕ
  pub trim_space : String → String
  pub parse_grant : String → Option String
  pub route_error : String → Option String

-- The reasons that the compiler gives to `ast.ReportError`, with the arguments of their messages.
pub data Reason : Type 0 where
  invalid_integer invalid_float : String → Reason
  wrong_arity : String → ℕ → Arity → Reason
  wrong_shape : String → Reason
  handle_not_symbol : String → Reason
  headers_unsupported : Reason
  grants_misplaced duplicate_grants grants_expected grant_not_string : Reason
  bad_grant : String → Reason
  bad_route : String → Reason
  not_folded : String → ℕ → Reason
  no_lowering : String → Reason

-- `reported` is the end of the process after `ast.ReportError`, at a line and a column. `panicked`
-- is an index out of range in Go. `out_of_fuel` has no counterpart in the program.
pub data Outcome {ℓ} (A : Type ℓ) : Type ℓ where
  done : A → Outcome A
  reported : Reason → ℕ → ℕ → Outcome A
  panicked : Outcome A
  out_of_fuel : Outcome A

-- `BCCompiler.funcs`
abbrev pub Compiled : Type 0
Compiled = List (String × Function)

abbrev pub Compile : Type 0 → Type 0
Compile A = Compiled → Outcome (A × Compiled)

abbrev pub Code : Type 0
Code = List Instruction

abbrev pub then_with :
    {A B : Type 0} → Outcome (A × Compiled) → (A → Compile B) → Outcome (B × Compiled)
then_with (done (a, s)) f = f a s
then_with (reported r l c) f = reported r l c
then_with panicked f = panicked
then_with out_of_fuel f = out_of_fuel

infixl 5 ◌>>=◌ ◌>>◌
unfoldable pub ◌>>=◌ : {A B : Type 0} → Compile A → (A → Compile B) → Compile B
◌>>=◌ m f s = then_with (m s) f

unfoldable pub ◌>>◌ : {A B : Type 0} → Compile A → Compile B → Compile B
unfolding ◌>>=◌
m >> k = m >>= λ _. k

unfoldable pub pure : {A : Type 0} → A → Compile A
pure a s = done (a, s)

-- `ast.ReportError(reason, n.Line, n.Column)`
unfoldable pub report : {A : Type 0} → Reason → Node → Compile A
report r n s = reported r (line n) (column n)

-- A report if the test holds.
unfoldable pub report_if : Bool → Reason → Node → Compile (Unit {0})
unfolding report pure
report_if b r n = if b then report r n else pure tt

unfoldable pub fuel_spent : {A : Type 0} → Compile A
fuel_spent s = out_of_fuel

abbrev pub at_index : {A : Type 0} → Option A → Compile A
at_index none s = panicked
at_index (some a) s = done (a, s)

-- `n.Children[i]`
unfoldable pub child : Node → ℕ → Compile Node
child n i = at_index (get_elem? (children n) i)

-- `n.Children[k:]`
unfoldable pub rest : Node → ℕ → Compile (List Node)
rest n k s = if leb k (length (children n)) then done (drop k (children n), s) else panicked

-- `n.Children[len(n.Children)-1]`
unfoldable pub last_child : Node → Compile Node
unfolding child
last_child n = child n (length (children n) - 1)

-- `c.funcs[name] = fn`
unfoldable pub set_function : String → Function → Compile (Unit {0})
set_function name fn s = done (tt, insert name fn s)

-- How the compiler calls itself on a subtree.
abbrev pub Recur : Type 0
Recur = Node → Compile Code

-- The code of the trees of a list, in order.
unfoldable pub compile_list : Recur → List Node → Compile Code
compile_list rec [] = pure []
compile_list rec (n ∷ ns) = do a ← rec n; b ← compile_list rec ns; pure (a ++ b)

-- `c.compileNode(n.Children[i])`
unfoldable pub compile_at : Recur → Node → ℕ → Compile Code
compile_at rec n i = child n i >>= rec

-- The code of `k` children from the one at `i`.
unfoldable pub compile_range : Recur → Node → ℕ → ℕ → Compile Code
compile_range rec n i zero = pure []
compile_range rec n i (suc k) = do
  a ← compile_at rec n i
  b ← compile_range rec n (suc i) k
  pure (a ++ b)
