-- ===== src/Ast.antt =====
-- internal/ast/ast.go: the syntax tree that every pass of the compiler reads.
use howlframe.Common.{
  str_append, ℕ, zero, suc, ◌≤◌, ◌<◌, max, String, ◌≡◌, Bool, true, false, ◌&&◌, some, List, [],
  ◌∷◌, map, arith, get_elem?, str_eq, if◌then◌else◌,
}

-- The values of `Node.Type`.
pub data NodeType : Type 0 where
  list symbol int float string : NodeType

-- `Node`: its type, value, children, line, column and file name. `Nodes` is `[]*Node`.
mutual
  pub data Node : Type 0 where
    node : NodeType → String → Nodes → ℕ → ℕ → String → Node

  pub data Nodes : Type 0 where
    nil : Nodes
    cons : Node → Nodes → Nodes

abbrev pub to_list : Nodes → List Node
to_list nil = []
to_list (cons n ns) = n ∷ to_list ns

abbrev pub of_list : List Node → Nodes
of_list [] = nil
of_list (n ∷ ns) = cons n (of_list ns)

abbrev pub type : Node → NodeType
type (node t v cs l c f) = t

abbrev pub value : Node → String
value (node t v cs l c f) = v

abbrev pub children : Node → List Node
children (node t v cs l c f) = to_list cs

abbrev pub line : Node → ℕ
line (node t v cs l c f) = l

abbrev pub column : Node → ℕ
column (node t v cs l c f) = c

-- The depth of a tree, which bounds every recursion over it.
unfoldable mutual
  pub depth : Node → ℕ
  depth (node t v cs l c f) = suc (depth_all cs)

  pub depth_all : Nodes → ℕ
  depth_all nil = 0
  depth_all (cons n ns) = max (depth n) (depth_all ns)

-- A child is less deep than its parent.
get_elem?-depth_all :
    (ns : Nodes) (i : ℕ) (n : Node) → get_elem? (to_list ns) i ≡ some n → depth n ≤ depth_all ns
unfolding depth_all
get_elem?-depth_all nil i n h = cc
get_elem?-depth_all (cons m ns) zero n h = let same : m ≡ n = cc h in rw (← same) (omega arith)
get_elem?-depth_all (cons m ns) (suc i) n h = omega (arith, get_elem?-depth_all ns i n h)

pub get_elem?-depth :
    (parent : Node) (i : ℕ) (n : Node)
    → get_elem? (children parent) i ≡ some n
    → depth n < depth parent
unfolding depth
get_elem?-depth (node t v cs l c f) i n h = omega (arith, get_elem?-depth_all cs i n h)

unfoldable pub is_list : NodeType → Bool
is_list list = true
is_list _ = false

unfoldable pub is_symbol : NodeType → Bool
is_symbol symbol = true
is_symbol _ = false

unfoldable pub is_string : NodeType → Bool
is_string string = true
is_string _ = false

unfoldable pub is_int : NodeType → Bool
is_int int = true
is_int _ = false

-- `n.Children[0].Value`, for a tree that has a child.
abbrev first_value : Nodes → String
first_value nil = ""
first_value (cons n ns) = value n

-- `n.Type == "List" && len(n.Children) > 0 && n.Children[0].Value == name`
unfoldable pub is_form : String → Node → Bool
unfolding is_list
is_form name (node t v nil l c f) = false
is_form name (node t v (cons n ns) l c f) = is_list t && str_eq (value n) name

-- `ParamNames`: a bare symbol or the first child of a (name type) pair.
param_name : Node → String
unfolding is_list
param_name (node t v nil l c f) = v
param_name (node t v (cons n ns) l c f) = if is_list t then value n else v

unfoldable pub param_names : Node → List String
unfolding param_name
param_names n = map param_name (children n)

-- `Stringify`
unfoldable mutual
  pub stringify : Node → String
  stringify (node list v cs l c f) = str_append "(" (str_append (stringify_all cs) ")")
  stringify (node string v cs l c f) = str_append "\"" (str_append v "\"")
  stringify (node _ v cs l c f) = v

  -- The parts of a list, joined by spaces.
  pub stringify_all : Nodes → String
  stringify_all nil = ""
  stringify_all (cons n nil) = stringify n
  stringify_all (cons n (cons m ns)) =
      str_append (stringify n) (str_append " " (stringify_all (cons m ns)))
