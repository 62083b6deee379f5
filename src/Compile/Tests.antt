-- ===== src/Compile/Tests.antt =====
-- Compiled programs, and the properties of the compiler at concrete inputs.
use howlframe.Common.{str_eq, String, if◌then◌else◌, pos, ◌∷◌, [], none, some, List}
use howlframe.Ast.{Node, NodeType, Nodes, node, of_list}
use howlframe.Compile.Monad.{Services, Outcome}
use howlframe.Compile.Switch.{compile_program}
use howlframe.Program.{Program}
use howlframe.Compile.Link.{compile_program-IsLinkable, IsLinkable}

abbrev services : Services
services = record {
  parse_int = λ s. if str_eq s "1" then some (pos 1) else none;
  parse_float = λ s. none;
  trim_space = λ s. s;
  parse_grant = λ s. if str_eq s "network" then some s else none;
  route_error = λ s. none;
}

abbrev sym : String → Node
sym s = node NodeType.symbol s Nodes.nil 1 1 ""

abbrev form : List Node → Node
form ns = node NodeType.list "" (of_list ns) 1 1 ""

abbrev one : Node
one = node NodeType.int "1" Nodes.nil 1 1 ""

-- (cli_app (if (< x 1) (print x) (set x 1)))
abbrev sample : Node
sample = form (
    sym "cli_app"
    ∷ form (
        sym "if"
        ∷ form (sym "<" ∷ sym "x" ∷ one ∷ [])
        ∷ form (sym "print" ∷ sym "x" ∷ [])
        ∷ form (sym "set" ∷ sym "x" ∷ one ∷ [])
        ∷ [])
    ∷ [])

compiled : Outcome Program
compiled = compile_program services sample

compile_program-IsLinkable_example : IsLinkable (compile_program services sample)
compile_program-IsLinkable_example = compile_program-IsLinkable services sample
