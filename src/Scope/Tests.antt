-- ===== src/Scope/Tests.antt =====
-- The scoping pass at concrete trees.
use howlframe.Common.{lookup, String, List, [], ◌∷◌, ◌≡◌, refl, some}
use howlframe.Ast.{Node, NodeType, node, nil, of_list}
use howlframe.Scope.{scoping_form, bind, renamed_symbol}
use howlframe.Scope.Unshadowed.{Unshadowed}
use howlframe.Scope.Walk.{scope_bindings}
use howlframe.Scope.Unchanged.{scope_bindings-Unshadowed}
use howlframe.Scope.Unshadowed.{Unshadowed}

abbrev sym : String → Node
sym s = node NodeType.symbol s nil 1 1 ""

abbrev form : List Node → Node
form ns = node NodeType.list "" (of_list ns) 1 1 ""

abbrev let_form_of : String → Node → Node → Node
let_form_of name value body = form (sym "let" ∷ form (sym name ∷ value ∷ []) ∷ body ∷ [])

-- (let (x a) (let (x x) (print x))): the inner binding and its reference are renamed.
shadowing_example :
    scope_bindings
      (let_form_of "x" (sym "a") (let_form_of "x" (sym "x") (form (sym "print" ∷ sym "x" ∷ []))))
    ≡ some (
        let_form_of "x"
          (sym "a")
          (let_form_of "x#1" (sym "x") (form (sym "print" ∷ sym "x#1" ∷ []))))
unfolding scope_bindings scoping_form lookup bind renamed_symbol
shadowing_example = refl

-- (let (x a) (let (y x) (print y)))
abbrev plain : Node
plain = let_form_of "x" (sym "a") (let_form_of "y" (sym "x") (form (sym "print" ∷ sym "y" ∷ [])))

scope_bindings-Unshadowed_example : scope_bindings plain ≡ some plain
unfolding Unshadowed scoping_form lookup
scope_bindings-Unshadowed_example =
    scope_bindings-Unshadowed plain (tt, refl, ((tt, refl, ((tt, tt), tt)), tt))
