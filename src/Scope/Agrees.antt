-- ===== src/Scope/Agrees.antt =====
-- Scopes in which every visible variable has its own name.
use howlframe.Common.{
  lookup-insert, insert, arith, ℕ, String, List, [], ◌∷◌, ◌≡◌, refl, Option, none, some,
  if◌then◌else◌, eq_iff, lookup,
}
use howlframe.Ast.{nil, cons, Nodes, Node, NodeType, symbol, node}
use howlframe.Scope.{Names, renamed_symbol, parameter_scope, Scopes, lookup_name, bind, bind_name}
use howlframe.Scope.Unshadowed.{parameter_names, with_binding, IsNew, is_visible}

-- A visible variable has its own name, and the others have none.
abbrev pub own_name : List String → String → Option String
own_name visible x = if is_visible visible x then some x else none

abbrev pub Agrees : Scopes → List String → Type 0
Agrees scopes visible = (x : String) → lookup_name scopes x ≡ own_name visible x

lookup_name-own :
    (name x : String) (scopes : Scopes) (visible : List String)
    → Agrees scopes visible
    → lookup_name (((name, name) ∷ []) ∷ scopes) x ≡ own_name (name ∷ visible) x
unfolding lookup_name lookup
lookup_name-own name x scopes visible h = ground (arith, eq_iff name x, h x)

pub bind-unchanged :
    (scopes : Scopes) (visible : List String) (n : Node) (count : ℕ)
    → Agrees scopes visible
    → IsNew visible n
    → (inner : Scopes) × (bind scopes n count ≡ some ((n, inner), count))
      × Agrees inner (with_binding visible n)
unfolding bind bind_name lookup_name lookup
bind-unchanged scopes visible (node symbol name cs l c f) count h new = (
  ((name, name) ∷ []) ∷ scopes,
  rw (h name, new) refl,
  λ x. lookup_name-own name x scopes visible h,
)
bind-unchanged scopes visible (node NodeType.list name cs l c f) count h new =
    ([] ∷ scopes, refl, λ x. h x)
bind-unchanged scopes visible (node NodeType.int name cs l c f) count h new =
    ([] ∷ scopes, refl, λ x. h x)
bind-unchanged scopes visible (node NodeType.float name cs l c f) count h new =
    ([] ∷ scopes, refl, λ x. h x)
bind-unchanged scopes visible (node NodeType.string name cs l c f) count h new =
    ([] ∷ scopes, refl, λ x. h x)

parameter_scope-Agrees :
    (names : Names) (visible : List String) (params : Nodes)
    → ((x : String) → lookup x names ≡ own_name visible x)
    → (x : String)
    → lookup x (parameter_scope names params) ≡ own_name (parameter_names visible params) x
unfolding parameter_scope
parameter_scope-Agrees names visible nil h x = h x
parameter_scope-Agrees names visible (cons (node symbol p cs l c f) ps) h x =
    parameter_scope-Agrees (insert p p names) (p ∷ visible) ps
      (λ y. ground (arith, lookup-insert y p p names, h y, eq_iff p y)) x
parameter_scope-Agrees names visible (cons (node NodeType.list p cs l c f) ps) h x =
    parameter_scope-Agrees names visible ps h x
parameter_scope-Agrees names visible (cons (node NodeType.int p cs l c f) ps) h x =
    parameter_scope-Agrees names visible ps h x
parameter_scope-Agrees names visible (cons (node NodeType.float p cs l c f) ps) h x =
    parameter_scope-Agrees names visible ps h x
parameter_scope-Agrees names visible (cons (node NodeType.string p cs l c f) ps) h x =
    parameter_scope-Agrees names visible ps h x

pub parameters-Agrees :
    (params : Nodes) → Agrees (parameter_scope [] params ∷ []) (parameter_names [] params)
unfolding lookup_name
parameters-Agrees params x =
    rw (lookup_name, parameter_scope-Agrees [] [] params (unfold lookup in λ y. refl) x)
      (ground arith)

pub renamed_symbol-own :
    (scopes : Scopes) (visible : List String) (x : String)
    → Agrees scopes visible
    → renamed_symbol scopes x ≡ x
unfolding renamed_symbol
renamed_symbol-own scopes visible x h = rw (renamed_symbol, h x) (ground arith)
