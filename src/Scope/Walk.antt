-- ===== src/Scope/Walk.antt =====
-- `walk` and `ScopeBindings` of internal/bytecode/scoping.go.
use howlframe.Common.{ℕ, Option, ◌∷◌, [], none, some}
use howlframe.Scope.{
  Scoped, Scopes, pure, ◌>>=◌, panic, bind, renamed_symbol, parameter_scope, scoping_form, let_form,
  for_form, try_form, function_form, call_form, hint_form, dict_form, other_form,
}
use howlframe.Ast.{Node, symbol, list, node, Nodes, nil, cons}

unfoldable mutual
  -- `walk`
  pub walk : Scopes → Node → Scoped Node
  walk scopes (node symbol v cs l c f) = pure (node symbol (renamed_symbol scopes v) cs l c f)
  walk scopes (node list v (cons head args) l c f) = do
    walked ← elim (scoping_form head) [
      | let_form ↦ walk_let scopes args
      | for_form ↦ walk_for scopes args
      | try_form ↦ walk_try scopes args
      | function_form ↦ walk_function scopes args
      | call_form ↦ walk_call scopes args
      | hint_form ↦ pure args
      | dict_form ↦ walk_pairs scopes args
      | other_form ↦ walk_all scopes args
    ]
    pure (node list v (cons head walked) l c f)
  walk scopes n = pure n

  pub walk_all : Scopes → Nodes → Scoped Nodes
  walk_all scopes nil = pure nil
  walk_all scopes (cons n ns) = do m ← walk scopes n; ms ← walk_all scopes ns; pure (cons m ms)

  -- (call name args...): the name of the function is not a variable.
  pub walk_call : Scopes → Nodes → Scoped Nodes
  walk_call scopes nil = panic
  walk_call scopes (cons name args) = do walked ← walk_all scopes args; pure (cons name walked)

  -- (let (name value) body...): the value sees the outer scope.
  pub walk_let : Scopes → Nodes → Scoped Nodes
  walk_let scopes (cons (node list v (cons name (cons value nil)) l c f) body) = do
    walked ← walk scopes value
    (bound, inner) ← bind scopes name
    inside ← walk_all inner body
    pure (cons (node list v (cons bound (cons walked nil)) l c f) inside)
  walk_let scopes nil = pure nil
  walk_let scopes (cons n ns) = do m ← walk scopes n; ms ← walk_all scopes ns; pure (cons m ms)

  -- (for item list body...)
  pub walk_for : Scopes → Nodes → Scoped Nodes
  walk_for scopes (cons item (cons items body)) = do
    walked ← walk scopes items
    (bound, inner) ← bind scopes item
    inside ← walk_all inner body
    pure (cons bound (cons walked inside))
  walk_for scopes nil = pure nil
  walk_for scopes (cons n ns) = do m ← walk scopes n; ms ← walk_all scopes ns; pure (cons m ms)

  -- (try_let (name value) (catch err handler) body)
  pub walk_try : Scopes → Nodes → Scoped Nodes
  walk_try scopes
        (cons (node list v (cons name (cons value nil)) l c f) (
          cons
            (node list v₁ (cons catch (cons error (cons handler nil))) l₁ c₁ f₁)
            (cons body nil))) =
      do
        walked ← walk scopes value
        (bound_error, in_handler) ← bind scopes error
        handled ← walk in_handler handler
        (bound, inner) ← bind scopes name
        inside ← walk inner body
        pure (
            cons (node list v (cons bound (cons walked nil)) l c f) (
              cons (node list v₁ (cons catch (cons bound_error (cons handled nil))) l₁ c₁ f₁)
                (cons inside nil)))
  walk_try scopes nil = pure nil
  walk_try scopes (cons n ns) = do m ← walk scopes n; ms ← walk_all scopes ns; pure (cons m ms)

  -- (defun name (params) body...): a function sees only its parameters.
  pub walk_function : Scopes → Nodes → Scoped Nodes
  walk_function scopes (cons name (cons (node list v params l c f) body)) = do
    inside ← walk_all (parameter_scope [] params ∷ []) body
    pure (cons name (cons (node list v params l c f) inside))
  walk_function scopes nil = pure nil
  walk_function scopes (cons n ns) = do m ← walk scopes n; ms ← walk_all scopes ns; pure (cons m ms)

  -- (dict (key value)...)
  pub walk_pairs : Scopes → Nodes → Scoped Nodes
  walk_pairs scopes nil = pure nil
  walk_pairs scopes (cons (node list v (cons key (cons value nil)) l c f) pairs) = do
    walked ← walk scopes value
    others ← walk_pairs scopes pairs
    pure (cons (node list v (cons key (cons walked nil)) l c f) others)
  walk_pairs scopes (cons pair pairs) = do others ← walk_pairs scopes pairs; pure (cons pair others)

-- The tree that a run of the pass left.
abbrev scoped_tree : Option (Node × ℕ) → Option Node
scoped_tree none = none
scoped_tree (some (n, count)) = some n

-- `ScopeBindings`
unfoldable pub scope_bindings : Node → Option Node
unfolding walk
scope_bindings root = scoped_tree (walk ([] ∷ []) root 0)
