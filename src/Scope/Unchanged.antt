-- ===== src/Scope/Unchanged.antt =====
-- The scoping pass leaves a tree without shadowing as it is.
use howlframe.Common.{ℕ, String, List, [], ◌∷◌, ◌≡◌, refl, some, lookup}
use howlframe.Ast.{list, nil, cons, Nodes, Node, NodeType, symbol, node}
use howlframe.Scope.{
  ◌>>=◌, pure, ScopingForm, let_form, for_form, try_form, function_form, call_form, hint_form,
  dict_form, other_form, scoping_form, ScopingForm, Scoped, parameter_scope, Scopes, lookup_name,
}
use howlframe.Scope.Unshadowed.{
  UnshadowedPairs, UnshadowedFunction, UnshadowedCall, UnshadowedTry, UnshadowedFor, AllUnshadowed,
  UnshadowedLet, Unshadowed, parameter_names, with_binding,
}
use howlframe.Scope.Walk.{
  scope_bindings, walk_pairs, walk_call, walk_function, walk_try, walk_all, walk_for, walk_let,
  walk,
}
use howlframe.Scope.Agrees.{Agrees, bind-unchanged, parameters-Agrees, renamed_symbol-own}

abbrev Kept : {A : Type 0} → Scoped A → A → Type 0
Kept m a = (count : ℕ) → m count ≡ some (a, count)

-- What `walk` does with the children after a head.
abbrev walk_form : ScopingForm → Scopes → Nodes → Scoped Nodes
walk_form form scopes args = elim form [
  | let_form ↦ walk_let scopes args
  | for_form ↦ walk_for scopes args
  | try_form ↦ walk_try scopes args
  | function_form ↦ walk_function scopes args
  | call_form ↦ walk_call scopes args
  | hint_form ↦ pure args
  | dict_form ↦ walk_pairs scopes args
  | other_form ↦ walk_all scopes args
]

abbrev UnshadowedForm : ScopingForm → List String → Nodes → Type 0
UnshadowedForm form visible args = elim form [
  | let_form ↦ UnshadowedLet visible args
  | for_form ↦ UnshadowedFor visible args
  | try_form ↦ UnshadowedTry visible args
  | function_form ↦ UnshadowedFunction visible args
  | call_form ↦ UnshadowedCall visible args
  | hint_form ↦ Unit
  | dict_form ↦ UnshadowedPairs visible args
  | other_form ↦ AllUnshadowed visible args
]

under_head :
    (m : Scoped Nodes) (wrap : Nodes → Node) (args : Nodes) (count : ℕ)
    → m count ≡ some (args, count)
    → (m >>= λ walked. pure (wrap walked)) count ≡ some (wrap args, count)
under_head m wrap args count h = rw h refl

cons-Kept :
    (m : Scoped Node) (ms : Scoped Nodes) {n : Node} {ns : Nodes}
    → Kept m n
    → Kept ms ns
    → Kept (m >>= λ a. ms >>= λ b. pure (cons a b)) (cons n ns)
cons-Kept m ms h hs count = rw (h count, hs count) refl

pair-Kept :
    (ms : Scoped Nodes) (pair : Node) {ns : Nodes}
    → Kept ms ns
    → Kept (ms >>= λ others. pure (cons pair others)) (cons pair ns)
pair-Kept ms pair hs count = rw (hs count) refl

mutual
  unfolding walk Unshadowed

  walk-Kept :
      (scopes : Scopes) (visible : List String) (n : Node)
      → Agrees scopes visible
      → Unshadowed visible n
      → Kept (walk scopes n) n
  walk-Kept scopes visible (node symbol v cs l c f) h u count =
      rw (renamed_symbol-own scopes visible v h) refl
  walk-Kept scopes visible (node list v nil l c f) h u count = refl
  walk-Kept scopes visible (node list v (cons head args) l c f) h u count =
      under_head (walk_form (scoping_form head) scopes args)
        (λ walked. node list v (cons head walked) l c f) args count
        ((elim (scoping_form head)
            as (λ form.
              UnshadowedForm form visible args
              → walk_form form scopes args count ≡ some (args, count)) [
                | let_form ↦ λ u. walk_let-Kept scopes visible args h u count
                | for_form ↦ λ u. walk_for-Kept scopes visible args h u count
                | try_form ↦ λ u. walk_try-Kept scopes visible args h u count
                | function_form ↦ λ u. walk_function-Kept scopes visible args h u count
                | call_form ↦ λ u. walk_call-Kept scopes visible args h u count
                | hint_form ↦ λ u. refl
                | dict_form ↦ λ u. walk_pairs-Kept scopes visible args h u count
                | other_form ↦ λ u. walk_all-Kept scopes visible args h u count
              ])
          u)
  walk-Kept scopes visible (node NodeType.int v cs l c f) h u count = refl
  walk-Kept scopes visible (node NodeType.float v cs l c f) h u count = refl
  walk-Kept scopes visible (node NodeType.string v cs l c f) h u count = refl

  walk_all-Kept :
      (scopes : Scopes) (visible : List String) (args : Nodes)
      → Agrees scopes visible
      → AllUnshadowed visible args
      → Kept (walk_all scopes args) args
  walk_all-Kept scopes visible nil h u count = refl
  walk_all-Kept scopes visible (cons n ns) h us count =
      cons-Kept (walk scopes n) (walk_all scopes ns) (walk-Kept scopes visible n h us.0)
        (walk_all-Kept scopes visible ns h us.1) count

  walk_call-Kept :
      (scopes : Scopes) (visible : List String) (args : Nodes)
      → Agrees scopes visible
      → UnshadowedCall visible args
      → Kept (walk_call scopes args) args
  walk_call-Kept scopes visible nil h u count = absurd u
  walk_call-Kept scopes visible (cons name args) h us count =
      rw (walk_all-Kept scopes visible args h us count) refl

  walk_let-Kept :
      (scopes : Scopes) (visible : List String) (args : Nodes)
      → Agrees scopes visible
      → UnshadowedLet visible args
      → Kept (walk_let scopes args) args
  walk_let-Kept scopes visible (cons (node list v (cons name (cons value nil)) l c f) body) h
        (u, new, us) count =
      let (inner, bound, agrees) = bind-unchanged scopes visible name count h new in
      rw
        (
          walk-Kept scopes visible value h u count,
          bound,
          walk_all-Kept inner (with_binding visible name) body agrees us count,
        )
        refl
  walk_let-Kept scopes visible nil h u count = refl
  walk_let-Kept scopes visible (cons n ns) h us count =
      cons-Kept (walk scopes n) (walk_all scopes ns) (walk-Kept scopes visible n h us.0)
        (walk_all-Kept scopes visible ns h us.1) count

  walk_for-Kept :
      (scopes : Scopes) (visible : List String) (args : Nodes)
      → Agrees scopes visible
      → UnshadowedFor visible args
      → Kept (walk_for scopes args) args
  walk_for-Kept scopes visible (cons item (cons items body)) h (u, new, us) count =
      let (inner, bound, agrees) = bind-unchanged scopes visible item count h new in
      rw
        (
          walk-Kept scopes visible items h u count,
          bound,
          walk_all-Kept inner (with_binding visible item) body agrees us count,
        )
        refl
  walk_for-Kept scopes visible nil h u count = refl
  walk_for-Kept scopes visible (cons n ns) h us count =
      cons-Kept (walk scopes n) (walk_all scopes ns) (walk-Kept scopes visible n h us.0)
        (walk_all-Kept scopes visible ns h us.1) count

  walk_try-Kept :
      (scopes : Scopes) (visible : List String) (args : Nodes)
      → Agrees scopes visible
      → UnshadowedTry visible args
      → Kept (walk_try scopes args) args
  walk_try-Kept scopes visible
        (cons (node list v (cons name (cons value nil)) l c f) (
          cons
            (node list v₁ (cons catch (cons error (cons handler nil))) l₁ c₁ f₁)
            (cons body nil)))
        h (u, new_error, u_handler, new, u_body) count =
      let (in_handler, bound_error, agrees_error) =
        bind-unchanged scopes visible error count h new_error in
      let (inner, bound, agrees) = bind-unchanged scopes visible name count h new in
      rw
        (
          walk-Kept scopes visible value h u count,
          bound_error,
          walk-Kept in_handler (with_binding visible error) handler agrees_error u_handler count,
          bound,
          walk-Kept inner (with_binding visible name) body agrees u_body count,
        )
        refl
  walk_try-Kept scopes visible nil h u count = refl
  walk_try-Kept scopes visible (cons n ns) h us count =
      cons-Kept (walk scopes n) (walk_all scopes ns) (walk-Kept scopes visible n h us.0)
        (walk_all-Kept scopes visible ns h us.1) count

  walk_function-Kept :
      (scopes : Scopes) (visible : List String) (args : Nodes)
      → Agrees scopes visible
      → UnshadowedFunction visible args
      → Kept (walk_function scopes args) args
  walk_function-Kept scopes visible (cons name (cons (node list v params l c f) body)) h us count =
      rw
        (walk_all-Kept (parameter_scope [] params ∷ []) (parameter_names [] params) body
          (parameters-Agrees params) us count)
        refl
  walk_function-Kept scopes visible nil h u count = refl
  walk_function-Kept scopes visible (cons n ns) h us count =
      cons-Kept (walk scopes n) (walk_all scopes ns) (walk-Kept scopes visible n h us.0)
        (walk_all-Kept scopes visible ns h us.1) count

  walk_pairs-Kept :
      (scopes : Scopes) (visible : List String) (args : Nodes)
      → Agrees scopes visible
      → UnshadowedPairs visible args
      → Kept (walk_pairs scopes args) args
  walk_pairs-Kept scopes visible nil h u count = refl
  walk_pairs-Kept scopes visible (cons (node list v (cons key (cons value nil)) l c f) pairs) h
        (u, us) count =
      rw (walk-Kept scopes visible value h u count, walk_pairs-Kept scopes visible pairs h us count)
        refl
  walk_pairs-Kept scopes visible (cons pair pairs) h us count =
      pair-Kept (walk_pairs scopes pairs) pair (walk_pairs-Kept scopes visible pairs h us) count

-- A tree in which no binding has the name of a variable that is visible where it stands, and every
-- call names a function, is left as it is.
pub scope_bindings-Unshadowed : (root : Node) → Unshadowed [] root → scope_bindings root ≡ some root
unfolding scope_bindings lookup_name lookup
scope_bindings-Unshadowed root u = rw (walk-Kept ([] ∷ []) [] root (λ x. refl) u 0) refl
