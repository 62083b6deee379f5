-- ===== src/Scope/Unshadowed.antt =====
-- Trees in which no binding has the name of a visible variable, read off the source's forms.
use howlframe.Common.{String, List, [], ◌∷◌, Bool, false, ◌≡◌, ◌||◌, str_eq}
use howlframe.Ast.{Node, symbol, list, node, Nodes, nil, cons}
use howlframe.Scope.{
  scoping_form, let_form, for_form, try_form, function_form, call_form, hint_form, dict_form,
  other_form,
}

-- The variable is visible.
abbrev pub is_visible : List String → String → Bool
is_visible [] x = false
is_visible (v ∷ visible) x = str_eq v x || is_visible visible x

-- The binding node is no visible variable.
abbrev pub IsNew : List String → Node → Type 0
IsNew visible (node symbol name cs l c f) = is_visible visible name ≡ false
IsNew visible _ = Unit

-- What is visible where the node binds.
abbrev pub with_binding : List String → Node → List String
with_binding visible (node symbol name cs l c f) = name ∷ visible
with_binding visible _ = visible

abbrev pub parameter_names : List String → Nodes → List String
parameter_names names nil = names
parameter_names names (cons (node symbol p cs l c f) ps) = parameter_names (p ∷ names) ps
parameter_names names (cons p ps) = parameter_names names ps

unfoldable mutual
  -- No binding in the tree has a name that is visible where it stands, and every call has a name.
  pub Unshadowed : List String → Node → Type 0
  Unshadowed visible (node list v (cons head args) l c f) = elim (scoping_form head) [
    | let_form ↦ UnshadowedLet visible args
    | for_form ↦ UnshadowedFor visible args
    | try_form ↦ UnshadowedTry visible args
    | function_form ↦ UnshadowedFunction visible args
    | call_form ↦ UnshadowedCall visible args
    | hint_form ↦ Unit
    | dict_form ↦ UnshadowedPairs visible args
    | other_form ↦ AllUnshadowed visible args
  ]
  Unshadowed visible n = Unit

  pub AllUnshadowed : List String → Nodes → Type 0
  AllUnshadowed visible nil = Unit
  AllUnshadowed visible (cons n ns) = Unshadowed visible n × AllUnshadowed visible ns

  pub UnshadowedCall : List String → Nodes → Type 0
  UnshadowedCall visible nil = ⊥
  UnshadowedCall visible (cons name args) = AllUnshadowed visible args

  pub UnshadowedLet : List String → Nodes → Type 0
  UnshadowedLet visible (cons (node list v (cons name (cons value nil)) l c f) body) =
      Unshadowed visible value × IsNew visible name × AllUnshadowed (with_binding visible name) body
  UnshadowedLet visible nil = Unit
  UnshadowedLet visible (cons n ns) = Unshadowed visible n × AllUnshadowed visible ns

  pub UnshadowedFor : List String → Nodes → Type 0
  UnshadowedFor visible (cons item (cons items body)) =
      Unshadowed visible items × IsNew visible item × AllUnshadowed (with_binding visible item) body
  UnshadowedFor visible nil = Unit
  UnshadowedFor visible (cons n ns) = Unshadowed visible n × AllUnshadowed visible ns

  pub UnshadowedTry : List String → Nodes → Type 0
  UnshadowedTry visible
        (cons (node list v (cons name (cons value nil)) l c f) (
          cons
            (node list v₁ (cons catch (cons error (cons handler nil))) l₁ c₁ f₁)
            (cons body nil))) =
      Unshadowed visible value
      × IsNew visible error
      × Unshadowed (with_binding visible error) handler
      × IsNew visible name
      × Unshadowed (with_binding visible name) body
  UnshadowedTry visible nil = Unit
  UnshadowedTry visible (cons n ns) = Unshadowed visible n × AllUnshadowed visible ns

  pub UnshadowedFunction : List String → Nodes → Type 0
  UnshadowedFunction visible (cons name (cons (node list v params l c f) body)) =
      AllUnshadowed (parameter_names [] params) body
  UnshadowedFunction visible nil = Unit
  UnshadowedFunction visible (cons n ns) = Unshadowed visible n × AllUnshadowed visible ns

  pub UnshadowedPairs : List String → Nodes → Type 0
  UnshadowedPairs visible nil = Unit
  UnshadowedPairs visible (cons (node list v (cons key (cons value nil)) l c f) pairs) =
      Unshadowed visible value × UnshadowedPairs visible pairs
  UnshadowedPairs visible (cons pair pairs) = UnshadowedPairs visible pairs
