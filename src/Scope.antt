-- ===== src/Scope.antt =====
-- internal/bytecode/scoping.go: the pass that gives shadowing bindings fresh names, since the
-- virtual machine keeps one environment per call. The source changes the nodes of the tree in place;
-- here the changed tree is returned, and no node occurs twice in it.
pub mod Walk
pub mod Unshadowed
pub mod Agrees
pub mod Unchanged
mod Tests
use howlframe.Common.{
  get_elem?, ◌%◌, ltb, insert, if◌then◌else◌, lookup, str_append, ◌/◌, String, List, Option, ℕ, suc,
  zero, ◌∷◌, [], none, some,
}
use howlframe.Ast.{Node, NodeType, symbol, list, node, Nodes, nil, cons}

-- The state of the pass is the counter of the fresh names; `none` is a slice out of range in Go.
abbrev pub Scoped : Type 0 → Type 0
Scoped A = ℕ → Option (A × ℕ)

abbrev pub scoped_with : {A B : Type 0} → Option (A × ℕ) → (A → Scoped B) → Option (B × ℕ)
scoped_with none f = none
scoped_with (some (a, n)) f = f a n

infixl 5 ◌>>=◌
abbrev pub ◌>>=◌ : {A B : Type 0} → Scoped A → (A → Scoped B) → Scoped B
◌>>=◌ m f n = scoped_with (m n) f

abbrev pub pure : {A : Type 0} → A → Scoped A
pure a n = some (a, n)

abbrev pub panic : {A : Type 0} → Scoped A
panic n = none

-- `map[string]string`, and the chain of them with the innermost in front.
abbrev pub Names : Type 0
Names = List (String × String)

abbrev pub Scopes : Type 0
Scopes = List Names

digits : List String
digits = "0" ∷ "1" ∷ "2" ∷ "3" ∷ "4" ∷ "5" ∷ "6" ∷ "7" ∷ "8" ∷ "9" ∷ []

abbrev digit : ℕ → String
unfolding digits
digit n = elim (get_elem? digits n) [ none ↦ "" | some d ↦ d ]

-- The decimal digits of a number, of which there are at most `fuel`.
unfoldable pub decimal : ℕ → ℕ → String
unfolding digit
decimal zero n = ""
decimal (suc fuel) n =
    let front = decimal fuel (n / 10) in
    if ltb n 10 then digit n else str_append front (digit (n % 10))

-- `strconv.Itoa`, on a counter.
unfoldable pub itoa : ℕ → String
unfolding decimal
itoa n = decimal (suc n) n

-- `fresh`
unfoldable pub fresh : String → Scoped String
unfolding itoa
fresh name n = some (str_append name (str_append "#" (itoa (suc n))), suc n)

-- `lookupName`
unfoldable pub lookup_name : Scopes → String → Option String
lookup_name [] name = none
lookup_name (inner ∷ scopes) name = elim (lookup name inner) [
  | none ↦ lookup_name scopes name
  | some v ↦ some v
]

-- The name that `bind` gives to a symbol.
unfoldable pub bind_name : Option String → String → Scoped String
unfolding fresh
bind_name none name = pure name
bind_name (some v) name = fresh name

-- `bind`: the renamed node, and the scopes with a new innermost one.
unfoldable pub bind : Scopes → Node → Scoped (Node × Scopes)
unfolding bind_name lookup_name
bind scopes (node symbol name cs l c f) = do
  renamed ← bind_name (lookup_name scopes name) name
  pure (node symbol renamed cs l c f, ((name, renamed) ∷ []) ∷ scopes)
bind scopes n = pure (n, [] ∷ scopes)

-- A symbol is replaced by the name that its binding was given.
unfoldable pub renamed_symbol : Scopes → String → String
unfolding lookup_name
renamed_symbol scopes name = elim (lookup_name scopes name) [ none ↦ name | some v ↦ v ]

-- The symbols among the parameters of a function.
unfoldable pub parameter_scope : Names → Nodes → Names
parameter_scope names nil = names
parameter_scope names (cons (node symbol p cs l c f) ps) = parameter_scope (insert p p names) ps
parameter_scope names (cons p ps) = parameter_scope names ps

-- The heads that `walk` tells apart.
pub data ScopingForm : Type 0 where
  let_form for_form try_form function_form call_form hint_form dict_form other_form : ScopingForm

scoping_forms : List (String × ScopingForm)
scoping_forms =
    ("let", let_form)
    ∷ ("for", for_form)
    ∷ ("try_let", try_form)
    ∷ ("defun", function_form)
    ∷ ("lazy_synthesize", function_form)
    ∷ ("call", call_form)
    ∷ ("type_hint", hint_form)
    ∷ ("type_hints", hint_form)
    ∷ ("type_param", hint_form)
    ∷ ("dict", dict_form)
    ∷ []

abbrev or_other : Option ScopingForm → ScopingForm
or_other none = other_form
or_other (some form) = form

-- `head` and the switch on it.
unfoldable pub scoping_form : Node → ScopingForm
unfolding scoping_forms
scoping_form (node symbol v cs l c f) = or_other (lookup v scoping_forms)
scoping_form _ = other_form
