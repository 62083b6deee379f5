-- ===== src/Vm/Environment.antt =====
-- The chain of environments of internal/vm/vm.go: `BcEnv.set` changes what `BcEnv.get` reads.
use howlframe.Common.{
  ◌≢◌, String, Bool, true, false, none, some, List, [], ◌∷◌, ◌≡◌, refl, str_eq, lookup, has_key,
  insert, lookup-insert, if◌then◌else◌, Bool-cases, Option-cases, inl, inr, eq_iff,
}
use howlframe.Vm.Value.{Val, Vars}
use howlframe.Vm.Monad.{find_var, assign_var}

has_key-lookup : (k : String) (vars : Vars) → has_key k vars ≡ false → lookup k vars ≡ none
unfolding has_key
has_key-lookup k vars h = elim (Option-cases (lookup k vars)) [
  | inl n ↦ n
  | inr (v, e) ↦ cc (rw (has_key, e) at h)
]

-- `set` fails exactly where `get` finds nothing.
assign_var-none :
    (k : String) (v : Val) (frames : List Vars)
    → assign_var k v frames ≡ none
    → find_var k frames ≡ none
unfolding assign_var find_var
assign_var-none k v [] h = refl
assign_var-none k v (vars ∷ frames) h = elim (Bool-cases (has_key k vars)) [
  | inl e ↦ cc (rw e at h)
  | inr e ↦ elim (Option-cases (assign_var k v frames)) [
    | inl n ↦ rw (find_var, has_key-lookup k vars e) (assign_var-none k v frames n)
    | inr (f, s) ↦ cc (rw (e, s) at h)
  ]
]

assign_var-found :
    (k : String) (v : Val) (frames : List Vars) {frames' : List Vars}
    → assign_var k v frames ≡ some frames'
    → find_var k frames ≢ none
unfolding assign_var find_var has_key
assign_var-found k v [] h n = cc
assign_var-found k v (vars ∷ frames) h n = elim (Option-cases (lookup k vars)) [
  | inr (w, e) ↦ cc (rw (find_var, e) at n)
  | inl e ↦ elim (Option-cases (assign_var k v frames)) [
    | inl a ↦ cc (rw (has_key, e, a) at h)
    | inr (f, s) ↦ assign_var-found k v frames s (rw (find_var, e) at n)
  ]
]

-- After `set` the variable has the value, and any other is as before.
assign_var-some :
    (k : String) (v : Val) (x : String) (frames : List Vars) {frames' : List Vars}
    → assign_var k v frames ≡ some frames'
    → find_var x frames' ≡ (if str_eq k x then some v else find_var x frames)
unfolding assign_var find_var
assign_var-some k v x [] h = cc
assign_var-some k v x (vars ∷ frames) {frames'} h = elim (Bool-cases (has_key k vars)) [
  | inl e ↦
      let same : insert k v vars ∷ frames ≡ frames' = cc (rw e at h) in
      rw (← same) (rw (find_var, lookup-insert x k v vars) (after_insert (str_eq k x)))
  | inr e ↦ elim (Option-cases (assign_var k v frames)) [
    | inl n ↦ cc (rw (e, n) at h)
    | inr (f, s) ↦
        let same : vars ∷ f ≡ frames' = cc (rw (e, s) at h) in
        let outer = assign_var-some k v x frames s in
        rw (← same) (elim (Bool-cases (str_eq k x)) [
          | inl t ↦
              let here : k ≡ x = (eq_iff k x).0 t in
              let absent : lookup x vars ≡ none = rw (← here) (has_key-lookup k vars e) in
              rw (find_var, t, absent) (rw t at outer)
          | inr t ↦ rw t (elim (Option-cases (lookup x vars)) [
            | inl n ↦ rw (find_var, n) (rw t at outer)
            | inr (w, n) ↦ rw (find_var, n) refl
          ])
        ])
  ]
]
  where
    after_insert :
        (b : Bool)
        → elim (if b then some v else lookup x vars) [ some w ↦ some w | none ↦ find_var x frames ]
          ≡ (if b
              then some v
              else elim (lookup x vars) [ some w ↦ some w | none ↦ find_var x frames ])
    after_insert true = refl
    after_insert false = refl

-- `BcEnv.set` fails exactly where `BcEnv.get` finds no variable, and where it does not fail, the
-- variable is then found with the new value and every other one as before.
pub find_var-assign_var :
    (k : String) (v : Val) (frames : List Vars)
    → (assign_var k v frames ≡ none → find_var k frames ≡ none)
      × ((frames' : List Vars)
          → assign_var k v frames ≡ some frames'
          → (find_var k frames ≢ none)
            × ((x : String)
                → find_var x frames' ≡ (if str_eq k x then some v else find_var x frames)))
find_var-assign_var k v frames = (
  assign_var-none k v frames,
  λ frames' h. (assign_var-found k v frames h, λ x. assign_var-some k v x frames h),
)
