-- ===== src/Compile/Ensures.antt =====
-- Total correctness of the compiler's actions: with compiled functions of the right shape in the
-- state, an action does not run out of fuel, and if it ends normally its result has a property.
use howlframe.Common.{
  leb, ◌-◌, ◌≡◌, arith, drop, str_eq, if◌then◌else◌, ◌++◌, Bool-cases, length, get_elem?, Option,
  List, String, insert, Bool, inr, inl, refl, suc, zero, false, true, ◌∷◌, [], none, some, ◌<◌, ◌≤◌,
  ℕ,
}
use howlframe.Program.{Function}
use howlframe.Ast.{
  nil, cons, node, depth_all, Node, Nodes, children, to_list, depth, get_elem?-depth,
}
use howlframe.Compile.Monad.{
  at_index, then_with, Compile, Compiled, Outcome, done, reported, panicked, out_of_fuel, ◌>>=◌,
  ◌>>◌, pure, report, report_if, Reason, rest, child, last_child, set_function, compile_list,
  compile_at, compile_range, Recur,
}
use howlframe.Compile.Lowered.{Lowered, empty, join}

abbrev pub FunctionsLowered : Compiled → Type 0
FunctionsLowered [] = Unit
FunctionsLowered ((name, fn) ∷ rest) = Lowered fn.instructions × FunctionsLowered rest

abbrev pub Post : {A : Type 0} → (A → Type 0) → Outcome (A × Compiled) → Type 0
Post P (done (a, s)) = P a × FunctionsLowered s
Post P (reported r l c) = Unit
Post P panicked = Unit
Post P out_of_fuel = ⊥

pub record Ensures {A : Type 0} (P : A → Type 0) (m : Compile A) : Type 0 where
  pub at : (s : Compiled) → FunctionsLowered s → Post P (m s)

module _ {A : Type 0} {P : A → Type 0} where
  pub Ensures-pure : (a : A) → P a → Ensures P (pure a)
  unfolding pure
  Ensures-pure a h = record { at = λ s hs. (h, hs) }

  pub Ensures-report : (r : Reason) (n : Node) → Ensures P (report r n)
  unfolding report
  Ensures-report r n = record { at = λ s hs. tt }

  pub Ensures-if :
      (b : Bool) {m k : Compile A} → Ensures P m → Ensures P k → Ensures P (if b then m else k)
  Ensures-if true hm hk = hm
  Ensures-if false hm hk = hk

pub Ensures-report_if : (b : Bool) (r : Reason) (n : Node) → Ensures (λ _. Unit) (report_if b r n)
unfolding report_if
Ensures-report_if b r n = Ensures-if b (Ensures-report r n) (Ensures-pure tt tt)

module _ {A B : Type 0} {P : A → Type 0} {Q : B → Type 0} where
  then_with-Post :
      (r : Outcome (A × Compiled)) (f : A → Compile B)
      → Post P r
      → ((a : A) → P a → Ensures Q (f a))
      → Post Q (then_with r f)
  then_with-Post (done (a, s)) f (h, hs) k = (k a h).at s hs
  then_with-Post (reported r l c) f h k = tt
  then_with-Post panicked f h k = tt
  then_with-Post out_of_fuel f h k = absurd h

  pub Ensures-bind :
      {m : Compile A} {f : A → Compile B}
      → Ensures P m
      → ((a : A) → P a → Ensures Q (f a))
      → Ensures Q (m >>= f)
  unfolding ◌>>=◌
  Ensures-bind {m} {f} hm k = record { at = λ s hs. then_with-Post (m s) f (hm.at s hs) k }

pub Ensures-then :
    {A B : Type 0} {P : A → Type 0} {Q : B → Type 0} {m : Compile A} {k : Compile B}
    → Ensures P m
    → Ensures Q k
    → Ensures Q (m >> k)
unfolding ◌>>◌
Ensures-then hm hk = Ensures-bind hm (λ _ _. hk)

insert-FunctionsLowered :
    (name : String) (fn : Function) (s : Compiled)
    → Lowered fn.instructions
    → FunctionsLowered s
    → FunctionsLowered (insert name fn s)
unfolding insert
insert-FunctionsLowered name fn [] h hs = (h, tt)
insert-FunctionsLowered name fn ((k, f) ∷ s) h (hf, hs) = elim (Bool-cases (str_eq k name)) [
  | inl e ↦ rw e (h, hs)
  | inr e ↦ rw e (hf, insert-FunctionsLowered name fn s h hs)
]

pub Ensures-set_function :
    (name : String) (fn : Function)
    → Lowered fn.instructions
    → Ensures (λ _. Unit) (set_function name fn)
unfolding set_function
Ensures-set_function name fn h = record {
  at = λ s hs. (tt, insert-FunctionsLowered name fn s h hs);
}

-- Every tree of a list is less deep than `d`.
abbrev pub AllBelow : ℕ → List Node → Type 0
AllBelow d [] = Unit
AllBelow d (n ∷ ns) = (depth n < d) × AllBelow d ns

AllBelow-drop : (d k : ℕ) (ns : List Node) → AllBelow d ns → AllBelow d (drop k ns)
AllBelow-drop d zero ns h = h
AllBelow-drop d (suc k) [] h = tt
AllBelow-drop d (suc k) (n ∷ ns) h = AllBelow-drop d k ns h.1

AllBelow-nodes : (d : ℕ) (ns : Nodes) → depth_all ns < d → AllBelow d (to_list ns)
unfolding depth_all
AllBelow-nodes d nil h = tt
AllBelow-nodes d (cons n ns) h = (omega arith, AllBelow-nodes d ns (omega arith))

pub AllBelow-children : (d : ℕ) (n : Node) → depth n ≤ d → AllBelow d (children n)
unfolding depth
AllBelow-children d (node t v cs l c f) h = AllBelow-nodes d cs (omega arith)

module _ (d : ℕ) where
  child-Post :
      (n : Node) (i : ℕ)
      → depth n ≤ d
      → (o : Option Node) → get_elem? (children n) i ≡ o
      → Ensures (λ c. depth c < d) (at_index o)
  child-Post n i h none e = record { at = λ s hs. tt }
  child-Post n i h (some c) e = record { at = λ s hs. (omega (arith, get_elem?-depth n i c e), hs) }

  pub Ensures-child : (n : Node) (i : ℕ) → depth n ≤ d → Ensures (λ c. depth c < d) (child n i)
  unfolding child
  Ensures-child n i h = child-Post n i h (get_elem? (children n) i) refl

  pub Ensures-last_child : (n : Node) → depth n ≤ d → Ensures (λ c. depth c < d) (last_child n)
  unfolding last_child
  Ensures-last_child n h = Ensures-child n (length (children n) - 1) h

  pub Ensures-rest : (n : Node) (k : ℕ) → depth n ≤ d → Ensures (AllBelow d) (rest n k)
  unfolding rest
  Ensures-rest n k h = record {
    at = λ s hs. elim (Bool-cases (leb k (length (children n)))) [
      | inl e ↦ rw e (AllBelow-drop d k (children n) (AllBelow-children d n h), hs)
      | inr e ↦ rw e tt
    ];
  }

-- The recursive call is right on every tree less deep than `d`.
abbrev pub Lowers : ℕ → Recur → Type 0
Lowers d rec = (c : Node) → depth c < d → Ensures Lowered (rec c)

module _ (d : ℕ) (rec : Recur) (ih : Lowers d rec) where
  pub Ensures-compile_list :
      (ns : List Node) → AllBelow d ns → Ensures Lowered (compile_list rec ns)
  unfolding compile_list
  Ensures-compile_list [] h = Ensures-pure [] empty
  Ensures-compile_list (n ∷ ns) (h, hs) =
      Ensures-bind (ih n h)
        λ a ha. Ensures-bind (Ensures-compile_list ns hs) λ b hb. Ensures-pure (a ++ b) (join ha hb)

  pub Ensures-compile_at : (n : Node) (i : ℕ) → depth n ≤ d → Ensures Lowered (compile_at rec n i)
  unfolding compile_at
  Ensures-compile_at n i h = Ensures-bind (Ensures-child d n i h) ih

  pub Ensures-compile_range :
      (n : Node) (i k : ℕ) → depth n ≤ d → Ensures Lowered (compile_range rec n i k)
  unfolding compile_range
  Ensures-compile_range n i zero h = Ensures-pure [] empty
  Ensures-compile_range n i (suc k) h = Ensures-bind (Ensures-compile_at n i h) λ a ha.
      Ensures-bind (Ensures-compile_range n (suc i) k h) λ b hb. Ensures-pure (a ++ b) (join ha hb)
