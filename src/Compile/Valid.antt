-- ===== src/Compile/Valid.antt =====
-- What the compiler of internal/bytecode/bytecode.go produces passes the structural checks of
-- internal/bytecode/artifact.go.
use howlframe.Common.{
  ◌||◌, str_eq, Bool-cases, ◌≡◌, arith, List, String, Option, inr, inl, refl, suc, zero, ◌∷◌, [],
  none, some, ◌<◌, ◌≤◌, ℕ,
}
use howlframe.Opcode.{spec_of, load_var}
use howlframe.Program.{Value}
use howlframe.Ast.{Node, NodeType, children, depth, value, type}
use howlframe.Arity.{Arity, lookup_arity}
use howlframe.Compile.Table.{Construct, switch_head}
use howlframe.Compile.Monad.{Services, Recur, Reason}
use howlframe.Compile.Emit.{load, with_string}
use howlframe.Compile.Lowered.{Lowered, empty, plain, is_plain}
use howlframe.Compile.Ensures.{
  Ensures, Ensures-pure, Ensures-then, Ensures-if, Ensures-report, Ensures-report_if, Lowers,
}
use howlframe.Compile.Correct.{Ensures-compile_construct, switch_head-is_good_rule}
use howlframe.Compile.Switch.{
  dispatch, compile_list_form, compile_symbol, load_parsed, arity_error, compile_by_type,
  check_arity, compile_call_form, compile_step, compile_node,
}

module _ (services : Services) where
  arity_error-Ensures :
      (want : Option Arity) (head : String) (n : Node)
      → Ensures (λ _. Unit) (arity_error want head n)
  arity_error-Ensures none head n = Ensures-pure tt tt
  arity_error-Ensures (some want) head n = Ensures-report_if _ _ n

  check_arity-Ensures : (first n : Node) → Ensures (λ _. Unit) (check_arity first n)
  unfolding check_arity
  check_arity-Ensures first n =
      Ensures-if _ (arity_error-Ensures (lookup_arity (value first)) (value first) n)
        (Ensures-pure tt tt)

  load_parsed-Ensures :
      {A : Type 0} (wrap : A → Value) (reason : Reason) (o : Option A) (n : Node)
      → Ensures Lowered (load_parsed wrap reason o n)
  unfolding is_plain spec_of
  load_parsed-Ensures wrap reason none n = Ensures-report reason n
  load_parsed-Ensures wrap reason (some a) n = Ensures-pure _ (plain (load (wrap a)) (refl, refl))

  compile_symbol-Lowered : (name : String) → Lowered (compile_symbol name)
  unfolding is_plain spec_of
  compile_symbol-Lowered name = elim (Bool-cases (str_eq name "true" || str_eq name "false")) [
    | inl e ↦ rw e (plain (load (Value.bool (str_eq name "true"))) (refl, refl))
    | inr e ↦ rw e (plain (with_string "LOAD_VAR" load_var name) (refl, refl))
  ]

  module _ (d : ℕ) (rec : Recur) (ih : Lowers d rec) (n : Node) (h : depth n ≤ d) where
    dispatch-Ensures :
        (first : Node) (rule : Option Construct)
        → switch_head (value first) ≡ rule
        → Ensures Lowered (dispatch services rec first n rule)
    dispatch-Ensures first none e = Ensures-report _ first
    dispatch-Ensures first (some rule) e =
        Ensures-compile_construct d rec ih n h services (value first) rule
          (switch_head-is_good_rule (value first) rule e)

    compile_list_form-Ensures :
        (ns : List Node) → Ensures Lowered (compile_list_form services rec n ns)
    unfolding compile_call_form
    compile_list_form-Ensures [] = Ensures-pure [] empty
    compile_list_form-Ensures (first ∷ args) =
        Ensures-then (check_arity-Ensures first n)
          (dispatch-Ensures first (switch_head (value first)) refl)

    compile_by_type-Ensures : (t : NodeType) → Ensures Lowered (compile_by_type services rec n t)
    unfolding is_plain spec_of
    compile_by_type-Ensures NodeType.int =
        load_parsed-Ensures Value.int _ (services.parse_int (value n)) n
    compile_by_type-Ensures NodeType.float =
        load_parsed-Ensures Value.float _ (services.parse_float (value n)) n
    compile_by_type-Ensures NodeType.string =
        Ensures-pure _ (plain (load (Value.string (value n))) (refl, refl))
    compile_by_type-Ensures NodeType.symbol = Ensures-pure _ (compile_symbol-Lowered (value n))
    compile_by_type-Ensures NodeType.list = compile_list_form-Ensures (children n)

  -- The compiler does not run out of fuel on a tree less deep than its fuel, and what it produces,
  -- for the tree and for every function it defines, has the shape of compiled code.
  pub Ensures-compile_node :
      (fuel : ℕ) (n : Node) → depth n < fuel → Ensures Lowered (compile_node services fuel n)
  unfolding compile_node compile_step
  Ensures-compile_node zero n h = absurd (omega arith)
  Ensures-compile_node (suc fuel) n h =
      compile_by_type-Ensures fuel (compile_node services fuel)
        (λ c hc. Ensures-compile_node fuel c hc) n (omega arith) (type n)
