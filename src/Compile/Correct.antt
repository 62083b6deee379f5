-- ===== src/Compile/Correct.antt =====
-- `compileNode` of internal/bytecode/bytecode.go ends, and its code has the compiled shape.
use howlframe.Common.{
  ◌-◌, subst, length, Bool-cases, eq_iff, inr, inl, pos, str_eq, ◌≡◌, ◌&&◌, lookup, List, Bool,
  String, refl, true, ◌∷◌, [], some, ◌≤◌, ℕ,
}
use mathlib.Core.Bool.{and-eq-true_iff}
use howlframe.Opcode.{Opcode, spec_of, binop, convert}
use howlframe.Program.{Instruction, instruction}
use howlframe.Ast.{Node, children, depth, value}
use howlframe.Compile.Table.{
  Construct, constructs, switch_head, block, operands, exact_operands, named, on_handle, counted,
  arithmetic, conversion, circuit, only_child, only_last, nothing, grants, optimized_block, defun,
  lazy_synthesize, let_form, if_form, while_form, for_form, return_form, try_form, logical,
  call_form, dict_form, map_get_form, arguments, exec_form, parse_json_form, fetch_form,
  request_form, db_connection, sql, open_store, generate, goal, task_form, spawn_form, agent_form,
  server,
}
use howlframe.Compile.Monad.{Services, Recur}
use howlframe.Compile.Emit.{with_int, with_string}
use howlframe.Compile.Lowered.{Lowered, empty, Lowered-snoc, is_plain, IsPlain}
use howlframe.Compile.Ensures.{
  Ensures, Ensures-pure, Ensures-bind, Ensures-then, Ensures-report, Ensures-report_if,
  Ensures-child, Ensures-last_child, Ensures-rest, Lowers, Ensures-compile_list, Ensures-compile_at,
  Ensures-compile_range,
}
use howlframe.Compile.Switch.{
  compile_operands, compile_block, compile_named, compile_on_handle, compile_counted,
  compile_construct,
}
use howlframe.Compile.EffectsLowered.{
  Ensures-compile_task, Ensures-compile_achieve, Ensures-compile_generate,
  Ensures-compile_store_open, Ensures-compile_sql, Ensures-compile_db_connect,
  Ensures-compile_request, Ensures-compile_fetch, Ensures-compile_parse_json, Ensures-compile_exec,
  Ensures-compile_arguments, Ensures-compile_circuit,
}
use howlframe.Compile.FormsLowered.{
  Ensures-compile_map_get, Ensures-compile_dict, Ensures-compile_call, Ensures-compile_logical,
  Ensures-compile_try, Ensures-compile_return, Ensures-compile_for, Ensures-compile_while,
  Ensures-compile_if, Ensures-compile_let, Ensures-compile_lazy, Ensures-compile_defun,
}
use howlframe.Compile.ChildrenLowered.{
  Ensures-compile_server, Ensures-compile_agent, Ensures-compile_spawn,
}

-- An instruction of the table is plain and has the name of its opcode.
unfoldable pub is_good : String → Opcode → Bool
unfolding is_plain spec_of
is_good name op = is_plain op && str_eq name (spec_of op).name

unfoldable pub is_good_rule : Construct → Bool
unfolding is_good
is_good_rule (operands k name op) = is_good name op
is_good_rule (exact_operands k name op) = is_good name op
is_good_rule (named k name op) = is_good name op
is_good_rule (on_handle k name op) = is_good name op
is_good_rule (counted name op) = is_good name op
is_good_rule (circuit name op) = is_good name op
is_good_rule _ = true

all_good : List (String × Construct) → Bool
unfolding is_good_rule
all_good [] = true
all_good ((head, rule) ∷ m) = is_good_rule rule && all_good m

is_good-parts :
    (name : String) (op : Opcode)
    → is_good name op ≡ true
    → (is_plain op ≡ true) × (name ≡ (spec_of op).name)
unfolding is_good
is_good-parts name op h =
    let (p, q) = (and-eq-true_iff _ _).0 h in (p, (eq_iff name (spec_of op).name).0 q)

lookup-is_good_rule :
    (head : String) (m : List (String × Construct)) (rule : Construct)
    → all_good m ≡ true
    → lookup head m ≡ some rule
    → is_good_rule rule ≡ true
unfolding lookup all_good
lookup-is_good_rule head [] rule h e = cc
lookup-is_good_rule head ((k, r) ∷ m) rule h e =
    let (p, q) = (and-eq-true_iff (is_good_rule r) (all_good m)).0 h in
    elim (Bool-cases (str_eq k head)) [
      | inl s ↦ let same : r ≡ rule = cc (rw s at e) in subst (λ x. is_good_rule x ≡ true) same p
      | inr s ↦ lookup-is_good_rule head m rule q (rw s at e)
    ]

pub switch_head-is_good_rule :
    (head : String) (rule : Construct) → switch_head head ≡ some rule → is_good_rule rule ≡ true
unfolding switch_head all_good
switch_head-is_good_rule head rule e = lookup-is_good_rule head constructs rule refl e

module _ (d : ℕ) (rec : Recur) (ih : Lowers d rec) (n : Node) (h : depth n ≤ d) where
  Ensures-compile_operands :
      (k : ℕ) (inst : Instruction) → IsPlain inst → Ensures Lowered (compile_operands rec k inst n)
  unfolding compile_operands
  Ensures-compile_operands k inst p =
      Ensures-bind (Ensures-compile_range d rec ih n 1 k h)
        λ code hc. Ensures-pure _ (Lowered-snoc inst hc p)

  Ensures-compile_block : (i : ℕ) → Ensures Lowered (compile_block rec i n)
  unfolding compile_block
  Ensures-compile_block i = Ensures-bind (Ensures-rest d n i h) (Ensures-compile_list d rec ih)

  Ensures-compile_named :
      (k : ℕ) (name : String) (op : Opcode)
      → is_good name op ≡ true
      → Ensures Lowered (compile_named rec k name op n)
  unfolding compile_named
  Ensures-compile_named k name op g = Ensures-bind (Ensures-child d n 1 h) λ v _.
      Ensures-bind (Ensures-compile_range d rec ih n 2 k h) λ code hc.
        Ensures-pure _ (Lowered-snoc (with_string name op (value v)) hc (is_good-parts name op g))

  Ensures-compile_on_handle :
      (k : ℕ) (name : String) (op : Opcode) (head : String)
      → is_good name op ≡ true
      → Ensures Lowered (compile_on_handle rec k name op head n)
  unfolding compile_on_handle
  Ensures-compile_on_handle k name op head g = Ensures-then (Ensures-report_if _ _ n) (
      Ensures-bind (Ensures-child d n 1 h) λ v _. Ensures-then (Ensures-report_if _ _ v) (
        Ensures-bind (Ensures-compile_range d rec ih n 2 k h) λ code hc.
          Ensures-pure _
            (Lowered-snoc (with_string name op (value v)) hc (is_good-parts name op g))))

  Ensures-compile_counted :
      (name : String) (op : Opcode)
      → is_good name op ≡ true
      → Ensures Lowered (compile_counted rec name op n)
  unfolding compile_counted
  Ensures-compile_counted name op g = Ensures-bind (Ensures-rest d n 1 h) λ args ha.
      Ensures-bind (Ensures-compile_list d rec ih args ha) λ code hc. Ensures-pure _ (
        Lowered-snoc (with_int name op (pos (length (children n) - 1))) hc
          (is_good-parts name op g))

  pub Ensures-compile_construct :
      (services : Services) (head : String) (rule : Construct)
      → is_good_rule rule ≡ true
      → Ensures Lowered (compile_construct services rec head n rule)
  unfolding compile_construct is_good_rule is_plain spec_of
  Ensures-compile_construct services head (block i) g = Ensures-compile_block i
  Ensures-compile_construct services head (operands k name op) g =
      Ensures-compile_operands k (instruction name op) (is_good-parts name op g)
  Ensures-compile_construct services head (exact_operands k name op) g =
      Ensures-then (Ensures-report_if _ _ n)
        (Ensures-compile_operands k (instruction name op) (is_good-parts name op g))
  Ensures-compile_construct services head (named k name op) g = Ensures-compile_named k name op g
  Ensures-compile_construct services head (on_handle k name op) g =
      Ensures-compile_on_handle k name op head g
  Ensures-compile_construct services head (counted name op) g = Ensures-compile_counted name op g
  Ensures-compile_construct services head (arithmetic symbol) g =
      Ensures-compile_operands 2 (with_string "BINOP" binop symbol) (refl, refl)
  Ensures-compile_construct services head conversion g =
      Ensures-compile_operands 1 (with_string "CONVERT" convert head) (refl, refl)
  Ensures-compile_construct services head (circuit name op) g =
      let (p, e) = is_good-parts name op g in Ensures-compile_circuit d rec ih n h name op head p e
  Ensures-compile_construct services head (only_child i) g = Ensures-compile_at d rec ih n i h
  Ensures-compile_construct services head only_last g = Ensures-bind (Ensures-last_child d n h) ih
  Ensures-compile_construct services head nothing g = Ensures-pure [] empty
  Ensures-compile_construct services head grants g = Ensures-report _ n
  Ensures-compile_construct services head optimized_block g =
      Ensures-then (Ensures-report_if _ _ n) (Ensures-compile_block 3)
  Ensures-compile_construct services head defun g = Ensures-compile_defun d rec ih n h
  Ensures-compile_construct services head lazy_synthesize g = Ensures-compile_lazy d rec ih n h
  Ensures-compile_construct services head let_form g = Ensures-compile_let d rec ih n h
  Ensures-compile_construct services head if_form g = Ensures-compile_if d rec ih n h
  Ensures-compile_construct services head while_form g = Ensures-compile_while d rec ih n h
  Ensures-compile_construct services head for_form g = Ensures-compile_for d rec ih n h
  Ensures-compile_construct services head return_form g = Ensures-compile_return d rec ih n h
  Ensures-compile_construct services head try_form g = Ensures-compile_try d rec ih n h
  Ensures-compile_construct services head logical g = Ensures-compile_logical d rec ih n h head
  Ensures-compile_construct services head call_form g = Ensures-compile_call d rec ih n h
  Ensures-compile_construct services head dict_form g = Ensures-compile_dict d rec ih n h
  Ensures-compile_construct services head map_get_form g = Ensures-compile_map_get d rec ih n h
  Ensures-compile_construct services head arguments g = Ensures-compile_arguments d rec ih n h
  Ensures-compile_construct services head exec_form g = Ensures-compile_exec d rec ih n h
  Ensures-compile_construct services head parse_json_form g =
      Ensures-compile_parse_json d rec ih n h
  Ensures-compile_construct services head fetch_form g = Ensures-compile_fetch d rec ih n h
  Ensures-compile_construct services head request_form g = Ensures-compile_request d rec ih n h
  Ensures-compile_construct services head db_connection g = Ensures-compile_db_connect d rec ih n h
  Ensures-compile_construct services head sql g = Ensures-compile_sql d rec ih n h
  Ensures-compile_construct services head open_store g = Ensures-compile_store_open d rec ih n h
  Ensures-compile_construct services head generate g = Ensures-compile_generate d rec ih n h
  Ensures-compile_construct services head goal g = Ensures-compile_achieve d rec ih n h
  Ensures-compile_construct services head task_form g = Ensures-compile_task d rec ih n h
  Ensures-compile_construct services head spawn_form g = Ensures-compile_spawn services d rec ih n h
  Ensures-compile_construct services head agent_form g = Ensures-compile_agent services d rec ih n h
  Ensures-compile_construct services head server g = Ensures-compile_server services d rec ih n h
