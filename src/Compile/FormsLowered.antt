-- ===== src/Compile/FormsLowered.antt =====
-- The cases of Compile/Forms and of Compile/Children produce code of the compiled shape.
use howlframe.Common.{◌-◌, length, pos, List, String, arith, refl, ◌∷◌, [], ◌<◌, ◌≤◌, ℕ}
use howlframe.Opcode.{spec_of, call, return as return_op, store_var, make_dict, map_get}
use howlframe.Ast.{children, Node, depth, value}
use howlframe.Compile.Monad.{compile_at, Recur}
use howlframe.Compile.Lowered.{
  Lowered, empty, join, plain, branch, loop, each, guarded, logical, Lowered-snoc, Lowered-cons,
  is_plain,
}
use howlframe.Compile.Ensures.{
  Ensures, Ensures-pure, Ensures-bind, Ensures-then, Ensures-if, Ensures-report_if, Ensures-child,
  Ensures-rest, Ensures-set_function, Lowers, AllBelow, Ensures-compile_list, Ensures-compile_at,
  Ensures-compile_range,
}
use howlframe.Compile.Forms.{
  compile_defun, compile_lazy, compile_try, compile_let, compile_if, compile_while, compile_for,
  compile_return, compile_logical, compile_call, compile_pairs, compile_dict, compile_map_get,
}
use howlframe.Compile.Emit.{with_int, load, with_string}
use howlframe.Program.{instruction, Value}

module _ (d : ℕ) (rec : Recur) (ih : Lowers d rec) (n : Node) (h : depth n ≤ d) where
  operand : (i : ℕ) → Ensures Lowered (compile_at rec n i)
  operand i = Ensures-compile_at d rec ih n i h

  nested : (c : Node) (i : ℕ) → depth c < d → Ensures Lowered (compile_at rec c i)
  nested c i hc = Ensures-compile_at d rec ih c i (omega arith)

  pub Ensures-compile_defun : Ensures Lowered (compile_defun rec n)
  unfolding compile_defun
  Ensures-compile_defun = Ensures-bind (Ensures-child d n 1 h) λ name _.
      Ensures-bind (Ensures-child d n 2 h) λ params _.
        Ensures-bind (Ensures-rest d n _ h) λ forms hf.
          Ensures-bind (Ensures-compile_list d rec ih forms hf)
            λ body hb. Ensures-then (Ensures-set_function (value name) _ hb) (Ensures-pure [] empty)

  pub Ensures-compile_lazy : Ensures Lowered (compile_lazy n)
  unfolding compile_lazy
  Ensures-compile_lazy = Ensures-bind (Ensures-child d n 1 h) λ name _.
      Ensures-bind (Ensures-child d n 2 h) λ params _.
        Ensures-bind (Ensures-child d n 3 h) λ docstring _.
          Ensures-then (Ensures-set_function (value name) _ empty) (Ensures-pure [] empty)

  pub Ensures-compile_try : Ensures Lowered (compile_try rec n)
  unfolding compile_try
  Ensures-compile_try = Ensures-bind (Ensures-child d n 1 h) λ binding hb.
      Ensures-bind (Ensures-child d binding 0 (omega arith)) λ name _.
        Ensures-bind (nested binding 1 hb) λ v hv.
          Ensures-bind (Ensures-child d n 2 h) λ handler hh.
            Ensures-bind (Ensures-child d handler 1 (omega arith)) λ error _.
              Ensures-bind (nested handler 2 hh) λ c hc.
                Ensures-bind (operand 3)
                  λ s hs. Ensures-pure _ (guarded (value name) (value error) hv hc hs)

  pub Ensures-compile_let : Ensures Lowered (compile_let rec n)
  unfolding compile_let is_plain spec_of
  Ensures-compile_let = Ensures-bind (Ensures-child d n 1 h) λ binding hb.
      Ensures-bind (Ensures-child d binding 0 (omega arith)) λ name _.
        Ensures-bind (nested binding 1 hb) λ v hv. Ensures-bind (operand 2) λ body hbody.
          Ensures-pure _ (
            join hv
              (Lowered-cons (with_string "STORE_VAR" store_var (value name)) (refl, refl) hbody))

  pub Ensures-compile_if : Ensures Lowered (compile_if rec n)
  unfolding compile_if
  Ensures-compile_if = Ensures-bind (operand 1) λ t ht. Ensures-bind (operand 2) λ c hc.
      Ensures-bind (Ensures-if _ (operand 3) (Ensures-pure [] empty))
        λ e he. Ensures-pure _ (branch ht hc he)

  pub Ensures-compile_while : Ensures Lowered (compile_while rec n)
  unfolding compile_while
  Ensures-compile_while =
      Ensures-bind (operand 1) λ t ht. Ensures-bind (operand 2) λ b hb. Ensures-pure _ (loop ht hb)

  pub Ensures-compile_for : Ensures Lowered (compile_for rec n)
  unfolding compile_for
  Ensures-compile_for = Ensures-bind (Ensures-child d n 1 h) λ item _.
      Ensures-bind (operand 2)
        λ items hi. Ensures-bind (operand 3) λ body hb. Ensures-pure _ (each (value item) hi hb)

  pub Ensures-compile_return : Ensures Lowered (compile_return rec n)
  unfolding compile_return is_plain spec_of
  Ensures-compile_return =
      Ensures-bind (Ensures-if _ (operand 1) (Ensures-pure _ (plain (load Value.nil) (refl, refl))))
        λ code hc. Ensures-pure _ (Lowered-snoc (instruction "RETURN" return_op) hc (refl, refl))

  pub Ensures-compile_logical : (head : String) → Ensures Lowered (compile_logical rec head n)
  unfolding compile_logical
  Ensures-compile_logical head = Ensures-then (Ensures-report_if _ _ n) (
      Ensures-bind (operand 1)
        λ l hl. Ensures-bind (operand 2) λ r hr. Ensures-pure _ (logical head hl hr))

  pub Ensures-compile_call : Ensures Lowered (compile_call rec n)
  unfolding compile_call is_plain spec_of
  Ensures-compile_call = Ensures-bind (Ensures-child d n 1 h) λ name _.
      Ensures-bind (Ensures-rest d n 2 h) λ args ha.
        Ensures-bind (Ensures-compile_list d rec ih args ha) λ code hc. Ensures-pure _ (
          Lowered-snoc
            (record (with_string "CALL" call (value name)) {
              int_operand = pos (length (children n) - 2);
            })
            hc (refl, refl))

  pub Ensures-compile_pairs :
      (pairs : List Node) → AllBelow d pairs → Ensures Lowered (compile_pairs rec pairs)
  unfolding compile_pairs
  Ensures-compile_pairs [] hp = Ensures-pure [] empty
  Ensures-compile_pairs (pair ∷ pairs) (hp, hps) =
      Ensures-bind
        (Ensures-if _ (Ensures-compile_range d rec ih pair 0 2 (omega arith))
          (Ensures-pure [] empty))
        λ a ha. Ensures-bind (Ensures-compile_pairs pairs hps) λ b hb. Ensures-pure _ (join ha hb)

  pub Ensures-compile_dict : Ensures Lowered (compile_dict rec n)
  unfolding compile_dict is_plain spec_of
  Ensures-compile_dict = Ensures-bind (Ensures-rest d n 1 h) λ pairs hp.
      Ensures-bind (Ensures-compile_pairs pairs hp) λ code hc. Ensures-pure _ (
        Lowered-snoc (with_int "MAKE_DICT" make_dict (pos (length (children n) - 1))) hc
          (refl, refl))

  pub Ensures-compile_map_get : Ensures Lowered (compile_map_get rec n)
  unfolding compile_map_get is_plain spec_of
  Ensures-compile_map_get = Ensures-then (Ensures-report_if _ _ n) (
      Ensures-bind (Ensures-child d n 1 h) λ dict hd.
        Ensures-bind {P = λ o. Lowered o.1}
          (Ensures-if _ (Ensures-pure _ empty)
            (Ensures-bind (ih dict hd) λ code hc. Ensures-pure _ hc))
          λ o ho. Ensures-bind (operand 2) λ key hk.
            Ensures-pure _
              (join ho (Lowered-snoc (with_string "MAP_GET" map_get o.0) hk (refl, refl))))
