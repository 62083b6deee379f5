-- ===== src/Compile/Closed.antt =====
-- Compiled code keeps its jumps and its bodies inside itself.
use howlframe.Opcode.{binop, is_registered}
use howlframe.Program.{bool, Instruction}
use howlframe.Compile.Monad.{Code}
use howlframe.Common.{
  str_eq, Bool-cases, String, inr, inl, false, sub_ℕ, pos, refl, length-append, ◌++◌, arith, ◌+◌,
  length, true, ◌∷◌, [],
}
use howlframe.Compile.Lowered.{
  empty, holder, logical, guarded, each, loop, branch, join, plain, IsHolder, Lowered,
}
use howlframe.Compile.Emit.{
  with_string, load, short_circuit, emit_or, emit_and, emit_body, emit_try, emit_for, jump_by,
  emit_while, emit_if,
}
use howlframe.Compile.Fits.{
  Closed, inside, Closed-then, forward-fits, unless-fits, back-fits, plain_opcode-fits,
  holder_opcode-fits,
}

Closed-emit_if : (t c e : Code) → Closed t → Closed c → Closed e → Closed (emit_if t c e)
unfolding emit_if
Closed-emit_if t c [] ht hc he =
    Closed-then 0 0 t _ ht
      (unless-fits _ (length c + 1) (length c + 0) (omega arith), inside _ 0 c hc)
Closed-emit_if t c (x ∷ xs) ht hc he =
    let skip = jump_by (pos (length (x ∷ xs) + 1)) ∷ (x ∷ xs) in
    Closed-then 0 0 t _ ht (
      unless-fits _ (length c + 2) (length (c ++ skip) + 0) (omega (arith, length-append c skip)),
      Closed-then _ 0 c _ hc (
        forward-fits _ (length (x ∷ xs) + 1) (length (x ∷ xs) + 0) (omega arith),
        inside _ 0 (x ∷ xs) he,
      ),
    )

Closed-emit_while : (t b : Code) → Closed t → Closed b → Closed (emit_while t b)
unfolding emit_while
Closed-emit_while t b ht hb =
    let back = jump_by (sub_ℕ 0 (length t + 1 + length b)) ∷ [] in
    Closed-then 0 0 t _ ht (
      unless-fits _ (length b + 2) (length (b ++ back) + 0) (omega (arith, length-append b back)),
      Closed-then _ 0 b _ hb (back-fits _ (length t + 1 + length b) 0 (omega arith), tt),
    )

Closed-emit_for :
    (item : String) (items body : Code)
    → Closed items
    → Closed body
    → Closed (emit_for item items body)
unfolding emit_for is_registered
Closed-emit_for item items body hi hb =
    let back = jump_by (sub_ℕ 0 (length body + 1)) ∷ [] in
    Closed-then 0 0 items _ hi (
      (refl, tt, tt),
      (
        (refl, omega (arith, length-append body back), tt),
        Closed-then _ 0 body _ hb (back-fits _ (length body + 1) 0 (omega arith), tt),
      ),
    )

Closed-append : (xs ys : Code) → Closed xs → Closed ys → Closed (xs ++ ys)
Closed-append xs ys hx hy = Closed-then 0 0 xs ys hx (inside _ 0 ys hy)

Closed-emit_try :
    (name error : String) (v c s : Code)
    → Closed v
    → Closed c
    → Closed s
    → Closed (emit_try name error v c s)
unfolding emit_try is_registered
Closed-emit_try name error v c s hv hc hs = (
  (refl, tt, (refl, refl, refl, omega (arith, length-append v (c ++ s), length-append c s))),
  inside _ 0 (v ++ (c ++ s)) (Closed-append v (c ++ s) hv (Closed-append c s hc hs)),
)

Closed-emit_body :
    (inst : Instruction) (b : Code) → IsHolder inst → Closed b → Closed (emit_body inst b)
unfolding emit_body
Closed-emit_body inst b (h, named) hb = (
  holder_opcode-fits 0 (length b + 0) inst.op (record inst { int_operand = pos (length b) })
      (length b) h refl (omega arith),
  inside _ 0 b hb,
)

Closed-emit_and : (l r : Code) → Closed l → Closed r → Closed (emit_and l r)
unfolding emit_and is_registered
Closed-emit_and l r hl hr =
    let tail =
      load (bool true)
      ∷ with_string "BINOP" binop "and"
      ∷ jump_by (pos 2)
      ∷ load (bool false)
      ∷ [] in
    Closed-then 0 0 l _ hl (
      unless-fits _ (length r + 4) (length (r ++ tail) + 0) (omega (arith, length-append r tail)),
      Closed-then _ 0 r _ hr (
        (refl, tt, tt),
        ((refl, tt, tt), (forward-fits _ 2 1 (omega arith), ((refl, tt, tt), tt))),
      ),
    )

Closed-emit_or : (l r : Code) → Closed l → Closed r → Closed (emit_or l r)
unfolding emit_or is_registered
Closed-emit_or l r hl hr =
    let tail = load (bool false) ∷ with_string "BINOP" binop "or" ∷ [] in
    Closed-then 0 0 l _ hl (
      unless-fits _ 3 (length (load (bool true) ∷ (jump_by (pos (length r + 3)) ∷ (r ++ tail))) + 0)
          (omega arith),
      (
        (refl, tt, tt),
        (
          forward-fits _ (length r + 3) (length (r ++ tail) + 0)
              (omega (arith, length-append r tail)),
          Closed-then _ 0 r _ hr ((refl, tt, tt), ((refl, tt, tt), tt)),
        ),
      ),
    )

Closed-short_circuit :
    (op : String) (l r : Code) → Closed l → Closed r → Closed (short_circuit op l r)
unfolding short_circuit
Closed-short_circuit op l r hl hr = elim (Bool-cases (str_eq op "and")) [
  | inl e ↦ rw e (Closed-emit_and l r hl hr)
  | inr e ↦ rw e (Closed-emit_or l r hl hr)
]

-- Compiled code keeps its jumps and bodies inside itself.
pub Lowered-Closed : {code : Code} → Lowered code → Closed code
Lowered-Closed empty = tt
Lowered-Closed (plain inst (p, named)) = (plain_opcode-fits 0 0 inst.op inst p, tt)
Lowered-Closed (join {a} {b} ha hb) = Closed-append a b (Lowered-Closed ha) (Lowered-Closed hb)
Lowered-Closed (branch {t} {c} {e} ht hc he) =
    Closed-emit_if t c e (Lowered-Closed ht) (Lowered-Closed hc) (Lowered-Closed he)
Lowered-Closed (loop {t} {b} ht hb) = Closed-emit_while t b (Lowered-Closed ht) (Lowered-Closed hb)
Lowered-Closed (each {items} {body} item hi hb) =
    Closed-emit_for item items body (Lowered-Closed hi) (Lowered-Closed hb)
Lowered-Closed (guarded {v} {c} {s} name error hv hc hs) =
    Closed-emit_try name error v c s (Lowered-Closed hv) (Lowered-Closed hc) (Lowered-Closed hs)
Lowered-Closed (logical {l} {r} op hl hr) =
    Closed-short_circuit op l r (Lowered-Closed hl) (Lowered-Closed hr)
Lowered-Closed (holder {b} inst h hb) = Closed-emit_body inst b h (Lowered-Closed hb)
