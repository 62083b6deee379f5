-- ===== src/Vm/Moves.antt =====
-- The small operations of the machine of internal/vm/vm.go keep its account.
use howlframe.Capability.Grants.{Grants}
use howlframe.Vm.Keeps.{
  account, Account, Finished, limit_of, memory_limit_of, Later, Later-refl, Later-trans, Keeps,
  Keeps-unmoved, Keeps-pure, Keeps-stop, Keeps-gets, Keeps-fail, Keeps-if, Keeps-at, Keeps->>=,
  Keeps->>,
}
use howlframe.Vm.Monad.{
  fail_unless, Vm, on_result, on_option, store_result, some_or_fail, fail, push, pop, pop_from,
  pop_many, truncate_stack, bind_var, bind_top, load_var, find_var, store_var, assign_var,
  write_out, write_err,
}
use howlframe.Common.Result.{Result, ok, err}
use howlframe.Vm.Value.{string, text, Arg, Config, Val, State, Vars}
use howlframe.Vm.Guard.{
  over_memory, charge_bytes, charge_alloc, charge_slots, charge_text, charge_texts,
}
use howlframe.Common.{
  Bool, true, pos_part, ◌≤◌, le_refl, ◌+◌, ℤ, Bool-cases, negsuc, pos, false, arith, ◌≡◌, length,
  Option, ap, Option-cases, List, ℕ, String, suc, zero, none, inr, inl, refl, ◌∷◌, [], some,
}
use howlframe.Opcode.{Opcode}

-- The length of the environment's chain stays.
length-bind_top :
    (k : String) (v : Val) (frames : List Vars) → length (bind_top k v frames) ≡ length frames
unfolding bind_top
length-bind_top k v [] = refl
length-bind_top k v (vars ∷ frames) = refl

length-assign_var :
    (k : String) (v : Val) (frames : List Vars) {frames' : List Vars}
    → assign_var k v frames ≡ some frames'
    → length frames' ≡ length frames
unfolding assign_var
length-assign_var k v [] e = cc
length-assign_var k v (vars ∷ frames) e = elim (Option-cases (assign_var k v frames)) [
  | inl n ↦ ground (arith, n)
  | inr (found, h) ↦ ground (arith, h, length-assign_var k v frames h)
]

abbrev framed : State → ℕ → Account
framed s n = record (account s) { frames = n }

account-store_result :
    (o : Option (List Vars)) (s : State)
    → ((frames : List Vars) → o ≡ some frames → length frames ≡ length s.frames)
    → account (store_result o s).1 ≡ account s
account-store_result none s h = refl
account-store_result (some frames) s h = ap (framed s) (h frames refl)

Finished-store_result :
    (config : Config) (o : Option (List Vars)) (s : State) → Finished config (store_result o s).0
Finished-store_result config none s = tt
Finished-store_result config (some frames) s = tt

over_memory_le : (limit : ℤ) (n m : ℕ) → over_memory limit n m ≡ false → m + n ≤ pos_part limit
unfolding over_memory
over_memory_le (pos l) n m h = ground arith
over_memory_le (negsuc l) n m h = ground arith

charge-Later :
    (config : Config) (n : ℕ) (op : Opcode) (s : State)
    → Later config s (charge_bytes config n op s).1
unfolding charge_bytes fail
charge-Later config n op s =
    elim (Bool-cases (over_memory config.limits.max_memory_bytes n s.memory)) [
      | inl e ↦ rw (charge_bytes, e) (Later-refl s)
      | inr e ↦
          rw (charge_bytes, e)
            (record {
              executed_le = le_refl s.executed;
              executed_within = λ h. h;
              memory_le = omega arith;
              memory_within = λ h. over_memory_le _ _ _ e;
              call_depth_eq = refl;
              spawn_depth_eq = refl;
              grants_eq = refl;
              frames_eq = refl;
              world_eq = λ h. refl;
            })
    ]

charge_finishes :
    (config : Config) (n : ℕ) (op : Opcode) (s : State)
    → Finished config (charge_bytes config n op s).0
unfolding charge_bytes fail
charge_finishes config n op s =
    elim (Bool-cases (over_memory config.limits.max_memory_bytes n s.memory)) [
      | inl e ↦ rw (charge_bytes, e) tt
      | inr e ↦ rw (charge_bytes, e) tt
    ]

module _ {config : Config} {grants : Grants} {fuel : ℕ} where
  pub Keeps-push : (v : Val) → Keeps config grants fuel (push v)
  unfolding push
  Keeps-push v = Keeps-unmoved (λ s. refl) λ s. tt

  pub Keeps-truncate_stack : (n : ℕ) → Keeps config grants fuel (truncate_stack n)
  unfolding truncate_stack
  Keeps-truncate_stack n = Keeps-unmoved (λ s. refl) λ s. tt

  pub Keeps-bind_var : (k : String) (v : Val) → Keeps config grants fuel (bind_var k v)
  unfolding bind_var
  Keeps-bind_var k v = Keeps-unmoved (λ s. ap (framed s) (length-bind_top k v s.frames)) λ s. tt

  pub Keeps-store_var : (k : String) (v : Val) → Keeps config grants fuel (store_var k v)
  unfolding store_var
  Keeps-store_var k v =
      Keeps-unmoved
        (λ s.
          account-store_result (assign_var k v s.frames) s
            λ frames e. length-assign_var k v s.frames e)
        λ s. Finished-store_result config (assign_var k v s.frames) s

  pub Keeps-write_out : (t : String) → Keeps config grants fuel (write_out t)
  unfolding write_out
  Keeps-write_out t = Keeps-unmoved (λ s. refl) λ s. tt

  pub Keeps-write_err : (t : String) → Keeps config grants fuel (write_err t)
  unfolding write_err
  Keeps-write_err t = Keeps-unmoved (λ s. refl) λ s. tt

  Keeps-pop_from : (vs : List Val) (op : Opcode) → Keeps config grants fuel (pop_from vs op)
  unfolding pop_from
  Keeps-pop_from [] op = Keeps-fail _ _ _ _
  Keeps-pop_from (v ∷ vs) op = Keeps-unmoved (λ s. refl) λ s. tt

  pub Keeps-pop : (op : Opcode) → Keeps config grants fuel (pop op)
  unfolding pop
  Keeps-pop op = Keeps-at (λ s. pop_from s.stack op) λ s g. Keeps-pop_from s.stack op

  pub Keeps-pop_many :
      (n : ℕ) (op : Opcode) (vs : List Val) → Keeps config grants fuel (pop_many n op vs)
  unfolding pop_many
  Keeps-pop_many zero op vs = Keeps-pure vs
  Keeps-pop_many (suc n) op vs = Keeps->>= (Keeps-pop op) λ v. Keeps-pop_many n op (v ∷ vs)

  Keeps-some_or_fail :
      {A : Type 0} (o : Option A) (code : String) (op : Opcode) (format : String) (args : List Arg)
      → Keeps config grants fuel (some_or_fail o code op format args)
  Keeps-some_or_fail none code op format args = Keeps-fail code op format args
  Keeps-some_or_fail (some a) code op format args = Keeps-pure a

  pub Keeps-load_var : (k : String) (op : Opcode) → Keeps config grants fuel (load_var k op)
  unfolding load_var
  Keeps-load_var k op =
      Keeps-at
        (λ s.
          some_or_fail (find_var k s.frames) "UNDEFINED_VAR" op "undefined variable: %s"
            (text k ∷ []))
        λ s g. Keeps-some_or_fail (find_var k s.frames) _ op _ _

  pub Keeps-charge_bytes :
      (n : ℕ) (op : Opcode) → Keeps config grants fuel (charge_bytes config n op)
  Keeps-charge_bytes n op = record {
    later = λ s g. charge-Later config n op s;
    finishes = λ s g h. charge_finishes config n op s;
  }

  pub Keeps-charge_alloc :
      (n : ℤ) (op : Opcode) → Keeps config grants fuel (charge_alloc config n op)
  unfolding charge_alloc
  Keeps-charge_alloc (pos zero) op = Keeps-pure tt
  Keeps-charge_alloc (pos (suc n)) op = Keeps-charge_bytes (suc n) op
  Keeps-charge_alloc (negsuc n) op = Keeps-pure tt

  pub Keeps-charge_slots :
      (n size : ℤ) (op : Opcode) → Keeps config grants fuel (charge_slots config n size op)
  unfolding charge_slots
  Keeps-charge_slots n size op = Keeps-if _ (Keeps-fail _ _ _ _) (Keeps-charge_alloc _ op)

  pub Keeps-charge_text :
      (v : Val) (op : Opcode) → Keeps config grants fuel (charge_text config v op)
  unfolding charge_text
  Keeps-charge_text (string t) op = Keeps-charge_alloc _ op
  Keeps-charge_text _ op = Keeps-pure tt

  pub Keeps-charge_texts :
      (ts : List String) (op : Opcode) → Keeps config grants fuel (charge_texts config ts op)
  unfolding charge_texts
  Keeps-charge_texts [] op = Keeps-pure tt
  Keeps-charge_texts (t ∷ ts) op = Keeps->> (Keeps-charge_alloc _ op) (Keeps-charge_texts ts op)

  pub Keeps-fail_unless :
      (b : Bool) (code : String) (op : Opcode) (format : String) (args : List Arg)
      → Keeps config grants fuel (fail_unless b code op format args)
  unfolding fail_unless
  Keeps-fail_unless true code op format args = Keeps-pure tt
  Keeps-fail_unless false code op format args = Keeps-fail code op format args

  pub Keeps-fail_unless_at :
      (test : State → Bool) (code : String) (op : Opcode) (format : String) (args : List Arg)
      → Keeps config grants fuel (λ s. fail_unless (test s) code op format args s)
  Keeps-fail_unless_at test code op format args =
      Keeps-at (λ s. fail_unless (test s) code op format args)
        λ s g. Keeps-fail_unless (test s) code op format args

  pub Keeps-on_option :
      {A B : Type 0} (o : Option A) {m : Vm B} {f : A → Vm B}
      → Keeps config grants fuel m
      → ((a : A) → Keeps config grants fuel (f a))
      → Keeps config grants fuel (on_option o m f)
  unfolding on_option
  Keeps-on_option none p q = p
  Keeps-on_option (some a) p q = q a

  pub Keeps-on_result :
      {A B E : Type 0} (r : Result E A) {m : E → Vm B} {f : A → Vm B}
      → ((e : E) → Keeps config grants fuel (m e))
      → ((a : A) → Keeps config grants fuel (f a))
      → Keeps config grants fuel (on_result r m f)
  unfolding on_result
  Keeps-on_result (err e) p q = p e
  Keeps-on_result (ok a) p q = q a

pub ruleset moves = (
  Keeps-pure, Keeps-gets, Keeps-fail, Keeps-if, Keeps->>=, Keeps->>, Keeps-push,
  Keeps-truncate_stack, Keeps-bind_var, Keeps-store_var, Keeps-write_out, Keeps-write_err,
  Keeps-pop, Keeps-pop_many, Keeps-load_var, Keeps-charge_alloc, Keeps-charge_slots,
  Keeps-charge_text, Keeps-charge_texts, Keeps-on_option, Keeps-on_result, Keeps-fail_unless,
)
