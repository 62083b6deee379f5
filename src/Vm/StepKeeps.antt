-- ===== src/Vm/StepKeeps.antt =====
-- One round of the loop of internal/vm/vm.go keeps the machine's account, if the code that it runs
-- does.
use howlframe.Capability.Grants.{Grants}
use howlframe.Capability.{no_capability}
use howlframe.Program.{Instruction}
use howlframe.Opcode.{Opcode}
use howlframe.Vm.Moves.{moves, Keeps-pop}
use howlframe.Vm.Keeps.{
  Later-refl, IsStuck, Keeps, Keeps-pure, Keeps-stop, Keeps->>=, Keeps->>, Keeps-stuck, Later,
  Later-trans, Finished, limit_of,
}
use howlframe.Vm.Value.{State, Host, Config}
use howlframe.Vm.Monad.{pure, Vm, ◌>>=◌, ◌>>◌, on_option, fail_unless, fail}
use howlframe.Vm.Guard.{
  authorize, check_limit, count_instruction, capability_of, instruction_limit, is_request,
}
use howlframe.Vm.Control.{advance, Run, Next}
use howlframe.Vm.Run.{exec_set_var, exec_plain, exec_op, step}
use howlframe.Vm.CallsKeeps.{Keeps-authorize, Keeps-check_deadline, Keeps-set_ip}
use howlframe.Vm.EffectKeeps.{
  Keeps-exec_effect, Keeps-exec_spawn_agent, Keeps-exec_call, grants_cases,
}
use howlframe.Vm.ControlKeeps.{
  Keeps-exec_jump_if_false, Keeps-exec_for_init, Keeps-exec_for_next, Keeps-exec_try_let,
}
use howlframe.Vm.DataKeeps.{
  Keeps-exec_print, Keeps-exec_stderr, Keeps-exec_binop, Keeps-exec_convert, Keeps-exec_str_split,
  Keeps-exec_str_join, Keeps-exec_regex_match, Keeps-exec_make_list, Keeps-exec_append,
  Keeps-exec_list_get, Keeps-exec_list_len, Keeps-exec_is_nil, Keeps-exec_encode_json,
  Keeps-exec_escape, Keeps-exec_secure_equal, Keeps-exec_cli_args, Keeps-exec_cli_args_get,
}
use howlframe.Vm.MapsKeeps.{
  Keeps-exec_make_dict, Keeps-exec_map_set, Keeps-exec_map_delete, Keeps-exec_map_get,
  Keeps-exec_map_keys,
}
use howlframe.Vm.Ungranted.{authorize-IsStuck}
use howlframe.Common.{
  ◌-◌, Bool, le_refl, arith, pos_part, ◌<◌, ltb_ℤ, Bool-cases, ℤ, inr, inl, negsuc, pos, suc, true,
  ◌≢◌, sym, str_eq, subst, ◌≡◌, Option, List, String, ℕ, refl, false, [], none, some,
}
use howlframe.Vm.Calls.{exec_effect}

module _ {config : Config} {grants : Grants} {fuel : ℕ} where
  Keeps-exec_set_var :
      (name : String) (op : Opcode) → Keeps config grants fuel (exec_set_var name op)
  unfolding exec_set_var
  Keeps-exec_set_var name op = search (moves)

-- The code of a plain instruction, if there is one, keeps the account.
PlainKeeps : Config → Grants → ℕ → Option (Vm (Unit {0})) → Type 0
PlainKeeps config grants fuel none = Unit
PlainKeeps config grants fuel (some m) = Keeps config grants fuel m

below_limit : (e : ℕ) (limit : ℤ) → ltb_ℤ (pos e) limit ≡ true → e < pos_part limit
below_limit e (pos l) h = ground arith
below_limit e (negsuc l) h = ground arith

module _ (config : Config) (grants : Grants) (fuel : ℕ) (host : Host) (rec : Run)
    (k : (g : Grants) (insts : List Instruction) → Keeps config g fuel (rec insts)) where
  Keeps-exec_plain :
      (op : Opcode) (i : Instruction)
      → i.op ≡ op
      → PlainKeeps config grants fuel (exec_plain host config rec op i)
  unfolding exec_plain is_request PlainKeeps
  Keeps-exec_plain Opcode.load_const i e = search (moves)
  Keeps-exec_plain Opcode.load_var i e = search (moves)
  Keeps-exec_plain Opcode.store_var i e = search (moves)
  Keeps-exec_plain Opcode.set_var i e = Keeps-exec_set_var i.string_operand i.op
  Keeps-exec_plain Opcode.call i e =
      Keeps-exec_call host rec k i (subst (λ o. is_request o ≡ false) (sym e) refl)
  Keeps-exec_plain Opcode.return i e = Keeps->>= (Keeps-pop i.op) λ v. Keeps-stop _ tt
  Keeps-exec_plain Opcode.print i e = Keeps-exec_print host _ _
  Keeps-exec_plain Opcode.stderr i e = Keeps-exec_stderr host _
  Keeps-exec_plain Opcode.exit i e = Keeps->>= (Keeps-pop i.op) λ v. Keeps-stop _ tt
  Keeps-exec_plain Opcode.binop i e = Keeps-exec_binop host _ _
  Keeps-exec_plain Opcode.convert i e = Keeps-exec_convert host _ _
  Keeps-exec_plain Opcode.str_split i e = Keeps-exec_str_split host _
  Keeps-exec_plain Opcode.str_join i e = Keeps-exec_str_join host _
  Keeps-exec_plain Opcode.regex_match i e = Keeps-exec_regex_match host _
  Keeps-exec_plain Opcode.make_list i e = Keeps-exec_make_list host _ _
  Keeps-exec_plain Opcode.make_dict i e = Keeps-exec_make_dict host _ _
  Keeps-exec_plain Opcode.append i e = Keeps-exec_append host _ _
  Keeps-exec_plain Opcode.map_set i e = Keeps-exec_map_set host _ _
  Keeps-exec_plain Opcode.map_delete i e = Keeps-exec_map_delete host _ _
  Keeps-exec_plain Opcode.map_get i e = Keeps-exec_map_get host _ _
  Keeps-exec_plain Opcode.list_get i e = Keeps-exec_list_get host _ _
  Keeps-exec_plain Opcode.list_len i e = Keeps-exec_list_len host _
  Keeps-exec_plain Opcode.map_keys i e = Keeps-exec_map_keys host _
  Keeps-exec_plain Opcode.is_nil i e = Keeps-exec_is_nil host _
  Keeps-exec_plain Opcode.encode_json i e = Keeps-exec_encode_json host _
  Keeps-exec_plain Opcode.html_escape i e = Keeps-exec_escape host _ _
  Keeps-exec_plain Opcode.attr_escape i e = Keeps-exec_escape host _ _
  Keeps-exec_plain Opcode.secure_equal i e = Keeps-exec_secure_equal host _
  Keeps-exec_plain Opcode.cli_args i e = Keeps-exec_cli_args host
  Keeps-exec_plain Opcode.cli_args_get i e = Keeps-exec_cli_args_get host _
  Keeps-exec_plain Opcode.task i e = search (moves)
  Keeps-exec_plain Opcode.unknown i e = search (moves)
  Keeps-exec_plain (Opcode.numbered n) i e = search (moves)
  Keeps-exec_plain _ i e = tt

module _ {config : Config} {grants : Grants} {fuel : ℕ} (host : Host) (rec : Run)
    (k : (g : Grants) (insts : List Instruction) → Keeps config g fuel (rec insts)) where
  Keeps-plain_or_effect :
      (i : Instruction) (ip : ℕ) (bases : List ℕ) (o : Option (Vm (Unit {0})))
      → PlainKeeps config grants fuel o
      → (str_eq (capability_of i.op) no_capability ≡ false → grants ≢ [])
      → Keeps config grants fuel
          (on_option o (exec_effect host config i ip bases) λ m. m >> advance ip bases 0)
  unfolding on_option PlainKeeps
  Keeps-plain_or_effect i ip bases none p given = Keeps-exec_effect host i ip bases given
  Keeps-plain_or_effect i ip bases (some m) p given = Keeps->> p (Keeps-pure _)

  Keeps-exec_op :
      (op : Opcode) (insts : List Instruction) (i : Instruction) (ip : ℕ) (bases : List ℕ)
      → i.op ≡ op
      → (str_eq (capability_of i.op) no_capability ≡ false → grants ≢ [])
      → Keeps config grants fuel (exec_op host config rec op insts i ip bases)
  unfolding exec_op exec_plain on_option
  Keeps-exec_op Opcode.try_let insts i ip bases e given =
      Keeps-exec_try_let host rec (k grants) insts i ip bases
  Keeps-exec_op Opcode.jump_if_false insts i ip bases e given =
      Keeps-exec_jump_if_false ip bases _ _
  Keeps-exec_op Opcode.jump insts i ip bases e given = Keeps-pure _
  Keeps-exec_op Opcode.for_init insts i ip bases e given = Keeps-exec_for_init ip bases _
  Keeps-exec_op Opcode.for_next insts i ip bases e given = Keeps-exec_for_next host i ip bases
  Keeps-exec_op Opcode.spawn_agent insts i ip bases e given =
      Keeps-exec_spawn_agent host rec k insts i ip bases
  Keeps-exec_op op insts i ip bases e given =
      Keeps-plain_or_effect i ip bases (exec_plain host config rec op i)
        (Keeps-exec_plain config grants fuel host rec k op i e) given

  -- What follows the capability check runs with a grant, or needs none.
  Keeps-authorized :
      {B : Type 0} (insts : List Instruction) (i : Instruction) (ip : ℕ) (bases : List ℕ)
      {again : Next → Vm B}
      → ((next : Next) → Keeps config grants fuel (again next))
      → Keeps config grants fuel
          (authorize host i >> (exec_op host config rec i.op insts i ip bases >>= again))
  Keeps-authorized insts i ip bases next = elim (grants_cases grants) [
    | inr given ↦
        Keeps->> (Keeps-authorize host i)
          (Keeps->>= (Keeps-exec_op i.op insts i ip bases refl λ _. given) next)
    | inl empty ↦ elim (Bool-cases (str_eq (capability_of i.op) no_capability)) [
      | inl free ↦
          Keeps->> (Keeps-authorize host i)
            (Keeps->>= (Keeps-exec_op i.op insts i ip bases refl λ h. cc) next)
      | inr needed ↦
          Keeps-stuck _
            (subst (λ g. IsStuck g (authorize host i)) (sym empty)
              (authorize-IsStuck config host i needed))
            (Keeps-authorize host i)
    ]
  ]

module _ {config : Config} {grants : Grants} {fuel : ℕ} {B : Type 0} (m : Vm B)
    (k : Keeps config grants fuel m) where
  abbrev counted : State → State
  counted s = record s { executed = suc s.executed }

  count-Later : (s : State) → s.executed < limit_of config → Later config s (counted s)
  count-Later s h = record {
    executed_le = omega arith;
    executed_within = λ l. h;
    memory_le = le_refl s.memory;
    memory_within = λ l. l;
    call_depth_eq = refl;
    spawn_depth_eq = refl;
    grants_eq = refl;
    frames_eq = refl;
    world_eq = λ e. refl;
  }

  limited-Later :
      (b : Bool) (op : Opcode) (s : State)
      → s.grants ≡ grants
      → (b ≡ true → s.executed < limit_of config)
      → Later config s
          ((fail_unless b "LIMIT_EXCEEDED" op "instruction limit exceeded" []
              >> (count_instruction >> m))
            s).1
  unfolding count_instruction fail_unless fail pure ◌>>◌ ◌>>=◌
  limited-Later true op s g h = Later-trans (count-Later s (h refl)) (k.later (counted s) g)
  limited-Later false op s g h = Later-refl s

  limited_finishes :
      (b : Bool) (op : Opcode) (s : State)
      → s.grants ≡ grants
      → (b ≡ true → s.executed < limit_of config)
      → limit_of config - s.executed < suc fuel
      → Finished config
          ((fail_unless b "LIMIT_EXCEEDED" op "instruction limit exceeded" []
              >> (count_instruction >> m))
            s).0
  unfolding count_instruction fail_unless fail pure ◌>>◌ ◌>>=◌
  limited_finishes true op s g h l = let below = h refl in k.finishes (counted s) g (omega arith)
  limited_finishes false op s g h l = tt

  -- What is counted may use one unit of fuel less.
  Keeps-counted :
      (op : Opcode)
      → Keeps config grants (suc fuel) (check_limit config op >> (count_instruction >> m))
  unfolding check_limit ◌>>◌ ◌>>=◌
  Keeps-counted op = record {
    later = λ s g.
        limited-Later (ltb_ℤ (pos s.executed) (instruction_limit config)) op s g
          (below_limit s.executed (instruction_limit config));
    finishes = λ s g.
        limited_finishes (ltb_ℤ (pos s.executed) (instruction_limit config)) op s g
          (below_limit s.executed (instruction_limit config));
  }

module _ {config : Config} {grants : Grants} {fuel : ℕ} (host : Host) (rec : Run)
    (k : (g : Grants) (insts : List Instruction) → Keeps config g fuel (rec insts)) where
  -- A round and what follows it: it uses one unit of fuel.
  pub Keeps-step :
      (insts : List Instruction) (i : Instruction) (ip : ℕ) (bases : List ℕ)
      {again : Next → Vm (Unit {0})}
      → ((next : Next) → Keeps config grants fuel (again next))
      → Keeps config grants (suc fuel) (step host config rec insts i ip bases again)
  unfolding step
  Keeps-step insts i ip bases next = Keeps->> (Keeps-set_ip (pos ip)) (
      Keeps->> (Keeps-check_deadline host i.op)
        (Keeps-counted _ (Keeps-authorized host rec k insts i ip bases next) i.op))
