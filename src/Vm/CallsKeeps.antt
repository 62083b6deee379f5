-- ===== src/Vm/CallsKeeps.antt =====
-- The instructions of internal/vm/vm.go that run other code, and those of the host, keep the
-- machine's account.
use howlframe.Capability.Grants.{Grants}
use howlframe.Common.Result.{Result, ok, err}
use howlframe.Program.{Instruction, Function}
use howlframe.Opcode.{Opcode}
use howlframe.Vm.Moves.{Keeps-fail_unless_at, moves, Keeps-bind_var}
use howlframe.Vm.Keeps.{
  Keeps-at, Keeps->>, Keeps, Keeps-stop, Keeps-unmoved, Later, Finished, Account, account,
}
use howlframe.Vm.Value.{State, Host, Config, Vars, Effect, VmError}
use howlframe.Vm.Monad.{
  stop, Vm, Outcome, done, returned, exited, failed, crashed, lost, out_of_fuel,
}
use howlframe.Vm.Calls.{
  when_back, check_spawn_depth, check_call_depth, find_function, check_arity, found_function,
  charge_all, bind_all, set_effect, effect_result, apply_effect, set_world, call_result, in_frame,
  set_function, child_state, parent_state, agent_result, in_child,
}
use howlframe.Common.{
  Bool-cases, if◌then◌else◌, inr, inl, ℤ, lookup, Option, none, some, ◌∙◌, le_refl, sym, String,
  ◌≢◌, ◌-◌, length, ◌≡◌, drop, List, arith, ℕ, refl, suc, ◌∷◌, [],
}
use howlframe.Vm.Guard.{
  request_refusal, set_ip, check_deadline, authorize, preauthorize_fetch, refuse_request,
  require_registered, require_capability,
}
use howlframe.Capability.{Capability}

abbrev framed : State → ℕ → Account
framed s n = record (account s) { frames = n }

call_result_finishes :
    (config : Config) (r : Outcome (Unit {0})) → Finished config r → Finished config (call_result r)
unfolding call_result
call_result_finishes config (done a) h = tt
call_result_finishes config (returned v) h = tt
call_result_finishes config (exited c) h = tt
call_result_finishes config (failed e) h = tt
call_result_finishes config (crashed m) h = tt
call_result_finishes config lost h = h
call_result_finishes config out_of_fuel h = h

agent_result_finishes :
    (config : Config) (host : Host) (r : Outcome (Unit {0}))
    → Finished config r
    → Finished config (agent_result host r)
unfolding agent_result
agent_result_finishes config host (done a) h = tt
agent_result_finishes config host (returned v) h = tt
agent_result_finishes config host (exited c) h = tt
agent_result_finishes config host (failed e) h = ground arith
agent_result_finishes config host (crashed m) h = tt
agent_result_finishes config host lost h = h
agent_result_finishes config host out_of_fuel h = h

length-drop_1 : {A : Type 0} (xs : List A) {n : ℕ} → length xs ≡ suc n → length (drop 1 xs) ≡ n
length-drop_1 [] e = omega (arith, e)
length-drop_1 (x ∷ xs) e = omega (arith, e)

-- The caller's account from the callee's.
frame-Later :
    {config : Config} (vars : Vars) (s s' : State)
    → Later config (record s { frames = vars ∷ s.frames; call_depth = suc s.call_depth }) s'
    → Later config s (record s' { frames = drop 1 s'.frames; call_depth = s'.call_depth - 1 })
frame-Later vars s s' l = record {
  executed_le = l.executed_le;
  executed_within = l.executed_within;
  memory_le = l.memory_le;
  memory_within = l.memory_within;
  call_depth_eq = let e = l.call_depth_eq in omega (arith, e);
  spawn_depth_eq = l.spawn_depth_eq;
  grants_eq = l.grants_eq;
  frames_eq = length-drop_1 s'.frames l.frames_eq;
  world_eq = l.world_eq;
}

-- The parent's account from its agent's.
child-Later :
    {config : Config} (host : Host) (child : Grants) (s c : State)
    → (s.grants ≡ [] → child ≡ [])
    → Later config (child_state host child s) c
    → Later config s (parent_state s c)
unfolding child_state parent_state
child-Later host child s c none_given l = record {
  executed_le = l.executed_le;
  executed_within = l.executed_within;
  memory_le = l.memory_le;
  memory_within = l.memory_within;
  call_depth_eq = refl;
  spawn_depth_eq = refl;
  grants_eq = refl;
  frames_eq = refl;
  world_eq = λ g. l.world_eq (none_given g);
}

module _ {config : Config} {grants : Grants} {fuel : ℕ} where
  Keeps-charge_all :
      (ns : List ℕ) (op : Opcode) → Keeps config grants fuel (charge_all config ns op)
  unfolding charge_all
  Keeps-charge_all [] op = search (moves)
  Keeps-charge_all (n ∷ ns) op = search (moves, Keeps-charge_all ns)

  Keeps-bind_all : (vs : Vars) → Keeps config grants fuel (bind_all vs)
  unfolding bind_all
  Keeps-bind_all [] = search (moves)
  Keeps-bind_all ((k, v) ∷ vs) = Keeps->> (Keeps-bind_var k v) (Keeps-bind_all vs)

  Keeps-set_effect : (e : Effect) → Keeps config grants fuel (set_effect e)
  unfolding set_effect
  Keeps-set_effect e = Keeps-unmoved {m = set_effect e} (λ s. refl) λ s. tt

  Keeps-effect_result :
      (r : Result VmError ℕ) (vs : Vars) → Keeps config grants fuel (effect_result r vs)
  unfolding effect_result
  Keeps-effect_result (ok n) vs = search (moves, Keeps-bind_all)
  Keeps-effect_result (err e) vs = Keeps-stop _ tt

  pub Keeps-apply_effect :
      (e : Effect) (op : Opcode) → Keeps config grants fuel (apply_effect config e op)
  unfolding apply_effect
  Keeps-apply_effect e op = search (moves, Keeps-set_effect, Keeps-charge_all, Keeps-effect_result)

  -- Code of the host that comes back, or is lost.
  pub Keeps-when_back :
      {A : Type 0} (op : Opcode) {m : Vm A}
      → Keeps config grants fuel m
      → Keeps config grants fuel (when_back config op m)
  unfolding when_back
  Keeps-when_back op {m} k =
      Keeps-at (λ s. if config.outside.comes_back op s then m else stop lost)
        λ s g. elim (Bool-cases (config.outside.comes_back op s)) [
          | inl e ↦ rw e k
          | inr e ↦ rw e (Keeps-stop lost λ back. let f = back.comes_back_eq op s in cc (e, f))
        ]

  -- The world changes only with a grant.
  pub Keeps-set_world : grants ≢ [] → (w : ℕ) → Keeps config grants fuel (set_world w)
  unfolding set_world
  Keeps-set_world given w = record {
    later = λ s g. record {
      executed_le = le_refl s.executed;
      executed_within = λ h. h;
      memory_le = le_refl s.memory;
      memory_within = λ h. h;
      call_depth_eq = refl;
      spawn_depth_eq = refl;
      grants_eq = refl;
      frames_eq = refl;
      world_eq = λ none. absurd (given (sym g ∙ none));
    };
    finishes = λ s g h. tt;
  }

  pub Keeps-set_function :
      (k : String) (fn : Function) → Keeps config grants fuel (set_function k fn)
  unfolding set_function
  Keeps-set_function k fn = Keeps-unmoved (λ s. refl) λ s. tt

  pub Keeps-in_frame :
      (vars : Vars) (m : Vm (Unit {0}))
      → Keeps config grants fuel m
      → Keeps config grants fuel (in_frame vars m)
  unfolding in_frame
  Keeps-in_frame vars m k = record {
    later = λ s g. frame-Later vars s _ (k.later _ g);
    finishes = λ s g h. call_result_finishes config _ (k.finishes _ g h);
  }

  pub Keeps-in_child :
      (host : Host) (child : Grants) (m : Vm (Unit {0}))
      → (grants ≡ [] → child ≡ [])
      → Keeps config child fuel m
      → Keeps config grants fuel (in_child host child m)
  unfolding in_child child_state
  Keeps-in_child host child m none_given k = record {
    later = λ s g.
        child-Later host child s _ (λ h. none_given (sym g ∙ h))
          (k.later (child_state host child s) refl);
    finishes =
        λ s g h. agent_result_finishes config host _ (k.finishes (child_state host child s) refl h);
  }

  Keeps-found_function :
      (host : Host) (k : String) (op : Opcode) (o : Option (Option Function))
      → Keeps config grants fuel (found_function host config k op o)
  unfolding found_function
  Keeps-found_function host k op none = search (moves)
  Keeps-found_function host k op (some none) = Keeps-stop _ tt
  Keeps-found_function host k op (some (some fn)) = search (moves)

  pub Keeps-find_function :
      (host : Host) (k : String) (op : Opcode)
      → Keeps config grants fuel (find_function host config k op)
  unfolding find_function
  Keeps-find_function host k op =
      Keeps-at (λ s. found_function host config k op (lookup k s.functions))
        λ s g. Keeps-found_function host k op (lookup k s.functions)

  pub Keeps-check_arity :
      (host : Host) (k : String) (fn : Function) (n : ℤ) (op : Opcode)
      → Keeps config grants fuel (check_arity host config k fn n op)
  unfolding check_arity
  Keeps-check_arity host k fn n op = search (moves)

  pub Keeps-check_call_depth :
      (host : Host) (op : Opcode) → Keeps config grants fuel (check_call_depth host config op)
  unfolding check_call_depth
  Keeps-check_call_depth host op = Keeps-fail_unless_at _ _ _ _ _

  pub Keeps-check_spawn_depth :
      (host : Host) (op : Opcode) → Keeps config grants fuel (check_spawn_depth host config op)
  unfolding check_spawn_depth
  Keeps-check_spawn_depth host op = Keeps-fail_unless_at _ _ _ _ _

  pub Keeps-require_capability :
      (host : Host) (c : Capability) (op : Opcode)
      → Keeps config grants fuel (require_capability host c op)
  unfolding require_capability
  Keeps-require_capability host c op = Keeps-fail_unless_at _ _ _ _ _

  pub Keeps-require_registered :
      (host : Host) (op : Opcode) → Keeps config grants fuel (require_registered host op)
  unfolding require_registered
  Keeps-require_registered host op = search (moves, Keeps-require_capability)

  Keeps-refuse_request :
      (op : Opcode) (r : Option (String × String)) → Keeps config grants fuel (refuse_request op r)
  unfolding refuse_request
  Keeps-refuse_request op none = search (moves)
  Keeps-refuse_request op (some (reason, required)) = search (moves)

  pub Keeps-preauthorize_fetch :
      (host : Host) (i : Instruction) → Keeps config grants fuel (preauthorize_fetch host i)
  unfolding preauthorize_fetch
  Keeps-preauthorize_fetch host i =
      Keeps-at (λ s. refuse_request i.op (request_refusal host i s))
        λ s g. Keeps-refuse_request i.op (request_refusal host i s)

  pub Keeps-authorize :
      (host : Host) (i : Instruction) → Keeps config grants fuel (authorize host i)
  unfolding authorize
  Keeps-authorize host i = search (moves, Keeps-require_registered, Keeps-preauthorize_fetch)

  pub Keeps-check_deadline :
      (host : Host) (op : Opcode) → Keeps config grants fuel (check_deadline host config op)
  unfolding check_deadline
  Keeps-check_deadline host op = Keeps-fail_unless_at _ _ _ _ _

  pub Keeps-set_ip : (ip : ℤ) → Keeps config grants fuel (set_ip ip)
  unfolding set_ip
  Keeps-set_ip ip = Keeps-unmoved (λ s. refl) λ s. tt
