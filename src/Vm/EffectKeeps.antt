-- ===== src/Vm/EffectKeeps.antt =====
-- CALL, SPAWN_AGENT and the host's instructions of internal/vm/vm.go keep the machine's account.
use howlframe.Capability.Grants.{Grants, attenuate}
use howlframe.Capability.{no_capability, network}
use howlframe.Common.Result.{Result, ok, err}
use howlframe.Program.{Instruction, Function}
use howlframe.Opcode.{Opcode}
use howlframe.Vm.Moves.{moves, Keeps-pop}
use howlframe.Vm.Keeps.{
  Keeps-stuck_bind, Keeps, Keeps-pure, Keeps->>=, Keeps->>, Keeps-stuck, Keeps-if, Keeps-fail,
  Keeps-at, IsStuck,
}
use howlframe.Vm.Value.{Arg, text, Val, string, Host, Config}
use howlframe.Vm.Monad.{Vm, ◌>>=◌, ◌>>◌, on_result, pure, fail}
use howlframe.Vm.Guard.{is_request, require_capability, capability_of}
use howlframe.Vm.Control.{Run}
use howlframe.Vm.Calls.{
  when_back, exec_guarded, exec_unguarded, exec_effect, synthesize, synthesized, exec_call,
  requested, attenuate_child, run_body, report_agent, expect_task, body_length, exec_spawn_agent,
}
use howlframe.Vm.CallsKeeps.{
  Keeps-when_back, Keeps-apply_effect, Keeps-set_world, Keeps-set_function, Keeps-in_frame,
  Keeps-in_child, Keeps-find_function, Keeps-check_arity, Keeps-check_call_depth,
  Keeps-check_spawn_depth, Keeps-require_capability,
}
use howlframe.Vm.Ungranted.{attenuate-none, require_capability-IsStuck}
use howlframe.Common.{
  Option, ℤ, ◌∙◌, some, sym, subst, Bool-cases, str_eq, String, List, ◌≢◌, ◌⊎◌, ℕ, ◌≡◌, inr, inl,
  refl, false, ◌∷◌, [], none,
}

-- Some grant or none.
pub grants_cases : (g : Grants) → (g ≡ []) ⊎ (g ≢ [])
grants_cases [] = inl refl
grants_cases (c ∷ g) = inr λ e. cc

module _ {config : Config} {grants : Grants} {fuel : ℕ} where
  Keeps-exec_unguarded :
      (host : Host) (i : Instruction) → Keeps config grants fuel (exec_unguarded host config i)
  unfolding exec_unguarded
  Keeps-exec_unguarded host i = search (moves, Keeps-apply_effect)

  Keeps-exec_guarded :
      (host : Host) (i : Instruction)
      → grants ≢ []
      → Keeps config grants fuel (exec_guarded host config i)
  unfolding exec_guarded
  Keeps-exec_guarded host i given = search (moves, Keeps-apply_effect, Keeps-set_world given)

  -- What the host performs is authorised, or needs no capability.
  pub Keeps-exec_effect :
      (host : Host) (i : Instruction) (ip : ℕ) (bases : List ℕ)
      → (str_eq (capability_of i.op) no_capability ≡ false → grants ≢ [])
      → Keeps config grants fuel (exec_effect host config i ip bases)
  unfolding exec_effect
  Keeps-exec_effect host i ip bases given =
      elim (Bool-cases (str_eq (capability_of i.op) no_capability)) [
        | inl e ↦
            rw (exec_effect, e)
              (Keeps->>= (Keeps-when_back i.op (Keeps-exec_unguarded host i)) λ n. Keeps-pure _)
        | inr e ↦
            rw (exec_effect, e)
              (Keeps->>= (Keeps-when_back i.op (Keeps-exec_guarded host i (given e)))
                λ n. Keeps-pure _)
      ]

  Keeps-synthesize :
      (host : Host) (k : String) (fn : Function) (op : Opcode)
      → grants ≢ []
      → Keeps config grants fuel (synthesize host config k fn op)
  unfolding synthesize
  Keeps-synthesize host k fn op given =
      search (moves, Keeps-apply_effect, Keeps-set_world given, Keeps-set_function) depth 12

  Keeps-required :
      (host : Host) (k : String) (fn : Function) (op : Opcode)
      → is_request op ≡ false
      → Keeps config grants fuel (
          require_capability host network op
          >> when_back config op (synthesize host config k fn op))
  Keeps-required host k fn op r = elim (grants_cases grants) [
    | inl empty ↦
        Keeps-stuck _
          (subst (λ g. IsStuck g (require_capability host network op)) (sym empty)
            (require_capability-IsStuck host network op r))
          (Keeps-require_capability host network op)
    | inr given ↦
        Keeps->> (Keeps-require_capability host network op)
          (Keeps-when_back op (Keeps-synthesize host k fn op given))
  ]

  Keeps-synthesized :
      (host : Host) (k : String) (fn : Function) (op : Opcode)
      → is_request op ≡ false
      → Keeps config grants fuel (synthesized host config k fn op)
  unfolding synthesized
  Keeps-synthesized host k fn op r = Keeps-if _ (Keeps-required host k fn op r) (Keeps-pure fn)

  Keeps-child_result :
      {B : Type 0} (r : Result String Grants) (code : String) (op : Opcode) (format : String)
      (args : String → List Arg) {f : Grants → Vm B}
      → ((child : Grants) → r ≡ ok child → Keeps config grants fuel (f child))
      → Keeps config grants fuel (on_result r (λ e. fail code op format (args e)) pure >>= f)
  unfolding on_result fail pure ◌>>=◌
  Keeps-child_result (err e) code op format args {f} k =
      Keeps-stuck_bind f (λ s g. tt) (Keeps-fail code op format (args e))
  Keeps-child_result (ok child) code op format args k = k child refl

  -- The rest of an agent's start may use that without a grant the agent has none.
  Keeps-with_child :
      {B : Type 0} (host : Host) (listed : String) (op : Opcode) (what : String) {f : Grants → Vm B}
      → ((child : Grants) → (grants ≡ [] → child ≡ []) → Keeps config grants fuel (f child))
      → Keeps config grants fuel (attenuate_child host listed op what >>= f)
  unfolding attenuate_child ◌>>=◌
  Keeps-with_child host listed op what {f} k =
      Keeps-at
        (λ s.
          on_result (attenuate host.parsers s.grants (requested host listed))
            (λ reason.
              fail "CAPABILITY_DENIED" op "capability denied: %s: %s"
                (text what ∷ text reason ∷ []))
            pure
          >>= f)
        λ s g.
          Keeps-child_result (attenuate host.parsers s.grants (requested host listed)) _ op _
            (λ reason. text what ∷ text reason ∷ [])
            λ child e. k child λ h.
              attenuate-none host.parsers (requested host listed)
                (subst (λ x. attenuate host.parsers x (requested host listed) ≡ ok child) (g ∙ h) e)

  Keeps-expect_task :
      (v : Val) (host : Host) (op : Opcode) → Keeps config grants fuel (expect_task host v op)
  unfolding expect_task
  Keeps-expect_task (string t) host op = search (moves)
  Keeps-expect_task _ host op = search (moves)

  Keeps-body_length :
      (host : Host) (n : ℤ) (r : ℕ) (op : Opcode)
      → Keeps config grants fuel (body_length host n r op)
  unfolding body_length
  Keeps-body_length host n r op = search (moves)

  Keeps-report_agent :
      (host : Host) (k t : String) (o : Option String)
      → Keeps config grants fuel (report_agent host k t o)
  unfolding report_agent
  Keeps-report_agent host k t none = search (moves)
  Keeps-report_agent host k t (some failure) = search (moves)

module _ {config : Config} {grants : Grants} {fuel : ℕ} (host : Host) (rec : Run)
    (k : (g : Grants) (insts : List Instruction) → Keeps config g fuel (rec insts)) where
  Keeps-run_body :
      (child : Grants) (insts : List Instruction)
      → (grants ≡ [] → child ≡ [])
      → Keeps config grants fuel (run_body host rec child insts)
  unfolding run_body
  Keeps-run_body child [] given = Keeps-pure none
  Keeps-run_body child (i ∷ insts) given = Keeps-in_child host child _ given (k child (i ∷ insts))

  pub Keeps-exec_spawn_agent :
      (insts : List Instruction) (i : Instruction) (ip : ℕ) (bases : List ℕ)
      → Keeps config grants fuel (exec_spawn_agent host config rec insts i ip bases)
  unfolding exec_spawn_agent
  Keeps-exec_spawn_agent insts i ip bases = Keeps->>= (Keeps-pop i.op) λ v.
      Keeps->>= (Keeps-expect_task v host i.op) λ t.
        Keeps-with_child host i.string_operand2 i.op "spawn_agent" λ child given.
          search
            (
              moves,
              Keeps-check_spawn_depth,
              Keeps-body_length,
              Keeps-report_agent,
              λ (insts : List Instruction). Keeps-run_body child insts given,
            )
            depth 14

  pub Keeps-exec_call :
      (i : Instruction)
      → is_request i.op ≡ false
      → Keeps config grants fuel (exec_call host config rec i)
  unfolding exec_call
  Keeps-exec_call i r =
      search
        (
          moves, Keeps-find_function, Keeps-check_arity, Keeps-check_call_depth, Keeps-in_frame, k,
          synthesized_keeps,
        )
        depth 16
    where
      synthesized_keeps :
          (fn : Function)
          → Keeps config grants fuel (synthesized host config i.string_operand fn i.op)
      synthesized_keeps fn = Keeps-synthesized host i.string_operand fn i.op r
