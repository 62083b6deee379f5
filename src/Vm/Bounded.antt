-- ===== src/Vm/Bounded.antt =====
-- internal/vm/vm.go: a run ends, within its limits, and without a grant it leaves the world alone.
use howlframe.Capability.Grants.{Grants}
use howlframe.Program.{Program, Instruction}
use howlframe.Vm.Keeps.{
  memory_limit_of, limit_of, Keeps, Keeps-pure, Keeps-stop, Keeps->>, Later-refl,
}
use howlframe.Vm.Moves.{Keeps-on_option}
use howlframe.Vm.Value.{State, Host, Config}
use howlframe.Vm.Monad.{stop}
use howlframe.Vm.CallsKeeps.{Keeps-set_ip}
use howlframe.Vm.Run.{loop, run}
use howlframe.Vm.StepKeeps.{Keeps-step}
use howlframe.Common.{
  length, ◌≡◌, ◌≤◌, refl, get_elem?, arith, ℤ, List, ℕ, negsuc, pos, suc, zero, [],
}
use howlframe.Opcode.{Opcode}

module _ {config : Config} (host : Host) where
  Keeps-loop :
      (fuel : ℕ) (grants : Grants) (insts : List Instruction) (ip : ℤ) (bases : List ℕ)
      → Keeps config grants fuel (loop host config fuel insts ip bases)
  unfolding loop stop
  Keeps-loop zero grants insts ip bases = record {
    later = λ s g. Later-refl s;
    finishes = λ s g h. absurd (omega arith);
  }
  Keeps-loop (suc fuel) grants insts (negsuc n) bases =
      Keeps->> (Keeps-set_ip (negsuc n)) (Keeps-stop _ tt)
  Keeps-loop (suc fuel) grants insts (pos ip) bases =
      Keeps-on_option (get_elem? insts ip) (Keeps-pure tt) λ i.
        Keeps-step host _ (λ g part. Keeps-loop fuel g part (pos 0) []) insts i ip bases
          λ next. Keeps-loop fuel grants insts next.0 next.1

  Keeps-run :
      (fuel : ℕ) (grants : Grants) (insts : List Instruction)
      → Keeps config grants fuel (run host config fuel insts)
  unfolding run
  Keeps-run fuel grants insts = Keeps-loop fuel grants insts (pos 0) []

-- However much fuel a run has and however it ends, what it executes and charges stays within the
-- limits of the policy if it starts within them, and neither count goes down.
pub run_within_limits :
    (host : Host) (config : Config) (fuel : ℕ) (insts : List Instruction) (s : State)
    → s.executed ≤ limit_of config
    → s.memory ≤ memory_limit_of config
    → (s.executed ≤ (run host config fuel insts s).1.executed)
      × ((run host config fuel insts s).1.executed ≤ limit_of config)
      × (s.memory ≤ (run host config fuel insts s).1.memory)
      × ((run host config fuel insts s).1.memory ≤ memory_limit_of config)
run_within_limits host config fuel insts s e m =
    let l = (Keeps-run {config = config} host fuel s.grants insts).later s refl in
    (l.executed_le, l.executed_within e, l.memory_le, l.memory_within m)

-- However a run ends, by its last instruction, a return, an exit, an error or a panic of Go, the
-- call depth, the depth of agents, the number of environments and the grants are as before it.
pub run_restores :
    (host : Host) (config : Config) (fuel : ℕ) (insts : List Instruction) (s : State)
    → ((run host config fuel insts s).1.call_depth ≡ s.call_depth)
      × ((run host config fuel insts s).1.spawn_depth ≡ s.spawn_depth)
      × (length (run host config fuel insts s).1.frames ≡ length s.frames)
      × ((run host config fuel insts s).1.grants ≡ s.grants)
run_restores host config fuel insts s =
    let l = (Keeps-run {config = config} host fuel s.grants insts).later s refl in
    (l.call_depth_eq, l.spawn_depth_eq, l.frames_eq, l.grants_eq)

-- A run without grants leaves the files, the network, the processes and the databases as they are:
-- no instruction that needs a capability, no request, no synthesised function and no agent gets to
-- its effect.
pub run_without_grants :
    (host : Host) (config : Config) (fuel : ℕ) (insts : List Instruction) (s : State)
    → s.grants ≡ []
    → (run host config fuel insts s).1.world ≡ s.world
run_without_grants host config fuel insts s e =
    ((Keeps-run {config = config} host fuel s.grants insts).later s refl).world_eq e
