-- ===== src/Vm/ControlKeeps.antt =====
-- The instructions of internal/vm/vm.go that choose the next one keep the machine's account, if the
-- code that they run does.
use howlframe.Capability.Grants.{Grants}
use howlframe.Vm.Moves.{moves}
use howlframe.Vm.Keeps.{Keeps, Later, Finished}
use howlframe.Vm.DataKeeps.{Keeps-lift}
use howlframe.Vm.Monad.{Vm, Outcome, done, returned, exited, failed, crashed, lost, out_of_fuel}
use howlframe.Common.Result.{Result, ok, err}
use howlframe.Vm.Value.{State, Val, Host, Config}
use howlframe.Vm.Control.{
  Run, exec_jump_if_false, exec_for_init, trim_loop, loop_index, loop_round, exec_for_next,
  recover_error, attempt, check_segment, after_try, exec_try_let,
}
use howlframe.Common.{arith, ◌≡◌, sym, subst, ℤ, String, List, ℕ, negsuc, pos, refl, ◌∷◌, []}
use howlframe.Opcode.{Opcode}
use howlframe.Program.{Instruction}
use howlframe.Vm.Monad.{Vm}
use howlframe.Common.Result.{ok, err, Result}

recovered_state :
    (host : Host) {A : Type 0} (r : Outcome A) (s : State) → (recover_error host r s).1 ≡ s
unfolding recover_error
recovered_state host (done a) s = refl
recovered_state host (returned v) s = refl
recovered_state host (exited c) s = refl
recovered_state host (failed e) s = ground arith
recovered_state host (crashed m) s = refl
recovered_state host lost s = refl
recovered_state host out_of_fuel s = refl

recovered_finishes :
    (config : Config) (host : Host) {A : Type 0} (r : Outcome A) (s : State)
    → Finished config r
    → Finished config (recover_error host r s).0
unfolding recover_error
recovered_finishes config host (done a) s h = tt
recovered_finishes config host (returned v) s h = tt
recovered_finishes config host (exited c) s h = tt
recovered_finishes config host (failed e) s h = ground arith
recovered_finishes config host (crashed m) s h = tt
recovered_finishes config host lost s h = h
recovered_finishes config host out_of_fuel s h = h

module _ {config : Config} {grants : Grants} {fuel : ℕ} where
  pub Keeps-exec_jump_if_false :
      (ip : ℕ) (bases : List ℕ) (n : ℤ) (op : Opcode)
      → Keeps config grants fuel (exec_jump_if_false ip bases n op)
  unfolding exec_jump_if_false
  Keeps-exec_jump_if_false ip bases n op = search (moves, Keeps-lift)

  pub Keeps-exec_for_init :
      (ip : ℕ) (bases : List ℕ) (op : Opcode) → Keeps config grants fuel (exec_for_init ip bases op)
  unfolding exec_for_init
  Keeps-exec_for_init ip bases op = search (moves) depth 12

  Keeps-trim_loop : (bases : List ℕ) → Keeps config grants fuel (trim_loop bases)
  unfolding trim_loop
  Keeps-trim_loop [] = search (moves)
  Keeps-trim_loop (base ∷ bases) = search (moves)

  Keeps-loop_index :
      (host : Host) (v : Val) (op : Opcode) → Keeps config grants fuel (loop_index host v op)
  unfolding loop_index
  Keeps-loop_index host v op = search (moves)

  Keeps-loop_round :
      (host : Host) (i : Instruction) (ip : ℕ) (bases : List ℕ) (items : Val) (n : ℕ) (index : ℤ)
      → Keeps config grants fuel (loop_round host i ip bases items n index)
  unfolding loop_round
  Keeps-loop_round host i ip bases items n index = search (moves) depth 12

  pub Keeps-exec_for_next :
      (host : Host) (i : Instruction) (ip : ℕ) (bases : List ℕ)
      → Keeps config grants fuel (exec_for_next host i ip bases)
  unfolding exec_for_next
  Keeps-exec_for_next host i ip bases =
      search (moves, Keeps-trim_loop, Keeps-loop_index, Keeps-loop_round) depth 12

  pub Keeps-attempt :
      (host : Host) {A : Type 0} (m : Vm A)
      → Keeps config grants fuel m
      → Keeps config grants fuel (attempt host m)
  unfolding attempt
  Keeps-attempt host m k = record {
    later =
        λ s g. subst (Later config s) (sym (recovered_state host (m s).0 (m s).1)) (k.later s g);
    finishes = λ s g h. recovered_finishes config host (m s).0 (m s).1 (k.finishes s g h);
  }

  Keeps-check_segment :
      (t : String) (n : ℤ) (r : ℕ) (op : Opcode) → Keeps config grants fuel (check_segment t n r op)
  unfolding check_segment
  Keeps-check_segment t (pos n) r op = search (moves)
  Keeps-check_segment t (negsuc n) r op = search (moves)

  module _ (host : Host) (rec : Run)
      (k : (insts : List Instruction) → Keeps config grants fuel (rec insts)) where
    Keeps-after_try :
        (i : Instruction) (height : ℕ) (on_error on_value : List Instruction)
        (r : Result String (Unit {0}))
        → Keeps config grants fuel (after_try host rec i height on_error on_value r)
    unfolding after_try
    Keeps-after_try i height on_error on_value (err m) = search (moves, k)
    Keeps-after_try i height on_error on_value (ok a) = search (moves, k)

    pub Keeps-exec_try_let :
        (insts : List Instruction) (i : Instruction) (ip : ℕ) (bases : List ℕ)
        → Keeps config grants fuel (exec_try_let host rec insts i ip bases)
    unfolding exec_try_let
    Keeps-exec_try_let insts i ip bases =
        search (moves, Keeps-check_segment, Keeps-after_try, Keeps-attempt, k) depth 14
