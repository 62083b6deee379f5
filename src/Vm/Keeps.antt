-- ===== src/Vm/Keeps.antt =====
-- What every part of the machine of internal/vm/vm.go keeps, with a rule for each way to build
-- code.
use howlframe.Common.{
  sym, subst, ap, ℕ, ◌-◌, ◌≤◌, ◌<◌, ◌≡◌, refl, ◌∙◌, arith, le_trans, Bool, true, false, List, [],
  pos_part, length, if◌then◌else◌, String,
}
use howlframe.Opcode.{Opcode}
use howlframe.Capability.Grants.{Grants}
use howlframe.Vm.Value.{Config, State, Arg}
use howlframe.Vm.Monad.{
  continue_with, Vm, Outcome, done, returned, exited, failed, crashed, lost, out_of_fuel, pure,
  ◌>>=◌, ◌>>◌, stop, gets, fail,
}
use howlframe.Vm.Guard.{instruction_limit}

-- The code of the host comes back, and the Go runtime has the memory that is asked of it.
pub record ComesBack (config : Config) : Type 0 where
  pub comes_back_eq : (op : Opcode) (s : State) → config.outside.comes_back op s ≡ true
  pub memory_suffices_eq : (n : ℕ) → config.outside.memory_suffices n ≡ true

-- The fuel did not run out, and the code is lost only where the process does not go on.
abbrev pub Finished : Config → {A : Type 0} → Outcome A → Type 0
Finished config out_of_fuel = ⊥
Finished config lost = ¬ ComesBack config
Finished config _ = Unit

-- Code that is not done goes no further.
abbrev pub NotDone : {A : Type 0} → Outcome A → Type 0
NotDone (done _) = ⊥
NotDone _ = Unit

-- From a state with these grants the code always panics.
abbrev pub IsStuck : Grants → {A : Type 0} → Vm A → Type 0
IsStuck grants m = (s : State) → s.grants ≡ grants → NotDone (m s).0

-- The instruction limit, as a number; none is zero.
abbrev pub limit_of : Config → ℕ
limit_of config = pos_part (instruction_limit config)

abbrev pub memory_limit_of : Config → ℕ
memory_limit_of config = pos_part config.limits.max_memory_bytes

-- How the machine's account may move: the counts grow within their limits, the call depth, the
-- environments, the agent's depth and the grants are as before, and without a grant so is the world.
pub record Later (config : Config) (s s' : State) : Type 0 where
  pub executed_le : s.executed ≤ s'.executed
  pub executed_within : s.executed ≤ limit_of config → s'.executed ≤ limit_of config
  pub memory_le : s.memory ≤ s'.memory
  pub memory_within : s.memory ≤ memory_limit_of config → s'.memory ≤ memory_limit_of config
  pub call_depth_eq : s'.call_depth ≡ s.call_depth
  pub spawn_depth_eq : s'.spawn_depth ≡ s.spawn_depth
  pub grants_eq : s'.grants ≡ s.grants
  pub frames_eq : length s'.frames ≡ length s.frames
  pub world_eq : s.grants ≡ [] → s'.world ≡ s.world

-- What an instruction that only computes leaves alone.
pub record Account : Type 0 where
  pub executed : ℕ
  pub memory : ℕ
  pub call_depth : ℕ
  pub spawn_depth : ℕ
  pub grants : Grants
  pub frames : ℕ
  pub world : ℕ

abbrev pub account : State → Account
account s = record {
  executed = s.executed;
  memory = s.memory;
  call_depth = s.call_depth;
  spawn_depth = s.spawn_depth;
  grants = s.grants;
  frames = length s.frames;
  world = s.world;
}

module _ {config : Config} where
  pub Later-same : {s s' : State} → account s' ≡ account s → Later config s s'
  Later-same {s} {s'} e = record {
    executed_le = omega (arith, ap (λ (a : Account). a.executed) e);
    executed_within = λ h. omega (arith, ap (λ (a : Account). a.executed) e);
    memory_le = omega (arith, ap (λ (a : Account). a.memory) e);
    memory_within = λ h. omega (arith, ap (λ (a : Account). a.memory) e);
    call_depth_eq = ap (λ a. a.call_depth) e;
    spawn_depth_eq = ap (λ a. a.spawn_depth) e;
    grants_eq = ap (λ a. a.grants) e;
    frames_eq = ap (λ a. a.frames) e;
    world_eq = λ h. ap (λ a. a.world) e;
  }

  pub Later-refl : (s : State) → Later config s s
  Later-refl s = Later-same refl

  pub Later-trans : {r s t : State} → Later config r s → Later config s t → Later config r t
  Later-trans p q = record {
    executed_le = le_trans p.executed_le q.executed_le;
    executed_within = λ h. q.executed_within (p.executed_within h);
    memory_le = le_trans p.memory_le q.memory_le;
    memory_within = λ h. q.memory_within (p.memory_within h);
    call_depth_eq = q.call_depth_eq ∙ p.call_depth_eq;
    spawn_depth_eq = q.spawn_depth_eq ∙ p.spawn_depth_eq;
    grants_eq = q.grants_eq ∙ p.grants_eq;
    frames_eq = q.frames_eq ∙ p.frames_eq;
    world_eq = λ h. q.world_eq (p.grants_eq ∙ h) ∙ p.world_eq h;
  }

-- From a state with these grants the code moves the account as it may, and with fuel for the rounds
-- that the limit leaves, it ends.
pub record Keeps (config : Config) (grants : Grants) (fuel : ℕ) {A : Type 0} (m : Vm A)
    : Type 0 where
  pub later : (s : State) → s.grants ≡ grants → Later config s (m s).1
  pub finishes :
      (s : State)
      → s.grants ≡ grants
      → limit_of config - s.executed < fuel
      → Finished config (m s).0

-- The fuel is enough after a part of the run, too.
fuel_left :
    {config : Config} {fuel : ℕ} {s s' : State}
    → Later config s s'
    → limit_of config - s.executed < fuel
    → limit_of config - s'.executed < fuel
fuel_left p h = let le = p.executed_le in omega arith

-- What follows code that panics does not matter.
stopped_state :
    {A B : Type 0} (r : Outcome A) (s : State) (f : A → Vm B)
    → NotDone r
    → (continue_with r s f).1 ≡ s
stopped_state (done a) s f h = absurd h
stopped_state (returned v) s f h = refl
stopped_state (exited c) s f h = refl
stopped_state (failed e) s f h = refl
stopped_state (crashed m) s f h = refl
stopped_state lost s f h = refl
stopped_state out_of_fuel s f h = refl

stopped_finishes :
    (config : Config) {A B : Type 0} (r : Outcome A) (s : State) (f : A → Vm B)
    → NotDone r
    → Finished config r
    → Finished config (continue_with r s f).0
stopped_finishes config (done a) s f h e = absurd h
stopped_finishes config (returned v) s f h e = tt
stopped_finishes config (exited c) s f h e = tt
stopped_finishes config (failed x) s f h e = tt
stopped_finishes config (crashed m) s f h e = tt
stopped_finishes config lost s f h e = e
stopped_finishes config out_of_fuel s f h e = e

module _ {config : Config} {grants : Grants} {fuel : ℕ} where
  -- Code that ends, and touches nothing of the account.
  pub Keeps-unmoved :
      {A : Type 0} {m : Vm A}
      → ((s : State) → account (m s).1 ≡ account s)
      → ((s : State) → Finished config (m s).0)
      → Keeps config grants fuel m
  Keeps-unmoved p q = record { later = λ s g. Later-same (p s); finishes = λ s g h. q s }

  pub Keeps-pure : {A : Type 0} (a : A) → Keeps config grants fuel (pure a)
  unfolding pure
  Keeps-pure a = Keeps-unmoved (λ s. refl) λ s. tt

  pub Keeps-stop :
      {A : Type 0} (r : Outcome A) → Finished config r → Keeps config grants fuel (stop r)
  unfolding stop
  Keeps-stop r h = Keeps-unmoved (λ s. refl) λ s. h

  pub Keeps-gets : {A : Type 0} (f : State → A) → Keeps config grants fuel (gets f)
  unfolding gets
  Keeps-gets f = Keeps-unmoved (λ s. refl) λ s. tt

  pub Keeps-fail :
      {A : Type 0} (code : String) (op : Opcode) (format : String) (args : List Arg)
      → Keeps config grants fuel (fail {A = A} code op format args)
  unfolding fail
  Keeps-fail code op format args = Keeps-unmoved (λ s. refl) λ s. tt

  pub Keeps-if :
      {A : Type 0} (b : Bool) {m n : Vm A}
      → Keeps config grants fuel m
      → Keeps config grants fuel n
      → Keeps config grants fuel (if b then m else n)
  Keeps-if true p q = p
  Keeps-if false p q = q

  -- The state decides what runs.
  pub Keeps-at :
      {A : Type 0} (m : State → Vm A)
      → ((s : State) → s.grants ≡ grants → Keeps config grants fuel (m s))
      → Keeps config grants fuel (λ s. m s s)
  Keeps-at m p = record { later = λ s g. (p s g).later s g; finishes = λ s g. (p s g).finishes s g }

  bound-Later :
      {A B : Type 0} (r : Outcome A) (s : State) {f : A → Vm B}
      → ((a : A) → Keeps config grants fuel (f a))
      → s.grants ≡ grants
      → Later config s (continue_with r s f).1
  bound-Later (done a) s p g = (p a).later s g
  bound-Later (returned v) s p g = Later-refl s
  bound-Later (exited c) s p g = Later-refl s
  bound-Later (failed e) s p g = Later-refl s
  bound-Later (crashed m) s p g = Later-refl s
  bound-Later lost s p g = Later-refl s
  bound-Later out_of_fuel s p g = Later-refl s

  bound_finishes :
      {A B : Type 0} (r : Outcome A) (s : State) {f : A → Vm B}
      → ((a : A) → Keeps config grants fuel (f a))
      → s.grants ≡ grants
      → limit_of config - s.executed < fuel
      → Finished config r
      → Finished config (continue_with r s f).0
  bound_finishes (done a) s p g h e = (p a).finishes s g h
  bound_finishes (returned v) s p g h e = tt
  bound_finishes (exited c) s p g h e = tt
  bound_finishes (failed x) s p g h e = tt
  bound_finishes (crashed m) s p g h e = tt
  bound_finishes lost s p g h e = e
  bound_finishes out_of_fuel s p g h e = e

  pub Keeps->>= :
      {A B : Type 0} {m : Vm A} {f : A → Vm B}
      → Keeps config grants fuel m
      → ((a : A) → Keeps config grants fuel (f a))
      → Keeps config grants fuel (m >>= f)
  unfolding ◌>>=◌
  Keeps->>= {m = m} p q = record {
    later = λ s g.
        let first = p.later s g in
        Later-trans first (bound-Later (m s).0 (m s).1 q (first.grants_eq ∙ g));
    finishes = λ s g h.
        let first = p.later s g in
        bound_finishes (m s).0 (m s).1 q (first.grants_eq ∙ g) (fuel_left first h)
          (p.finishes s g h);
  }

  pub Keeps->> :
      {A B : Type 0} {m : Vm A} {n : Vm B}
      → Keeps config grants fuel m
      → Keeps config grants fuel n
      → Keeps config grants fuel (m >> n)
  unfolding ◌>>◌
  Keeps->> p q = Keeps->>= p λ _. q

  pub Keeps-stuck_bind :
      {A B : Type 0} {m : Vm A} (f : A → Vm B)
      → IsStuck grants m
      → Keeps config grants fuel m
      → Keeps config grants fuel (m >>= f)
  unfolding ◌>>=◌
  Keeps-stuck_bind {m = m} f h p = record {
    later =
        λ s g. subst (Later config s) (sym (stopped_state (m s).0 (m s).1 f (h s g))) (p.later s g);
    finishes = λ s g e. stopped_finishes config (m s).0 (m s).1 f (h s g) (p.finishes s g e);
  }

  pub Keeps-stuck :
      {A B : Type 0} {m : Vm A} (n : Vm B)
      → IsStuck grants m
      → Keeps config grants fuel m
      → Keeps config grants fuel (m >> n)
  unfolding ◌>>◌
  Keeps-stuck n = Keeps-stuck_bind λ _. n
