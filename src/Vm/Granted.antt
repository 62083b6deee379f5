-- ===== src/Vm/Granted.antt =====
-- The gate of internal/vm/vm.go against the report of internal/bytecode/required_capabilities.go.
use howlframe.Capability.{Capability, no_capability, process}
use howlframe.Capability.Grants.{Grants, Parsers, has, has_coarse}
use howlframe.Opcode.{Opcode}
use howlframe.Program.{Instruction, Program}
use howlframe.Report.{required_capabilities}
use howlframe.Report.Needs.{by_opcode, IsRequest}
use howlframe.Report.Complete.{IsCode, required_capabilities-Needs}
use howlframe.Vm.Value.{State, Host}
use howlframe.Vm.Monad.{fail_unless, pure, done}
use howlframe.Vm.Guard.{is_request, permits, require_capability, capability_of, require_registered}
use howlframe.Common.{
  ◌≢◌, Bool-cases, eq_iff, subst, get_elem?, contains, ℕ, List, arith, Option, str_eq, String, ◌≡◌,
  inr, inl, refl, false, true, some,
}

not-IsRequest : (op : Opcode) → is_request op ≡ false → ¬ IsRequest op
unfolding is_request
not-IsRequest op h (inl e) = cc (rw e at h)
not-IsRequest op h (inr e) = cc (rw e at h)

some_class : {c : Capability} → str_eq c no_capability ≡ false → c ≢ ""
some_class {c} h e = cc (h, (eq_iff c "").1 e)

permits-has :
    (parsers : Parsers) (grants : Grants) (c : Capability) (op : Opcode)
    → has parsers c grants ≡ true
    → (str_eq c process ≡ true → has_coarse process grants ≡ true)
    → permits parsers grants c op ≡ true
unfolding permits
permits-has parsers grants c op h p = ground (arith, h, p)

permits_request :
    (parsers : Parsers) (grants : Grants) (c : Capability) (op : Opcode)
    → is_request op ≡ true
    → permits parsers grants c op ≡ true
unfolding permits
permits_request parsers grants c op r = rw (permits, r) refl

-- If the grants serve every capability that `RequiredCapabilities` reports for a program, and the
-- coarse process grant is there where process is reported, then no instruction of the program is
-- denied by `requireCapability` for the capability of its opcode.
pub require_registered-required :
    (host : Host) (fetch_grant : String → Option String) (prog : Program) (s : State)
    (code : List Instruction) (i : ℕ) (inst : Instruction)
    → ((c : Capability)
        → contains c (required_capabilities fetch_grant prog).capabilities ≡ true
        → has host.parsers c s.grants ≡ true)
    → (contains process (required_capabilities fetch_grant prog).capabilities ≡ true
        → has_coarse process s.grants ≡ true)
    → IsCode prog code
    → get_elem? code i ≡ some inst
    → require_registered host inst.op s ≡ (done tt, s)
unfolding require_registered require_capability fail_unless pure capability_of
require_registered-required host fetch_grant prog s code i inst given spawns is_code e =
    elim (Bool-cases (str_eq (capability_of inst.op) no_capability)) [
      | inl free ↦ rw (require_registered, free) refl
      | inr needed ↦ elim (Bool-cases (is_request inst.op)) [
        | inl r ↦
            rw
              (
                require_registered,
                needed,
                require_capability,
                permits_request host.parsers s.grants (capability_of inst.op) inst.op r,
              )
              refl
        | inr r ↦ rw (require_registered, needed, require_capability, reported needed r) refl
      ]
    ]
  where
    reported :
        str_eq (capability_of inst.op) no_capability ≡ false
        → is_request inst.op ≡ false
        → permits host.parsers s.grants (capability_of inst.op) inst.op ≡ true
    reported needed r =
        let listed =
          required_capabilities-Needs fetch_grant prog code i inst (capability_of inst.op) is_code e
            (by_opcode (capability_of inst.op) (not-IsRequest inst.op r) refl
              (some_class needed)) in
        permits-has host.parsers s.grants (capability_of inst.op) inst.op
          (given (capability_of inst.op) listed)
          λ p. spawns (
            subst (λ c. contains c (required_capabilities fetch_grant prog).capabilities ≡ true)
              ((eq_iff (capability_of inst.op) process).0 p) listed)
