-- ===== src/Vm/Ungranted.antt =====
-- Without a grant nothing that internal/vm/vm.go guards is let through, and an agent gets none.
use howlframe.Capability.Grants.{
  Grants, Parsers, has, has_fetch, has_coarse, covers, covers_scoped, covers_root, holds_verbatim,
  covers_fetch, fetch_refusal, child_grants, filesystem_grants, attenuate,
}
use howlframe.Common.Result.{Result, ok, err, >>=-ok-then}
use howlframe.Opcode.{Opcode}
use howlframe.Program.{Instruction}
use howlframe.Vm.Value.{State, Config, Host}
use howlframe.Vm.Monad.{
  ◌>>◌, ◌>>=◌, Vm, Outcome, done, returned, exited, failed, crashed, lost, out_of_fuel,
  continue_with, fail_unless, fail,
}
use howlframe.Vm.Guard.{
  capability_of, authorize, require_registered, refuse_request, refusal_for, permits, is_request,
  require_capability, request_refusal, preauthorize_fetch, request_url, url_index,
}
use howlframe.Vm.CallsKeeps.{Keeps-require_registered}
use howlframe.Vm.Keeps.{NotDone, Keeps, IsStuck}
use howlframe.Capability.{no_capability, Capability}
use howlframe.Common.{
  ◌∙◌, Bool-cases, str_eq, str_append, if◌then◌else◌, Option, refl, some, Option-cases, inr, inl,
  arith, ◌≡◌, List, String, false, ◌∷◌, [], none,
}

covers-none : (parsers : Parsers) (c : String) → covers parsers c [] ≡ false
unfolding covers covers_scoped covers_root holds_verbatim has_coarse
covers-none parsers c = ground arith

child_grants-none :
    (parsers : Parsers) (raw : String) {child : Grants}
    → child_grants parsers [] raw ≡ ok child
    → child ≡ []
unfolding child_grants filesystem_grants
child_grants-none parsers raw e = elim (Option-cases (parsers.parse_grant raw)) [
  | inl n ↦ ground (arith, n)
  | inr (g, h) ↦ ground (arith, h, covers-none parsers g)
]

-- Attenuating no grants gives none.
pub attenuate-none :
    (parsers : Parsers) (raws : List String) {child : Grants}
    → attenuate parsers [] raws ≡ ok child
    → child ≡ []
unfolding attenuate
attenuate-none parsers [] e = cc
attenuate-none parsers (raw ∷ raws) e = >>=-ok-then (child_grants parsers [] raw) _ e λ first h e'.
    >>=-ok-then (attenuate parsers [] raws) _ e' λ others h' e''.
      ground (arith, child_grants-none parsers raw h, attenuate-none parsers raws h')

permits-none :
    (parsers : Parsers) (c : Capability) (op : Opcode)
    → is_request op ≡ false
    → permits parsers [] c op ≡ false
unfolding permits has
permits-none parsers c op e = ground arith

pub require_capability-IsStuck :
    (host : Host) (c : Capability) (op : Opcode)
    → is_request op ≡ false
    → IsStuck [] (require_capability host c op)
unfolding require_capability fail_unless fail
require_capability-IsStuck host c op e s g =
    rw (require_capability, g, permits-none host.parsers c op e) tt

refusal_for-none :
    (parsers : Parsers) (url : Option String)
    → (r : String × String) × (refusal_for parsers [] url ≡ some r)
unfolding refusal_for fetch_refusal has_fetch covers_fetch
refusal_for-none parsers none = (_, refl)
refusal_for-none parsers (some url) = refusal_of (parsers.url_target url)
  where
    refusal_of :
        (t : Result String (String × String × String × String))
        → (r : String × String) × (elim t [
          | err reason ↦ some (reason, "network:fetch=<invalid-url>")
          | ok target ↦
              if covers_fetch parsers target []
              then none
              else some (
                "network: fetch host is not in the allow-list",
                str_append "network:fetch=" target.3,
              )
        ]
            ≡ some r)
    refusal_of (err reason) = (_, refl)
    refusal_of (ok target) = (_, refl)

preauthorize_fetch-IsStuck :
    (host : Host) (i : Instruction) → IsStuck [] (preauthorize_fetch host i)
unfolding preauthorize_fetch request_refusal refuse_request fail
preauthorize_fetch-IsStuck host i s g =
    let (r, e) =
      refusal_for-none host.parsers (request_url (url_index i.op i.int_operand) s.stack) in
    rw (preauthorize_fetch, request_refusal, g, e) tt

-- Code that always panics does so with code before or after it.
stopped_NotDone :
    {A B : Type 0} (r : Outcome A) (s : State) (f : A → Vm B)
    → NotDone r
    → NotDone (continue_with r s f).0
stopped_NotDone (done a) s f h = absurd h
stopped_NotDone (returned v) s f h = tt
stopped_NotDone (exited c) s f h = tt
stopped_NotDone (failed e) s f h = tt
stopped_NotDone (crashed m) s f h = tt
stopped_NotDone lost s f h = tt
stopped_NotDone out_of_fuel s f h = tt

IsStuck->>-left : {A B : Type 0} (m : Vm A) (n : Vm B) → IsStuck [] m → IsStuck [] (m >> n)
unfolding ◌>>◌ ◌>>=◌
IsStuck->>-left m n h s g = stopped_NotDone (m s).0 (m s).1 (λ _. n) (h s g)

passed_NotDone :
    {A B : Type 0} (r : Outcome A) (s : State) (n : Vm B)
    → IsStuck [] n
    → s.grants ≡ []
    → NotDone (continue_with r s (λ _. n)).0
passed_NotDone (done a) s n h g = h s g
passed_NotDone (returned v) s n h g = tt
passed_NotDone (exited c) s n h g = tt
passed_NotDone (failed e) s n h g = tt
passed_NotDone (crashed m) s n h g = tt
passed_NotDone lost s n h g = tt
passed_NotDone out_of_fuel s n h g = tt

IsStuck->>-right :
    {A B : Type 0} {config : Config} {m : Vm A} (n : Vm B)
    → Keeps config [] 0 m
    → IsStuck [] n
    → IsStuck [] (m >> n)
unfolding ◌>>◌ ◌>>=◌
IsStuck->>-right {m = m} n k h s g =
    passed_NotDone (m s).0 (m s).1 n h ((k.later s g).grants_eq ∙ g)

require_registered-IsStuck :
    (host : Host) (op : Opcode)
    → str_eq (capability_of op) no_capability ≡ false
    → is_request op ≡ false
    → IsStuck [] (require_registered host op)
unfolding require_registered
require_registered-IsStuck host op c e s g =
    rw (require_registered, c) (require_capability-IsStuck host (capability_of op) op e s g)

-- Without a grant an instruction that needs a capability does not get past `authorize`.
pub authorize-IsStuck :
    (config : Config) (host : Host) (i : Instruction)
    → str_eq (capability_of i.op) no_capability ≡ false
    → IsStuck [] (authorize host i)
unfolding authorize
authorize-IsStuck config host i c = elim (Bool-cases (is_request i.op)) [
  | inl e ↦
      rw (authorize, e)
        (IsStuck->>-right {config = config} (preauthorize_fetch host i)
          (Keeps-require_registered host i.op) (preauthorize_fetch-IsStuck host i))
  | inr e ↦
      IsStuck->>-left (require_registered host i.op) _ (require_registered-IsStuck host i.op c e)
]
