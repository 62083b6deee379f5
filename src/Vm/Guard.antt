-- ===== src/Vm/Guard.antt =====
-- What internal/vm/vm.go checks before an instruction: the deadline, the instruction limit and the
-- capability; and its account of memory.
use howlframe.Common.{
  ℕ, zero, suc, ◌+◌, ◌^◌, ◌-◌, String, Bool, true, false, ◌&&◌, ◌||◌, not, Option, none, some, List,
  [], ◌∷◌, ℤ, pos, str_eq, if◌then◌else◌, ltb_ℤ, ◌-ℤ◌,
}
use Prim.Native.String.{len}
use howlframe.Opcode.{Opcode, spec_of}
use howlframe.Capability.{Capability, no_capability, process}
use howlframe.Capability.Grants.{Grants, Parsers, has, has_coarse, has_fetch, fetch_refusal}
use howlframe.Program.{Instruction}
use howlframe.Vm.Value.{Val, string, text, number, Config, State, Host}
use howlframe.Vm.Monad.{fail_unless, Vm, done, pure, ◌>>◌, fail}
use howlframe.Vm.Integer.{wrap_int64, ◌*ℤ◌, ◌/ℤ◌}

-- OpFetch and OpHttpRequest.
unfoldable pub is_request : Opcode → Bool
is_request Opcode.fetch = true
is_request Opcode.http_request = true
is_request _ = false

-- OpSpawn and OpSpawnAgent.
unfoldable pub is_spawn : Opcode → Bool
is_spawn Opcode.spawn = true
is_spawn Opcode.spawn_agent = true
is_spawn _ = false

-- `requireCapability` lets the instruction pass.
unfoldable pub permits : Parsers → Grants → Capability → Opcode → Bool
permits parsers grants c op =
    if is_request op
    then true
    else if str_eq c process && is_spawn op && not (has_coarse process grants)
    then false
    else has parsers c grants

-- `requireCapability`
unfoldable pub require_capability : Host → Capability → Opcode → Vm (Unit {0})
require_capability host c op s =
    fail_unless (permits host.parsers s.grants c op) "CAPABILITY_DENIED" op "capability denied: %s"
      (text c ∷ []) s

-- The capability that the registry names for the opcode.
unfoldable pub capability_of : Opcode → Capability
capability_of op = (spec_of op).capability

unfoldable pub require_registered : Host → Opcode → Vm (Unit {0})
require_registered host op =
    if str_eq (capability_of op) no_capability
    then pure tt
    else require_capability host (capability_of op) op

-- The value below the `k` on top, if it and those are texts.
unfoldable pub request_url : ℕ → List Val → Option String
request_url zero (string url ∷ vs) = some url
request_url (suc k) (string t ∷ vs) = request_url k vs
request_url _ _ = none

-- `urlIdx` in `preauthorizeFetch`
unfoldable pub url_index : Opcode → ℤ → ℕ
url_index Opcode.http_request (pos (suc zero)) = 2
url_index _ _ = 1

-- The reason to refuse a request to a URL, or one whose operands are not texts.
unfoldable pub refusal_for : Parsers → Grants → Option String → Option (String × String)
refusal_for parsers grants (some url) = fetch_refusal parsers url grants
refusal_for parsers grants none =
    if has_fetch parsers grants
    then none
    else some ("network: no network:fetch= grant", "network:fetch=<host>")

-- The reason for which `preauthorizeFetch` refuses, with the grant that it names.
unfoldable pub request_refusal : Host → Instruction → State → Option (String × String)
request_refusal host i s =
    refusal_for host.parsers s.grants (request_url (url_index i.op i.int_operand) s.stack)

unfoldable pub refuse_request : Opcode → Option (String × String) → Vm (Unit {0})
refuse_request op none = pure tt
refuse_request op (some (reason, required)) =
    fail "CAPABILITY_DENIED" op "capability denied: %s (requires %s)"
      (text reason ∷ text required ∷ [])

-- `preauthorizeFetch`
unfoldable pub preauthorize_fetch : Host → Instruction → Vm (Unit {0})
preauthorize_fetch host i s = refuse_request i.op (request_refusal host i s) s

-- `instructionLimit`
unfoldable pub instruction_limit : Config → ℤ
instruction_limit config =
    let limits = config.limits in
    if config.startup
      && ltb_ℤ limits.max_instructions limits.max_startup_instructions
      && ltb_ℤ (pos 0) limits.max_instructions
    then limits.max_startup_instructions
    else limits.max_instructions

-- `checkDeadline`
unfoldable pub check_deadline : Host → Config → Opcode → Vm (Unit {0})
check_deadline host config op s =
    fail_unless (not (host.expired s))
      (if config.model_adapter then "HFIR_DEADLINE_EXCEEDED" else "LIMIT_EXCEEDED") op
      "wall-clock deadline exceeded" [] s

-- The instruction limit; `executed` is not negative.
unfoldable pub check_limit : Config → Opcode → Vm (Unit {0})
check_limit config op s =
    fail_unless (ltb_ℤ (pos s.executed) (instruction_limit config)) "LIMIT_EXCEEDED" op
      "instruction limit exceeded" [] s

-- `vm.executed++`
unfoldable pub count_instruction : Vm (Unit {0})
count_instruction s = (done tt, record s { executed = suc s.executed })

-- `vm.ip = ip`
unfoldable pub set_ip : ℤ → Vm (Unit {0})
set_ip ip s = (done tt, record s { ip = ip })

-- The capability of the instruction, and the URL of a request.
unfoldable pub authorize : Host → Instruction → Vm (Unit {0})
authorize host i =
    require_registered host i.op >> (if is_request i.op then preauthorize_fetch host i else pure tt)

abbrev memory_exceeded : Config → Opcode → Vm (Unit {0})
memory_exceeded config op =
    fail "LIMIT_EXCEEDED" op "memory limit exceeded (max %d bytes)"
      (number config.limits.max_memory_bytes ∷ [])

-- `n` more bytes are too many for the limit `max`.
unfoldable pub over_memory : ℤ → ℕ → ℕ → Bool
over_memory max n memory = not (ltb_ℤ (pos 0) max) || ltb_ℤ (max -ℤ pos n) (pos memory)

-- `chargeAlloc` of a positive number of bytes.
unfoldable pub charge_bytes : Config → ℕ → Opcode → Vm (Unit {0})
charge_bytes config n op s =
    if over_memory config.limits.max_memory_bytes n s.memory
    then memory_exceeded config op s
    else (done tt, record s { memory = s.memory + n })

-- `chargeAlloc`
unfoldable pub charge_alloc : Config → ℤ → Opcode → Vm (Unit {0})
charge_alloc config (pos (suc n)) op = charge_bytes config (suc n) op
charge_alloc config _ op = pure tt

-- `chargeSlots`
unfoldable pub charge_slots : Config → ℤ → ℤ → Opcode → Vm (Unit {0})
charge_slots config n size op =
    if ltb_ℤ (pos 0) n && ltb_ℤ (pos (2 ^ 63 - 1) /ℤ size) n
    then memory_exceeded config op
    else charge_alloc config (wrap_int64 (n *ℤ size)) op

-- `vm.chargeAlloc(len(str), ip, op)` where the value is a text.
unfoldable pub charge_text : Config → Val → Opcode → Vm (Unit {0})
charge_text config (string t) op = charge_alloc config (pos (len t)) op
charge_text config _ op = pure tt

unfoldable pub charge_texts : Config → List String → Opcode → Vm (Unit {0})
charge_texts config [] op = pure tt
charge_texts config (t ∷ ts) op = charge_alloc config (pos (len t)) op >> charge_texts config ts op
