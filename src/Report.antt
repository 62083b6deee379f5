-- ===== src/Report.antt =====
-- internal/bytecode/required_capabilities.go: the capabilities that a program may need, found without
-- running it. `capability.FetchGrantForURL`, which reads a URL with net/url, is a parameter of the
-- functions: `none` where it returns false.
mod Stores
mod Schemes
pub mod Needs
mod Kept
mod Urls
mod Met
pub mod Complete
mod Tests
use howlframe.Common.{
  sort_strings, ◌++◌, map, delete, suc, ◌+◌, lookup, ◌-◌, get_elem?, leb, ◌==◌, ◌&&◌, str_eq,
  insert, ℤ, if◌then◌else◌, ℕ, Bool, Option, List, String, pos, false, true, ◌∷◌, [], none, some,
}
use howlframe.Capability.{no_capability, store_requirements, all, filesystem, Capability}
use howlframe.Opcode.{call, store_open, spec_of, http_request, load_const, fetch, Opcode}
use howlframe.Program.{Program, Functions, Function, Instruction, Value}
use howlframe.Artifact.{keys, function_at}

-- `Site`
pub record Site : Type 0 where
  pub function : String
  pub index : ℕ
  pub opcode : String
  pub capability : String
  pub reason : String

-- `Report`
pub record Report : Type 0 where
  pub capabilities : List String
  pub sites : List Site

-- `map[capability.Capability]string`: what an instruction requires, and why.
abbrev pub Requirements : Type 0
Requirements = List (Capability × String)

abbrev pub registry_requirements : Capability → Requirements
registry_requirements c = if str_eq c no_capability then [] else (c, "opcode registry") ∷ []

unfoldable pub is_fetch : Opcode → Bool
is_fetch fetch = true
is_fetch http_request = true
is_fetch _ = false

unfoldable pub is_store_open : Opcode → Bool
is_store_open store_open = true
is_store_open _ = false

unfoldable pub is_call : Opcode → Bool
is_call call = true
is_call _ = false

unfoldable pub is_load_const : Opcode → Bool
is_load_const load_const = true
is_load_const _ = false

abbrev pub string_value : Value → Option String
string_value (Value.string s) = some s
string_value _ = none

abbrev pub loaded_string : Option Instruction → Option Instruction → Option String
loaded_string (some a) (some b) =
    if is_load_const a.op && is_load_const b.op then string_value a.value_operand else none
loaded_string _ _ = none

-- How far in front of the request its URL is loaded.
abbrev pub has_body : Opcode → ℤ → Bool
has_body http_request (pos n) = n == 1
has_body op n = false

unfoldable pub url_offset : Opcode → ℤ → ℕ
url_offset op n = if has_body op n then 3 else 2

-- The URL of a request at index `i`, if it is loaded as a constant.
unfoldable pub constant_url : List Instruction → ℕ → Instruction → Option String
unfolding url_offset is_load_const
constant_url code i inst =
    let offset = url_offset inst.op inst.int_operand in
    if leb offset i
    then loaded_string (get_elem? code (i - offset)) (get_elem? code (i - offset + 1))
    else none

-- `capability.DynamicFetchRequirement`
abbrev pub dynamic_fetch_requirement : Capability
dynamic_fetch_requirement = "network:fetch=<dynamic>"

abbrev pub computed_url : String
computed_url =
    "outbound fetch to a computed URL; grant network:fetch=host[:port] for each host it may reach"

abbrev pub grant_for : (String → Option String) → Option String → Option String
grant_for fetch_grant none = none
grant_for fetch_grant (some url) = fetch_grant url

-- What a request requires in place of the capability of its opcode.
abbrev pub add_fetch : Option String → Requirements → Requirements
add_fetch none r = insert dynamic_fetch_requirement computed_url r
add_fetch (some grant) r = insert grant "outbound fetch to a constant URL" r

-- `for _, c := range cs { requirements[c] = reason }`
unfoldable pub require_all : String → List Capability → Requirements → Requirements
require_all reason [] r = r
require_all reason (c ∷ cs) r = require_all reason cs (insert c reason r)

abbrev pub add_store : Option (List Capability) → Requirements → Requirements
add_store none r = insert filesystem "unknown store URI; conservatively assumes filesystem" r
add_store (some required) r = require_all "store URI" required r

-- A call whose code is not known in advance.
abbrev pub is_lazy : Option (Option Function) → Bool
is_lazy none = true
is_lazy (some none) = true
is_lazy (some (some fn)) = fn.lazy_synthesize

abbrev pub lazy_reason : String
lazy_reason = "lazy or unknown call; synthesized body may require any capability"

-- The requirements of the instruction at index `i`.
unfoldable pub requirements :
    (String → Option String) → Functions → List Instruction → ℕ → Instruction → Requirements
unfolding require_all constant_url is_fetch is_store_open is_call
requirements fetch_grant functions code i inst =
    let capability = (spec_of inst.op).capability in
    let by_opcode = registry_requirements capability in
    let by_fetch =
      if is_fetch inst.op
      then add_fetch (grant_for fetch_grant (constant_url code i inst))
          (delete capability by_opcode)
      else by_opcode in
    let by_store =
      if is_store_open inst.op
      then add_store (store_requirements inst.string_operand2) by_fetch
      else by_fetch in
    if is_call inst.op && is_lazy (lookup inst.string_operand functions)
    then require_all lazy_reason all by_store
    else by_store

abbrev pub reason_of : Option String → String
reason_of none = ""
reason_of (some reason) = reason

unfoldable pub site : String → ℕ → Instruction → Requirements → String → Site
site name i inst r c = record {
  function = name;
  index = i;
  opcode = (spec_of inst.op).name;
  capability = c;
  reason = reason_of (lookup c r);
}

-- The sites of one instruction, by capability.
unfoldable pub sites_at : String → ℕ → Instruction → Requirements → List Site
unfolding site
sites_at name i inst r = map (site name i inst r) (sort_strings (keys r))

-- `scan`, from index `i` of the code on.
unfoldable pub scan_from :
    (String → Option String)
    → Functions
    → String
    → List Instruction
    → ℕ
    → List Instruction
    → List Site
unfolding sites_at requirements
scan_from fetch_grant functions name code i [] = []
scan_from fetch_grant functions name code i (inst ∷ insts) =
    sites_at name i inst (requirements fetch_grant functions code i inst)
    ++ scan_from fetch_grant functions name code (suc i) insts

unfoldable pub scan : (String → Option String) → Functions → String → List Instruction → List Site
unfolding scan_from
scan fetch_grant functions name code = scan_from fetch_grant functions name code 0 code

abbrev pub scan_function :
    (String → Option String) → Functions → String → Option Function → List Site
scan_function fetch_grant functions name none = []
scan_function fetch_grant functions name (some fn) = scan fetch_grant functions name fn.instructions

unfoldable pub scan_functions : (String → Option String) → Functions → List String → List Site
scan_functions fetch_grant functions [] = []
scan_functions fetch_grant functions (name ∷ names) =
    scan_function fetch_grant functions name (function_at functions name)
    ++ scan_functions fetch_grant functions names

abbrev pub site_key : Site → String × Bool
site_key s = (s.capability, true)

-- `RequiredCapabilities`
unfoldable pub required_capabilities : (String → Option String) → Program → Report
unfolding scan scan_functions
required_capabilities fetch_grant prog =
    let sites =
      scan fetch_grant prog.functions "main" prog.main
      ++ scan_functions fetch_grant prog.functions (sort_strings (keys prog.functions)) in
    record { capabilities = sort_strings (keys (map site_key sites)); sites = sites }
