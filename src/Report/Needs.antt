-- ===== src/Report/Needs.antt =====
-- What an instruction of internal/bytecode/bytecode.go needs, by what it does.
use howlframe.Report.Stores.{HasScheme}
use howlframe.Opcode.{fetch, http_request, load_const, store_open, call, Opcode}
use howlframe.Program.{Value, Function}
use howlframe.Common.{
  ◌≢◌, ◌+◌, get_elem?, ◌⊎◌, pos, lookup, ℕ, List, Option, String, true, none, some, ◌≡◌,
}
use howlframe.Program.{Functions, Instruction}
use howlframe.Capability.{Capability}
use howlframe.Opcode.{spec_of}

-- FETCH, or HTTP_REQUEST without a body: the URL and one more value lie on the stack.
abbrev pub IsBodiless : Instruction → Type 0
IsBodiless inst = (inst.op ≡ fetch) ⊎ ((inst.op ≡ http_request) × (inst.int_operand ≢ pos 1))

-- At place `k` of the code the URL is loaded as a constant, and then another constant.
pub record IsLoadedAt (code : List Instruction) (k : ℕ) (url : String) : Type 0 where
  pub first : Instruction
  pub second : Instruction
  pub first_eq : get_elem? code k ≡ some first
  pub second_eq : get_elem? code (k + 1) ≡ some second
  pub first_loads : first.op ≡ load_const
  pub second_loads : second.op ≡ load_const
  pub url_eq : first.value_operand ≡ Value.string url

-- The request at place `i` has its constant URL directly in front of its other operands.
pub data HasUrl (code : List Instruction) (i : ℕ) (inst : Instruction) (url : String) : Type 0 where
  without_body :
      (k : ℕ) → IsBodiless inst → k + 2 ≡ i → IsLoadedAt code k url → HasUrl code i inst url
  with_body :
      (k : ℕ)
      → inst.op ≡ http_request
      → inst.int_operand ≡ pos 1
      → k + 3 ≡ i
      → IsLoadedAt code k url
      → HasUrl code i inst url

abbrev pub IsRequest : Opcode → Type 0
IsRequest op = (op ≡ fetch) ⊎ (op ≡ http_request)

-- The five classes.
pub data IsCoarse : Capability → Type 0 where
  coarse_network : IsCoarse "network"
  coarse_filesystem : IsCoarse "filesystem"
  coarse_process : IsCoarse "process"
  coarse_environment : IsCoarse "environment"
  coarse_database : IsCoarse "database"

-- The function that a call names is missing, nil, or still to be synthesised.
pub data IsOpen (functions : Functions) (name : String) : Type 0 where
  missing : lookup name functions ≡ none → IsOpen functions name
  no_function : lookup name functions ≡ some none → IsOpen functions name
  to_synthesize :
      (fn : Function)
      → lookup name functions ≡ some (some fn)
      → fn.lazy_synthesize ≡ true
      → IsOpen functions name

-- The capability that the instruction at index `i` of the code needs, by what it does: the one of
-- its opcode; for a request the grant of its constant URL, or the one for computed URLs; the
-- database for a store of either scheme, and the filesystem for one that is not in memory; and any
-- capability for a call of code that is not there yet.
pub data Needs (fetch_grant : String → Option String) (functions : Functions)
    (code : List Instruction) (i : ℕ) (inst : Instruction) : Capability → Type 0 where
  by_opcode :
      (c : Capability)
      → ¬ IsRequest inst.op
      → (spec_of inst.op).capability ≡ c
      → c ≢ ""
      → Needs fetch_grant functions code i inst c
  by_constant_url :
      (url : String) (c : Capability)
      → HasUrl code i inst url
      → fetch_grant url ≡ some c
      → Needs fetch_grant functions code i inst c
  by_computed_url :
      (c : Capability)
      → IsRequest inst.op
      → ((url grant : String) → HasUrl code i inst url → fetch_grant url ≢ some grant)
      → c ≡ "network:fetch=<dynamic>"
      → Needs fetch_grant functions code i inst c
  by_store :
      (c : Capability)
      → inst.op ≡ store_open
      → HasScheme "memory://" inst.string_operand2 ⊎ HasScheme "file://" inst.string_operand2
      → c ≡ "database"
      → Needs fetch_grant functions code i inst c
  by_physical_store :
      (c : Capability)
      → inst.op ≡ store_open
      → ¬ HasScheme "memory://" inst.string_operand2
      → c ≡ "filesystem"
      → Needs fetch_grant functions code i inst c
  by_open_call :
      (c : Capability)
      → inst.op ≡ call
      → IsOpen functions inst.string_operand
      → IsCoarse c
      → Needs fetch_grant functions code i inst c
