-- ===== src/Vm/Value.antt =====
-- The values, the state and the surroundings of the machine of internal/vm/vm.go and error.go.
use howlframe.Common.{ℕ, String, Bool, Option, List, [], ◌∷◌, ℤ}
use howlframe.Common.Result.{Result}
use howlframe.Opcode.{Opcode}
use howlframe.Capability.{Capability}
use howlframe.Capability.Grants.{Parsers}
use howlframe.Program.{Instruction, Functions}

-- A Go `any` on the operand stack. A float64 is its IEEE 754 bit pattern, `int` is an int64, `bytes`
-- a []byte, and a `dict` the place of a map[string]any in the heap, since maps are shared. No
-- instruction writes to a []any that it has pushed, so `list` has its items. A `handle` is an object
-- of the instructions that the host performs: a database, a store, a request, a server.
mutual
  pub data Val : Type 0 where
    nil : Val
    bool : Bool → Val
    int : ℤ → Val
    float : ℕ → Val
    string : String → Val
    bytes : List ℕ → Val
    list : Vals → Val
    dict : ℕ → Val
    handle : ℕ → Val

  pub data Vals : Type 0 where
    end : Vals
    item : Val → Vals → Vals

abbrev pub to_list : Vals → List Val
to_list end = []
to_list (item v vs) = v ∷ to_list vs

abbrev pub of_list : List Val → Vals
of_list [] = end
of_list (v ∷ vs) = item v (of_list vs)

-- A map[string]any, as a list of its entries.
abbrev pub Vars : Type 0
Vars = List (String × Val)

-- An argument of `fmt.Sprintf`: a value by its Go type (%T), or as it prints.
pub data Arg : Type 0 where
  type_of : Val → Arg
  value : Val → Arg
  number : ℤ → Arg
  text : String → Arg

-- `VMError`, with the format of its message and the arguments; the phase and the function are
-- always "runtime" and "main". The exit status of a child process is the host's.
pub record VmError : Type 0 where
  pub code : String
  pub instruction : ℤ
  pub op : Opcode
  pub format : String
  pub args : List Arg

-- `NewRuntimeError(code, "main", ip, op, format, args...)`
abbrev pub runtime_error : String → ℤ → Opcode → String → List Arg → VmError
runtime_error code ip op format args = record {
  code = code;
  instruction = ip;
  op = op;
  format = format;
  args = args;
}

-- `VMLimits`, less the limits that only the host's instructions read.
pub record Limits : Type 0 where
  pub max_instructions : ℤ
  pub max_memory_bytes : ℤ
  pub max_call_depth : ℤ
  pub max_startup_instructions : ℤ

-- `BCVM` and the chain of `BcEnv`, the innermost first, with `prog.Functions`, the maps that the
-- program has made, and the text written to `vm.Out` and `vm.ErrOut`. `world` stands for the files,
-- the network, the processes and the databases, and `session` for the input, the clock and the HTTP
-- exchange: numbers that only the host reads.
pub record State : Type 0 where
  pub stack : List Val
  pub frames : List Vars
  pub heap : List Vars
  pub functions : Functions
  pub ip : ℤ
  pub executed : ℕ
  pub call_depth : ℕ
  pub spawn_depth : ℕ
  pub memory : ℕ
  pub grants : List Capability
  pub out : List String
  pub err_out : List String
  pub world : ℕ
  pub session : ℕ

-- What the process depends on to go on. `comes_back`: the code of an instruction that the host
-- performs, and of CALL for a function to be synthesised, returns; it does not for HTTP_SERVER_SERVE
-- while `ListenAndServe` serves. `slice_fits`: `make([]any, n)` does not panic. `memory_suffices`: the
-- Go runtime has the memory for it; otherwise it ends the process, which no `recover` sees.
pub record Outside : Type 0 where
  pub comes_back : Opcode → State → Bool
  pub slice_fits : ℕ → Bool
  pub memory_suffices : ℕ → Bool

-- What a run does not change: `vm.Limits`, `vm.startup`, `vm.args`, `prog.IsModelAdapter()` and what
-- the process depends on.
pub record Config : Type 0 where
  pub limits : Limits
  pub startup : Bool
  pub args : List String
  pub model_adapter : Bool
  pub outside : Outside

-- What an instruction of the host leaves behind: the new stack, what it binds in the innermost
-- environment, the bytes that it charges, and the number of instructions that it skips.
pub record Effect : Type 0 where
  pub stack : List Val
  pub heap : List Vars
  pub binds : Vars
  pub out : List String
  pub err_out : List String
  pub world : ℕ
  pub session : ℕ
  pub charges : List ℕ
  pub result : Result VmError ℕ

-- The Go functions that the machine calls, and the instructions whose code is not modelled.
-- float64 arithmetic and `float64(int64)`, on bits; `int64(f)` outside the range and `byte(f)`;
-- fmt.Sprint, fmt.Sprintf with %q, and the text of a message; strconv, strings, textcase, regexp and html; string(bytes); `CatchString`;
-- encodeJSONText after normalizeForJSON, with its error's text; and the parsers of
-- grants. `capture` is cloneStoreValue over the variables of an agent. `guarded` performs an instruction that needs a capability,
-- `unguarded` one that needs none: it leaves the world as it is. `synthesize` is the body that
-- CALL gets for a function to be synthesised, and `expired` whether the deadline has passed.
pub record Host : Type 0 where
  pub float_add : ℕ → ℕ → ℕ
  pub float_sub : ℕ → ℕ → ℕ
  pub float_mul : ℕ → ℕ → ℕ
  pub float_div : ℕ → ℕ → ℕ
  pub float_of_int : ℤ → ℕ
  pub int_of_wild_float : ℕ → ℤ
  pub byte_of_float : ℕ → ℕ
  pub sprint : List Vars → Val → String
  pub quote : String → String
  pub message : VmError → String
  pub parse_int : String → Option ℤ
  pub parse_float : String → Option ℕ
  pub trim_space : String → String
  pub to_lower : String → String
  pub to_upper : String → String
  pub split : String → String → List String
  pub match_regex : String → String → Result String Bool
  pub html_escape : String → String
  pub string_of_bytes : List ℕ → String
  pub encode_json : List Vars → Val → Result String String
  pub catch_string : VmError → String
  pub parsers : Parsers
  pub capture : List Vars → List Vars → Vars × List Vars
  pub guarded : Instruction → State → Effect
  pub unguarded : Instruction → State → Effect
  pub synthesize : String → State → Effect × List Instruction
  pub expired : State → Bool
