-- ===== src/Report/Tests.antt =====
-- The report of a concrete program.
use howlframe.Report.Needs.{by_constant_url, without_body}
use howlframe.Opcode.{Opcode}
use howlframe.Program.{Value, Instruction}
use howlframe.Artifact.{keys, function_at}
use howlframe.Common.{
  delete, ℤ, List, inl, str_lt, sort_strings, insert, lookup, str_lt, Option, ◌≡◌, refl, pos, some,
  none, [], ◌∷◌, true, false, contains, String,
}
use howlframe.Program.{instruction, Program, Function}
use howlframe.Report.{scan_from, scan_functions, scan, is_fetch, required_capabilities}
use howlframe.Opcode.{call, read_file, spec_of}
use howlframe.Report.Complete.{required_capabilities-Needs}

-- Two instructions: a file is read, and an unknown function is called.
abbrev reader : Function
reader = record {
  params = [];
  instructions =
      instruction "READ_FILE" read_file
      ∷ record (instruction "CALL" call) { string_operand = "absent" }
      ∷ [];
  lazy_synthesize = false;
  docstring = "";
  name = "";
}

abbrev reading : Program
reading = record { version = pos 1; functions = ("load", some reader) ∷ []; main = [] }

abbrev no_grant : String → Option String
no_grant url = none

capabilities_example :
    (required_capabilities no_grant reading).capabilities
    ≡ "database" ∷ "environment" ∷ "filesystem" ∷ "network" ∷ "process" ∷ []
unfolding required_capabilities str_lt sort_strings keys function_at lookup spec_of insert
capabilities_example = refl

abbrev load_text : String → Instruction
load_text t = record (instruction "LOAD_CONST" Opcode.load_const) { value_operand = Value.string t }

-- (fetch "http://a" "GET")
abbrev fetch_main : List Instruction
fetch_main = load_text "http://a" ∷ load_text "GET" ∷ instruction "FETCH" Opcode.fetch ∷ []

abbrev fetching : Program
fetching = record { version = pos 1; functions = []; main = fetch_main }

-- The grant of a URL is written as the URL.
abbrev same_grant : String → Option String
same_grant url = some url

required_capabilities-Needs_example :
    contains "http://a" (required_capabilities same_grant fetching).capabilities ≡ true
required_capabilities-Needs_example =
    required_capabilities-Needs same_grant fetching fetch_main 2 (instruction "FETCH" Opcode.fetch)
      "http://a" (inl refl) refl
      (by_constant_url "http://a" "http://a"
        (without_body 0 (inl refl) refl (record {
          first = load_text "http://a";
          second = load_text "GET";
          first_eq = refl;
          second_eq = refl;
          first_loads = refl;
          second_loads = refl;
          url_eq = refl;
        }))
        refl)

abbrev with_int : ℤ → Instruction → Instruction
with_int n inst = record inst { int_operand = n }

-- (fetch (if c "http://a" "http://b") "GET"): the request may go to either URL.
abbrev branching : Program
branching = record {
  version = pos 1;
  functions = [];
  main =
      record (instruction "LOAD_VAR" Opcode.load_var) { string_operand = "c" }
      ∷ with_int (pos 2) (instruction "JUMP_IF_FALSE" Opcode.jump_if_false)
      ∷ load_text "http://a"
      ∷ with_int (pos 1) (instruction "JUMP" Opcode.jump)
      ∷ load_text "http://b"
      ∷ load_text "GET"
      ∷ instruction "FETCH" Opcode.fetch
      ∷ [];
}

-- Only the one whose load stands in front of the request is reported.
first_branch_unreported :
    (required_capabilities same_grant branching).capabilities ≡ "http://b" ∷ []
unfolding required_capabilities scan scan_functions scan_from str_lt sort_strings keys function_at
    lookup spec_of insert is_fetch delete
first_branch_unreported = refl
