-- ===== src/Artifact.antt =====
-- internal/bytecode/artifact.go: the payload of an artifact, its envelope, and the names of opcodes.
-- Readers and writers are lists of bytes, whose only error is their end.
pub mod Payload
pub mod Envelope
pub mod Read
pub mod Names
pub mod RoundTrip
pub mod Bytes
pub mod Sound
mod Tests
use howlframe.Common.{
  ◌==◌, length, has_key, contains, insert, map, lookup, if◌then◌else◌, String, ℕ, sort_strings,
  Option, ℤ, List, ◌∷◌, [], none, some,
}
use howlframe.Program.{Instruction, Program, Function, Functions}
use howlframe.Common.Result.{◌>>=◌, err, ok, Result}

-- The first name of every entry of a map, without an order.
unfoldable pub keys {ℓ} : {V : Type ℓ} → List (String × V) → List String
keys [] = []
keys ((k, v) ∷ m) = let others = keys m in if contains k others then others else k ∷ others

-- `artifactPayload`, the wire form of a program in version 2.
pub record ArtifactPayload : Type 0 where
  pub version : ℤ
  pub functions : List (Option Function)
  pub names : List String
  pub main : List Instruction

-- `prog.Functions[name]`, nil where there is no entry.
abbrev pub or_nil : Option (Option Function) → Option Function
or_nil none = none
or_nil (some fn) = fn

unfoldable pub function_at : Functions → String → Option Function
function_at functions name = or_nil (lookup name functions)

-- `newArtifactPayload`
unfoldable pub new_artifact_payload : Program → ArtifactPayload
unfolding sort_strings keys function_at
new_artifact_payload prog =
    let names = sort_strings (keys prog.functions) in
    record {
      version = prog.version;
      functions = map (function_at prog.functions) names;
      names = names;
      main = prog.main;
    }

-- Errors of `program`.
pub data PayloadError : Type 0 where
  table_length : ℕ → ℕ → PayloadError
  duplicate_function : String → PayloadError

abbrev pub zip : List String → List (Option Function) → Functions
zip (name ∷ names) (fn ∷ fns) = (name, fn) ∷ zip names fns
zip _ _ = []

-- The loop of `program` over names and functions.
unfoldable pub add_functions : Functions → Functions → Result PayloadError Functions
add_functions functions [] = ok functions
add_functions functions ((name, fn) ∷ entries) =
    let added = add_functions (insert name fn functions) entries in
    if has_key name functions then err (duplicate_function name) else added

-- `program`
unfoldable pub program : ArtifactPayload → Result PayloadError Program
unfolding add_functions
program p =
    if length p.names == length p.functions
    then (do
      functions ← add_functions [] (zip p.names p.functions)
      ok (record { version = p.version; functions = functions; main = p.main }))
    else err (table_length (length p.names) (length p.functions))
