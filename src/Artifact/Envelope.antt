-- ===== src/Artifact/Envelope.antt =====
-- The envelope of internal/bytecode/artifact.go: `WriteArtifact`, `WriteValidatedArtifact`,
-- `resolveArtifactOpcodeNames` and `ReadArtifact`.
use howlframe.Common.{
  str_eq, if◌then◌else◌, String, Option, List, suc, ◌∷◌, [], none, some, ◌%◌, ◌/◌, ◌++◌, length, ℕ,
}
use howlframe.Common.Result.{◌>>=◌, ◌>>◌, ok, err, Result}
use howlframe.Artifact.{new_artifact_payload, PayloadError, ArtifactPayload}
use howlframe.Program.{Function, Functions, Instruction, Program}
use howlframe.Validate.{in_function, unknown_opcode_name, in_main, validate_program, InvalidProgram}
use howlframe.Opcode.{name_to_opcode, Opcode}

-- Bytes, as numbers below 256.
abbrev pub Bytes : Type 0
Bytes = List ℕ

-- crypto/sha256 and encoding/gob; `none` is an error. Version 1 encodes a `BCProgram` itself.
pub record Codec : Type 0 where
  pub sha256 : Bytes → Bytes
  pub encode : ArtifactPayload → Option Bytes
  pub decode : Bytes → Option ArtifactPayload
  pub decode_program : Bytes → Option Program

-- `ArtifactMagic`, "HFBC".
abbrev pub artifact_magic : Bytes
artifact_magic = 72 ∷ 70 ∷ 66 ∷ 67 ∷ []

abbrev pub artifact_version : ℕ
artifact_version = 2

abbrev pub artifact_version_map_payload : ℕ
artifact_version_map_payload = 1

abbrev pub max_artifact_payload_size : ℕ
max_artifact_payload_size = 10485760

-- `binary.Write` of a uint32 in little endian.
abbrev pub put_uint32 : ℕ → Bytes
put_uint32 n = n % 256 ∷ n / 256 % 256 ∷ n / 65536 % 256 ∷ n / 16777216 % 256 ∷ []

abbrev pub envelope : ℕ → Bytes → Bytes → Bytes
envelope version hash payload =
    artifact_magic ++ (put_uint32 version ++ (put_uint32 (length payload) ++ (hash ++ payload)))

-- Errors of `WriteValidatedArtifact` and `ReadArtifact`.
pub data ArtifactError : Type 0 where
  not_encoded truncated invalid_magic oversized corrupt : ArtifactError
  unsupported_version : ℕ → ArtifactError
  corrupt_table : PayloadError → ArtifactError
  invalid_program : InvalidProgram → ArtifactError

abbrev pub Artifact : Type 0 → Type 0
Artifact = Result ArtifactError

abbrev pub sealed : Codec → Option Bytes → Artifact Bytes
sealed codec none = err not_encoded
sealed codec (some payload) = ok (envelope artifact_version (codec.sha256 payload) payload)

-- `WriteArtifact`
unfoldable pub write_artifact : Codec → Program → Artifact Bytes
write_artifact codec prog = sealed codec (codec.encode (new_artifact_payload prog))

abbrev pub as_invalid {ℓ} : {A : Type ℓ} → Result InvalidProgram A → Result ArtifactError A
as_invalid (err e) = err (invalid_program e)
as_invalid (ok a) = ok a

-- `WriteValidatedArtifact`
unfoldable pub write_validated_artifact : Codec → Program → Artifact Bytes
unfolding write_artifact
write_validated_artifact codec prog =
    as_invalid (validate_program prog) >> write_artifact codec prog

abbrev pub with_opcode : ℕ → Instruction → Option Opcode → Result InvalidProgram Instruction
with_opcode i inst none = err (unknown_opcode_name i inst.op_string)
with_opcode i inst (some op) = ok (record inst { op = op })

-- One round of the loop of `resolve`: an instruction without a name keeps its opcode.
unfoldable pub resolve_instruction : ℕ → Instruction → Result InvalidProgram Instruction
resolve_instruction i inst =
    if str_eq inst.op_string "" then ok inst else with_opcode i inst (name_to_opcode inst.op_string)

unfoldable pub resolve_from : ℕ → List Instruction → Result InvalidProgram (List Instruction)
unfolding resolve_instruction
resolve_from i [] = ok []
resolve_from i (inst ∷ insts) = do
  resolved ← resolve_instruction i inst
  others ← resolve_from (suc i) insts
  ok (resolved ∷ others)

abbrev pub wrap_resolved {ℓ} :
    {A : Type ℓ}
    → (InvalidProgram → InvalidProgram)
    → Result InvalidProgram A
    → Result InvalidProgram A
wrap_resolved f (err e) = err (f e)
wrap_resolved f (ok a) = ok a

abbrev pub resolve_function : String → Option Function → Result InvalidProgram (Option Function)
resolve_function name none = ok none
resolve_function name (some fn) = do
  insts ← wrap_resolved (in_function name) (resolve_from 0 fn.instructions)
  ok (some (record fn { instructions = insts }))

unfoldable pub resolve_functions : Functions → Result InvalidProgram Functions
resolve_functions [] = ok []
resolve_functions ((name, fn) ∷ rest) = do
  resolved ← resolve_function name fn
  others ← resolve_functions rest
  ok ((name, resolved) ∷ others)

-- `resolveArtifactOpcodeNames`
unfoldable pub resolve_artifact_opcode_names : Program → Result InvalidProgram Program
unfolding resolve_from resolve_functions
resolve_artifact_opcode_names prog = do
  main ← wrap_resolved in_main (resolve_from 0 prog.main)
  functions ← resolve_functions prog.functions
  ok (record prog { main = main; functions = functions })
