-- ===== src/Artifact/Read.antt =====
-- `ReadArtifact` of internal/bytecode/artifact.go.
use howlframe.Common.{
  drop, take, leb, if◌then◌else◌, Option, Bool, false, true, ◌∷◌, [], none, some, ◌==◌, ◌+◌, ◌*◌,
  ◌&&◌, ◌||◌, length, ℕ,
}
use howlframe.Common.Result.{◌>>=◌, ok, err, Result}
use howlframe.Artifact.Envelope.{
  oversized, truncated, max_artifact_payload_size, unsupported_version,
  resolve_artifact_opcode_names, invalid_magic, as_invalid, corrupt_table, corrupt, artifact_magic,
  artifact_version_map_payload, artifact_version, ArtifactError, Artifact, Codec, Bytes,
}
use howlframe.Artifact.{program, PayloadError}
use howlframe.Program.{Program}
use howlframe.Validate.{validate_program}

-- `io.ReadFull` of a buffer of `n` bytes: the bytes read and those behind them.
unfoldable pub read_full : ℕ → Bytes → Artifact (Bytes × Bytes)
read_full n bytes = if leb n (length bytes) then ok (take n bytes, drop n bytes) else err truncated

abbrev pub uint32_of : Bytes → ℕ
uint32_of (a ∷ b ∷ c ∷ d ∷ []) = a + 256 * b + 65536 * c + 16777216 * d
uint32_of _ = 0

-- `binary.Read` of a uint32 in little endian.
unfoldable pub read_uint32 : Bytes → Artifact (ℕ × Bytes)
unfolding read_full
read_uint32 bytes = do (word, rest) ← read_full 4 bytes; ok (uint32_of word, rest)

abbrev pub same_bytes : Bytes → Bytes → Bool
same_bytes [] [] = true
same_bytes (x ∷ xs) (y ∷ ys) = x == y && same_bytes xs ys
same_bytes _ _ = false

abbrev pub demand : Bool → ArtifactError → Artifact (Unit {0})
demand test e = if test then ok tt else err e

abbrev pub supported : ℕ → Bool
supported version = version == artifact_version || version == artifact_version_map_payload

abbrev pub is_empty : Bytes → Bool
is_empty [] = true
is_empty (b ∷ bs) = false

-- The payload of the size that the envelope gives, behind its hash, at the end of the bytes.
unfoldable pub open_payload : Codec → ℕ → ℕ × Bytes → Artifact (ℕ × Bytes)
open_payload codec version (size, bytes) = do
  _ ← demand (leb size max_artifact_payload_size) oversized
  (hash, behind) ← read_full 32 bytes
  (payload, garbage) ← read_full size behind
  _ ← demand (same_bytes (codec.sha256 payload) hash) corrupt
  _ ← demand (is_empty garbage) corrupt
  ok (version, payload)

unfoldable pub open_version : Codec → ℕ × Bytes → Artifact (ℕ × Bytes)
unfolding open_payload
open_version codec (version, bytes) = do
  _ ← demand (supported version) (unsupported_version version)
  sized ← read_uint32 bytes
  open_payload codec version sized

-- The envelope: the version and the payload.
unfoldable pub open_envelope : Codec → Bytes → Artifact (ℕ × Bytes)
unfolding open_version read_uint32
open_envelope codec bytes = do
  (magic, behind) ← read_full 4 bytes
  _ ← demand (same_bytes magic artifact_magic) invalid_magic
  versioned ← read_uint32 behind
  open_version codec versioned

abbrev pub or_corrupt {ℓ} : {A : Type ℓ} → Option A → Result ArtifactError A
or_corrupt none = err corrupt
or_corrupt (some a) = ok a

abbrev pub as_corrupt : Result PayloadError Program → Artifact Program
as_corrupt (err e) = err (corrupt_table e)
as_corrupt (ok prog) = ok prog

-- The payload of either version.
unfoldable pub decode_payload : Codec → ℕ → Bytes → Artifact Program
decode_payload codec version payload =
    if version == artifact_version_map_payload
    then or_corrupt (codec.decode_program payload)
    else (or_corrupt (codec.decode payload) >>= λ wire. as_corrupt (program wire))

-- `ReadArtifact`
unfoldable pub read_artifact : Codec → Bytes → Artifact Program
unfolding open_envelope decode_payload
read_artifact codec bytes = do
  (version, payload) ← open_envelope codec bytes
  decoded ← decode_payload codec version payload
  prog ← as_invalid (resolve_artifact_opcode_names decoded)
  _ ← as_invalid (validate_program prog)
  ok prog
