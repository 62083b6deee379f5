-- ===== src/Artifact/Sound.antt =====
-- What a successful `ReadArtifact` says of the bytes and of the program.
use howlframe.Common.{
  some, ap, ◌∙◌, append-nil, subst, false, ℕ, true, ◌≡◌, refl, ◌++◌, length, ◌<◌, ◌≤◌, arith, leb,
  leb→le, ◌⊎◌,
}
use howlframe.Common.Result.{err, Result, >>=-ok-then, ok}
use howlframe.Artifact.Envelope.{
  write_artifact, resolve_artifact_opcode_names, as_invalid, invalid_magic, artifact_magic,
  unsupported_version, write_validated_artifact, corrupt, oversized, max_artifact_payload_size,
  artifact_version_map_payload, envelope, artifact_version, Codec, put_uint32, Bytes,
}
use howlframe.Artifact.Read.{
  decode_payload, read_artifact, open_envelope, open_version, open_payload, demand, is_empty,
  supported, read_uint32, same_bytes, read_full,
}
use howlframe.Validate.{validate_program, InvalidProgram}
use howlframe.Program.{Program}
use howlframe.Artifact.{err, new_artifact_payload}
use howlframe.Artifact.RoundTrip.{envelope_of, read_uint32-put_uint32, read_full-append}
use howlframe.Artifact.Bytes.{
  AllBytes, read_full-eq-ok, AllBytes-append, same_bytes-eq, demand-eq-ok, read_uint32-eq-ok,
  supported-cases, is_empty-eq,
}

-- The bytes are an envelope of the payload.
abbrev pub IsEnvelope : Codec → Bytes → ℕ → Bytes → Type 0
IsEnvelope codec bytes version payload =
    (bytes ≡ envelope version (codec.sha256 payload) payload)
    × ((version ≡ artifact_version) ⊎ (version ≡ artifact_version_map_payload))
    × (length payload ≤ max_artifact_payload_size)

open_payload-eq-ok :
    (codec : Codec) (version size : ℕ) (bytes : Bytes) (result : ℕ) (payload : Bytes)
    → open_payload codec version (size, bytes) ≡ ok (result, payload)
    → (version ≡ result)
      × (bytes ≡ codec.sha256 payload ++ payload)
      × (length payload ≡ size)
      × (size ≤ max_artifact_payload_size)
unfolding open_payload
open_payload-eq-ok codec version size bytes result payload h =
    >>=-ok-then (demand (leb size max_artifact_payload_size) oversized) _ h λ u₀ small h₀.
      >>=-ok-then (read_full 32 bytes) _ h₀ λ (hash, behind) front h₁.
        >>=-ok-then (read_full size behind) _ h₁ λ (body, garbage) back h₂.
          >>=-ok-then (demand (same_bytes (codec.sha256 body) hash) corrupt) _ h₂ λ u₁ sealed h₃.
            >>=-ok-then (demand (is_empty garbage) corrupt) _ h₃ λ u₂ over h₄.
              let same_version : version ≡ result = cc h₄ in
              let same_body : body ≡ payload = cc h₄ in
              let hashed = same_bytes-eq (codec.sha256 body) hash (demand-eq-ok _ _ u₁ sealed) in
              let nothing = is_empty-eq garbage (demand-eq-ok _ _ u₂ over) in
              let (whole, hash_size) = read_full-eq-ok front in
              let (inner, body_size) = read_full-eq-ok back in
              (
                same_version,
                rw (← same_body, hashed, ← append-nil body, ← nothing, ← inner) whole,
                rw (← same_body) body_size,
                leb→le size max_artifact_payload_size (demand-eq-ok _ _ u₀ small),
              )

open_version-eq-ok :
    (codec : Codec) (version : ℕ) (bytes : Bytes) (result : ℕ) (payload : Bytes)
    → AllBytes bytes
    → open_version codec (version, bytes) ≡ ok (result, payload)
    → (version ≡ result)
      × (bytes ≡ put_uint32 (length payload) ++ (codec.sha256 payload ++ payload))
      × (supported version ≡ true)
      × (length payload ≤ max_artifact_payload_size)
unfolding open_version
open_version-eq-ok codec version bytes result payload all h =
    >>=-ok-then (demand (supported version) (unsupported_version version)) _ h λ u₀ known h₀.
      >>=-ok-then (read_uint32 bytes) _ h₀ λ (size, behind) word h₁.
        let (whole, behind_bytes) = read_uint32-eq-ok bytes behind size all word in
        let (same, inner, body_size, small) =
          open_payload-eq-ok codec version size behind result payload h₁ in
        (same, rw (body_size, ← inner) whole, demand-eq-ok _ _ u₀ known, rw body_size small)

open_envelope-IsEnvelope :
    (codec : Codec) (bytes : Bytes) (version : ℕ) (payload : Bytes)
    → AllBytes bytes
    → open_envelope codec bytes ≡ ok (version, payload)
    → IsEnvelope codec bytes version payload
unfolding open_envelope
open_envelope-IsEnvelope codec bytes version payload all h =
    >>=-ok-then (read_full 4 bytes) _ h λ (magic, behind) front h₁.
      >>=-ok-then (demand (same_bytes magic artifact_magic) invalid_magic) _ h₁ λ u₀ marked h₂.
        >>=-ok-then (read_uint32 behind) _ h₂ λ (number, rest) word h₃.
          let (whole, magic_size) = read_full-eq-ok front in
          let (magic_bytes, behind_bytes) =
            AllBytes-append magic behind (subst AllBytes whole all) in
          let (inner, rest_bytes) = read_uint32-eq-ok behind rest number behind_bytes word in
          let (same, body, known, small) =
            open_version-eq-ok codec number rest version payload rest_bytes h₃ in
          let mark : magic ≡ artifact_magic =
            same_bytes-eq magic artifact_magic (demand-eq-ok _ _ u₀ marked) in
          (
            whole
                ∙ ap (λ m. m ++ behind) mark
                ∙ ap (λ b. artifact_magic ++ b) (rw (← same, ← body) inner),
            supported-cases version (subst (λ v. supported v ≡ true) same known),
            small,
          )

as_invalid-eq-ok {ℓ} :
    {A : Type ℓ} (r : Result InvalidProgram A) {a : A} → as_invalid r ≡ ok a → r ≡ ok a
as_invalid-eq-ok (err e) h = cc
as_invalid-eq-ok (ok b) h = cc

-- If reading bytes gives a program, then the bytes are exactly the envelope of a payload of at most
-- the maximum size, with its SHA-256 hash, in one of the two versions, and `ValidateProgram` accepts
-- the program.
pub read_artifact-IsEnvelope :
    (codec : Codec) (bytes : Bytes) (prog : Program)
    → AllBytes bytes
    → read_artifact codec bytes ≡ ok prog
    → (version : ℕ) × (payload : Bytes) × IsEnvelope codec bytes version payload
      × (validate_program prog ≡ ok tt)
unfolding read_artifact
read_artifact-IsEnvelope codec bytes prog all h =
    >>=-ok-then (open_envelope codec bytes) _ h λ (version, payload) opened h₁.
      >>=-ok-then (decode_payload codec version payload) _ h₁ λ decoded e h₂.
        >>=-ok-then (as_invalid (resolve_artifact_opcode_names decoded)) _ h₂ λ resolved r h₃.
          >>=-ok-then (as_invalid (validate_program resolved)) _ h₃ λ u checked h₄.
            let same : resolved ≡ prog = cc h₄ in
            (
              version,
              payload,
              open_envelope-IsEnvelope codec bytes version payload all opened,
              subst (λ p. validate_program p ≡ ok tt) same
                  (as_invalid-eq-ok (validate_program resolved) checked),
            )

-- A program whose payload is longer than the maximum size is written, and reading it is refused.
pub write_validated_artifact-oversized :
    (codec : Codec) (prog : Program) (payload : Bytes)
    → codec.encode (new_artifact_payload prog) ≡ some payload
    → max_artifact_payload_size < length payload
    → length payload < 4294967296
    → validate_program prog ≡ ok tt
    → (write_validated_artifact codec prog ≡ ok (envelope_of codec payload))
      × (read_artifact codec (envelope_of codec payload) ≡ err oversized)
unfolding write_validated_artifact read_artifact open_envelope open_version open_payload
write_validated_artifact-oversized codec prog payload encoded large fits valid =
    let sum = codec.sha256 payload in
    let over : leb (length payload) max_artifact_payload_size ≡ false = ground (arith, large) in
    (
      rw (valid, write_artifact, encoded) refl,
      rw
          (
            read_full-append 4 artifact_magic
                (put_uint32 artifact_version ++ (put_uint32 (length payload) ++ (sum ++ payload)))
                refl,
            read_uint32-put_uint32 artifact_version
                (put_uint32 (length payload) ++ (sum ++ payload)) (omega arith),
            read_uint32-put_uint32 (length payload) (sum ++ payload) fits,
            over,
          )
          refl,
    )
