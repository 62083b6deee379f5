-- ===== src/Artifact/RoundTrip.antt =====
-- An artifact that is written is read back.
use howlframe.Common.{
  String, EntriesHold, Option, suc, none, some, append-nil, subst, length-append, ℕ, List, true,
  ◌∷◌, [], ◌≡◌, refl, ◌++◌, length, ◌<◌, ◌≤◌, arith, take, drop, leb, le→leb,
}
use howlframe.Artifact.Read.{
  open_payload, open_version, decode_payload, read_artifact, uint32_of, open_envelope, same_bytes,
  read_uint32, read_full,
}
use howlframe.Artifact.Envelope.{
  write_artifact, write_validated_artifact, artifact_magic, artifact_version, envelope,
  max_artifact_payload_size, put_uint32, Codec, Bytes,
}
use howlframe.Common.Result.{ok}
use howlframe.Program.{Instruction, Function, Program, Functions}
use howlframe.Artifact.{new_artifact_payload, ArtifactPayload}
use howlframe.Artifact.Payload.{
  program-new_artifact_payload, EntriesHold-stored, stored-SameMap, stored, SameMap,
}
use howlframe.Validate.{validate_program}
use howlframe.Opcode.{call, Opcode}
use howlframe.Validate.Sound.{InstructionFits, validate_program_iff, AllFit, FunctionFits}
use howlframe.Validate.Fits.{CalleeExists}
use howlframe.Artifact.Names.{resolve_artifact_opcode_names-named, FunctionNamed, AllNamed}

take-append {ℓ} : {A : Type ℓ} (xs ys : List A) → take (length xs) (xs ++ ys) ≡ xs
take-append [] ys = refl
take-append (x ∷ xs) ys = rw (take-append xs ys) refl

drop-append {ℓ} : {A : Type ℓ} (xs ys : List A) → drop (length xs) (xs ++ ys) ≡ ys
drop-append [] ys = refl
drop-append (x ∷ xs) ys = drop-append xs ys

-- A buffer is filled by the bytes that were written first.
pub read_full-append :
    (n : ℕ) (xs ys : Bytes) → length xs ≡ n → read_full n (xs ++ ys) ≡ ok (xs, ys)
unfolding read_full
read_full-append n xs ys e =
    let enough : leb (length xs) (length (xs ++ ys)) ≡ true =
      le→leb (length xs) (length (xs ++ ys)) (omega (arith, length-append xs ys)) in
    rw (← e, enough, take-append xs ys, drop-append xs ys) refl

pub read_uint32-put_uint32 :
    (n : ℕ) (ys : Bytes) → n < 4294967296 → read_uint32 (put_uint32 n ++ ys) ≡ ok (n, ys)
unfolding read_uint32
read_uint32-put_uint32 n ys small =
    let word : uint32_of (put_uint32 n) ≡ n = omega arith in
    rw (read_full-append 4 (put_uint32 n) ys refl, word) refl

same_bytes_refl : (xs : Bytes) → same_bytes xs xs ≡ true
same_bytes_refl [] = refl
same_bytes_refl (x ∷ xs) = ground (arith, same_bytes_refl xs)

module _ (codec : Codec) (hash_size : (payload : Bytes) → length (codec.sha256 payload) ≡ 32) where
  open_envelope-envelope :
      (payload : Bytes)
      → length payload ≤ max_artifact_payload_size
      → open_envelope codec (envelope artifact_version (codec.sha256 payload) payload)
        ≡ ok (artifact_version, payload)
  unfolding open_envelope open_version open_payload
  open_envelope-envelope payload fits =
      let hash = codec.sha256 payload in
      let small : leb (length payload) max_artifact_payload_size ≡ true = le→leb _ _ fits in
      let ending : read_full (length payload) payload ≡ ok (payload, []) =
        subst (λ p. read_full (length payload) p ≡ ok (payload, [])) (append-nil payload)
          (read_full-append (length payload) payload [] refl) in
      rw
        (
          read_full-append 4 artifact_magic
              (put_uint32 artifact_version ++ (put_uint32 (length payload) ++ (hash ++ payload)))
              refl,
          read_uint32-put_uint32 artifact_version (put_uint32 (length payload) ++ (hash ++ payload))
              (omega arith),
          read_uint32-put_uint32 (length payload) (hash ++ payload) (omega arith),
          small,
          read_full-append 32 hash payload (hash_size payload),
          ending,
          same_bytes_refl hash,
        )
        refl

-- Whether an instruction fits depends on the map of functions, not on the order of its entries.
module _ (functions others : Functions) (same : SameMap others functions) where
  CalleeExists-SameMap :
      (op : Opcode) (name : String) → CalleeExists functions op name → CalleeExists others op name
  CalleeExists-SameMap call name h = λ e. h (rw (← same name) e)
  CalleeExists-SameMap _ name h = h

  InstructionFits-SameMap :
      (i : ℕ) (inst : Instruction) (after : ℕ)
      → InstructionFits functions i inst after
      → InstructionFits others i inst after
  InstructionFits-SameMap i inst after (op, resolves, target, segments, constant, callee) =
      (op, resolves, target, segments, constant, CalleeExists-SameMap op inst.string_operand callee)

  AllFit-SameMap :
      (i : ℕ) (insts : List Instruction) → AllFit functions i insts → AllFit others i insts
  AllFit-SameMap i [] h = tt
  AllFit-SameMap i (inst ∷ insts) (h, hs) =
      (InstructionFits-SameMap i inst (length insts) h, AllFit-SameMap (suc i) insts hs)

  FunctionFits-SameMap : (fn : Option Function) → FunctionFits functions fn → FunctionFits others fn
  FunctionFits-SameMap none h = h
  FunctionFits-SameMap (some fn) h = AllFit-SameMap 0 fn.instructions h

EntriesHold-map :
    {P Q : Option Function → Type 0}
    → ((fn : Option Function) → P fn → Q fn)
    → (m : Functions) → EntriesHold P m
    → EntriesHold Q m
EntriesHold-map f [] h = tt
EntriesHold-map f ((k, v) ∷ m) (h, hs) = (f v h, EntriesHold-map f m hs)

-- The program that an artifact keeps.
abbrev pub stored_program : Program → Program
stored_program prog = record prog { functions = stored prog.functions }

validate_program-stored :
    (prog : Program)
    → validate_program prog ≡ ok tt
    → validate_program (stored_program prog) ≡ ok tt
validate_program-stored prog valid =
    let kept = stored prog.functions in
    let same = stored-SameMap prog.functions in
    let (main, functions) = (validate_program_iff prog).0 valid in
    (validate_program_iff (stored_program prog)).1 (
      AllFit-SameMap prog.functions kept same 0 prog.main main,
      EntriesHold-map (FunctionFits-SameMap prog.functions kept same) kept
          (EntriesHold-stored (FunctionFits prog.functions) prog.functions functions),
    )

-- What the artifact needs of gob and SHA-256: a decoder that undoes the encoder, and 32 bytes.
pub record CodecLaws (codec : Codec) : Type 0 where
  pub hash_size : (payload : Bytes) → length (codec.sha256 payload) ≡ 32
  pub decode-encode :
      (p : ArtifactPayload) (payload : Bytes)
      → codec.encode p ≡ some payload
      → codec.decode payload ≡ some p

-- The artifact of a payload, in the version that is written.
abbrev pub envelope_of : Codec → Bytes → Bytes
envelope_of codec payload = envelope artifact_version (codec.sha256 payload) payload

-- A valid program whose opcodes agree with their names, and whose payload is at most the maximum
-- size, is written, and reading what was written gives the program with its functions by ascending
-- names, which is the same map. The decoder of payloads undoes the encoder, and a hash has 32 bytes.
pub read_artifact-write_validated_artifact :
    (codec : Codec) (laws : CodecLaws codec) (prog : Program) (payload : Bytes)
    → codec.encode (new_artifact_payload prog) ≡ some payload
    → length payload ≤ max_artifact_payload_size
    → validate_program prog ≡ ok tt
    → AllNamed prog.main
    → EntriesHold FunctionNamed prog.functions
    → (write_validated_artifact codec prog ≡ ok (envelope_of codec payload))
      × (read_artifact codec (envelope_of codec payload) ≡ ok (stored_program prog))
      × SameMap (stored prog.functions) prog.functions
unfolding write_validated_artifact read_artifact decode_payload
read_artifact-write_validated_artifact codec laws prog payload encoded fits valid main functions = (
  rw (valid, write_artifact, encoded) refl,
  rw
      (
        open_envelope-envelope codec laws.hash_size payload fits,
        laws.decode-encode (new_artifact_payload prog) payload encoded,
        (program-new_artifact_payload prog).0,
        resolve_artifact_opcode_names-named (stored_program prog) main
            (EntriesHold-stored FunctionNamed prog.functions functions),
        validate_program-stored prog valid,
      )
      refl,
  stored-SameMap prog.functions,
)
