-- ===== src/Artifact/Tests.antt =====
-- Artifacts of a concrete program, with a codec that knows this program's payload.
use howlframe.Common.{
  ltb, lookup, ◌==◌, sym, if◌then◌else◌, String, Option, ℤ, List, str_lt, ℕ, zero, suc, ◌≡◌, refl,
  pos, str_eq, eq_iff, ◌&&◌, Bool, true, false, not, some, none, [], ◌∷◌, length, arith,
}
use howlframe.Common.Result.{err, ok}
use howlframe.Program.{Instruction, Program, Function}
use howlframe.Artifact.{program, ArtifactPayload, new_artifact_payload}
use howlframe.Artifact.Envelope.{oversized, write_validated_artifact, Codec, Bytes}
use howlframe.Validate.{validate_instructions, validate_program}
use howlframe.Artifact.RoundTrip.{
  envelope_of, read_artifact-write_validated_artifact, stored_program, CodecLaws,
}
use howlframe.Artifact.Read.{read_artifact}
use howlframe.Artifact.Payload.{
  program-new_artifact_payload, stored-SameMap, new_artifact_payload-SameMap, stored, SameMap,
}
use howlframe.Artifact.Sound.{
  write_validated_artifact-oversized, read_artifact-IsEnvelope, IsEnvelope,
}
use howlframe.Artifact.Bytes.{AllBytes}

abbrev plain_function : Function
plain_function = record {
  params = [];
  instructions = [];
  lazy_synthesize = false;
  docstring = "";
  name = "";
}

abbrev two_functions : Program
two_functions = record {
  version = pos 1;
  functions = ("g", some plain_function) ∷ ("f", some plain_function) ∷ [];
  main = [];
}

-- "f" in front of "g", whatever the order of the map.
payload_example : (new_artifact_payload two_functions).names ≡ "f" ∷ "g" ∷ []
unfolding new_artifact_payload str_lt
payload_example = refl

abbrev is_nil {ℓ} : {A : Type ℓ} → List A → Bool
is_nil [] = true
is_nil (x ∷ xs) = false

is_nil-eq {ℓ} : {A : Type ℓ} (xs : List A) → is_nil xs ≡ true → xs ≡ []
is_nil-eq [] h = refl
is_nil-eq (x ∷ xs) h = cc

abbrev is_plain : Function → Bool
is_plain fn =
    is_nil fn.params
    && is_nil fn.instructions
    && not fn.lazy_synthesize
    && str_eq fn.docstring ""
    && str_eq fn.name ""

and-true : (a b : Bool) → (a && b) ≡ true → (a ≡ true) × (b ≡ true)
and-true a b h = (ground arith, ground arith)

is_plain-eq : (fn : Function) → is_plain fn ≡ true → fn ≡ plain_function
is_plain-eq fn h =
    let params : fn.params ≡ [] = is_nil-eq fn.params (ground (arith, h)) in
    let instructions : fn.instructions ≡ [] = is_nil-eq fn.instructions (ground (arith, h)) in
    let lazy : fn.lazy_synthesize ≡ false = ground (arith, h) in
    let docstring : fn.docstring ≡ "" = (eq_iff fn.docstring "").0 (ground (arith, h)) in
    let name : fn.name ≡ "" = (eq_iff fn.name "").0 (ground (arith, h)) in
    λ i. record {
      params = params i;
      instructions = instructions i;
      lazy_synthesize = lazy i;
      docstring = docstring i;
      name = name i;
    }

-- The payload of two plain functions "f" and "g" is the byte of the version.
abbrev test_payload : ℕ → ArtifactPayload
test_payload n = record {
  version = pos n;
  functions = some plain_function ∷ some plain_function ∷ [];
  names = "f" ∷ "g" ∷ [];
  main = [];
}

abbrev encode_parts :
    Bytes → ℤ → List (Option Function) → List String → List Instruction → Option Bytes
encode_parts bytes (pos n) (some a ∷ some b ∷ []) (x ∷ y ∷ []) [] =
    if str_eq x "f" && str_eq y "g" && is_plain a && is_plain b && n == 1 then some bytes else none
encode_parts bytes _ _ _ _ = none

encode_parts-eq-some :
    (bytes : Bytes) (v : ℤ) (fns : List (Option Function)) (names : List String)
    (main : List Instruction) {b : Bytes}
    → encode_parts bytes v fns names main ≡ some b
    → some (test_payload 1)
      ≡ some (record { version = v; functions = fns; names = names; main = main })
encode_parts-eq-some bytes (pos n) (some a ∷ some b ∷ []) (x ∷ y ∷ []) [] h =
    let e₁ : "f" ≡ x = sym ((eq_iff x "f").0 (ground (arith, h))) in
    let e₂ : "g" ≡ y = sym ((eq_iff y "g").0 (ground (arith, h))) in
    let e₃ : plain_function ≡ a = sym (is_plain-eq a (ground (arith, h))) in
    let e₄ : plain_function ≡ b = sym (is_plain-eq b (ground (arith, h))) in
    let e₅ : 1 ≡ n = ground (arith, h) in
    λ i. some (record {
      version = pos (e₅ i);
      functions = some (e₃ i) ∷ some (e₄ i) ∷ [];
      names = e₁ i ∷ e₂ i ∷ [];
      main = [];
    })
encode_parts-eq-some bytes _ _ _ _ h = cc

zeros : ℕ → Bytes
zeros zero = []
zeros (suc n) = 0 ∷ zeros n

length-zeros : (n : ℕ) → length (zeros n) ≡ n
unfolding zeros
length-zeros zero = refl
length-zeros (suc n) = rw (length-zeros n) refl

-- A codec that writes the payload as the bytes given.
abbrev test_codec : Bytes → Codec
test_codec bytes = record {
  sha256 = λ b. zeros 32;
  encode = λ p. encode_parts bytes p.version p.functions p.names p.main;
  decode = λ b. some (test_payload 1);
  decode_program = λ b. none;
}

test_codec-CodecLaws : (bytes : Bytes) → CodecLaws (test_codec bytes)
test_codec-CodecLaws bytes = record {
  hash_size = λ b. length-zeros 32;
  decode-encode = λ p b h. encode_parts-eq-some bytes p.version p.functions p.names p.main h;
}

-- The payload of the two functions, by any codec of the tests.
encoded_example :
    (bytes : Bytes) → (test_codec bytes).encode (new_artifact_payload two_functions) ≡ some bytes
unfolding new_artifact_payload str_lt lookup
encoded_example bytes = refl

two_functions-valid : validate_program two_functions ≡ ok tt
unfolding validate_program validate_instructions
two_functions-valid = refl

read_artifact-write_validated_artifact_example :
    (write_validated_artifact (test_codec (7 ∷ [])) two_functions
      ≡ ok (envelope_of (test_codec (7 ∷ [])) (7 ∷ [])))
    × (read_artifact (test_codec (7 ∷ [])) (envelope_of (test_codec (7 ∷ [])) (7 ∷ []))
        ≡ ok (stored_program two_functions))
    × SameMap (stored two_functions.functions) two_functions.functions
read_artifact-write_validated_artifact_example =
    read_artifact-write_validated_artifact (test_codec (7 ∷ [])) (test_codec-CodecLaws (7 ∷ []))
      two_functions (7 ∷ []) (encoded_example (7 ∷ [])) (omega arith) two_functions-valid tt
      (tt, (tt, tt))

abbrev all_bytes : Bytes → Bool
all_bytes [] = true
all_bytes (b ∷ bs) = ltb b 256 && all_bytes bs

all_bytes→AllBytes : (bs : Bytes) → all_bytes bs ≡ true → AllBytes bs
all_bytes→AllBytes [] h = tt
all_bytes→AllBytes (b ∷ bs) h = (ground (arith, h), all_bytes→AllBytes bs (ground (arith, h)))

abbrev small_codec : Codec
small_codec = test_codec (7 ∷ [])

abbrev artifact : Bytes
artifact = envelope_of small_codec (7 ∷ [])

artifact-AllBytes : AllBytes artifact
unfolding zeros
artifact-AllBytes = all_bytes→AllBytes artifact refl

artifact_read : read_artifact small_codec artifact ≡ ok (stored_program two_functions)
artifact_read =
    (read_artifact-write_validated_artifact small_codec (test_codec-CodecLaws (7 ∷ []))
      two_functions (7 ∷ []) (encoded_example (7 ∷ [])) (omega arith) two_functions-valid tt
      (tt, (tt, tt))).1

read_artifact-IsEnvelope_example :
    (version : ℕ) × (payload : Bytes) × IsEnvelope small_codec artifact version payload
    × (validate_program (stored_program two_functions) ≡ ok tt)
read_artifact-IsEnvelope_example =
    read_artifact-IsEnvelope small_codec artifact (stored_program two_functions) artifact-AllBytes
      artifact_read

-- A codec whose payload is one byte longer than an artifact may hold.
abbrev large : ℕ
large = 10485761

write_validated_artifact-oversized_example :
    (write_validated_artifact (test_codec (zeros large)) two_functions
      ≡ ok (envelope_of (test_codec (zeros large)) (zeros large)))
    × (read_artifact
          (test_codec (zeros large))
          (envelope_of (test_codec (zeros large)) (zeros large))
        ≡ err oversized)
write_validated_artifact-oversized_example =
    write_validated_artifact-oversized (test_codec (zeros large)) two_functions (zeros large)
      (encoded_example (zeros large)) (omega (arith, length-zeros large))
      (omega (arith, length-zeros large)) two_functions-valid

new_artifact_payload-SameMap_example :
    new_artifact_payload two_functions ≡ new_artifact_payload (stored_program two_functions)
new_artifact_payload-SameMap_example =
    new_artifact_payload-SameMap two_functions (stored_program two_functions) refl refl
      λ k. sym (stored-SameMap two_functions.functions k)

program-new_artifact_payload_example :
    (program (new_artifact_payload two_functions) ≡ ok (stored_program two_functions))
    × SameMap (stored two_functions.functions) two_functions.functions
program-new_artifact_payload_example = program-new_artifact_payload two_functions
