-- ===== src/Artifact/Bytes.antt =====
-- What the successful reads of `ReadArtifact` say of the bytes.
use howlframe.Common.{
  sym, ap, ◌∙◌, subst, Bool, false, ◌/◌, ◌%◌, ◌*◌, ◌+◌, List, ℕ, suc, zero, true, ◌∷◌, [], ◌≡◌,
  refl, ◌++◌, length, ◌<◌, ◌≤◌, arith, take, drop, leb, leb→le, ◌⊎◌, inl, inr, Bool-cases,
}
use howlframe.Common.Result.{>>=-ok-then, ok}
use howlframe.Artifact.Envelope.{
  artifact_version_map_payload, artifact_version, ArtifactError, put_uint32, Bytes,
}
use howlframe.Artifact.Read.{
  demand, is_empty, supported, read_uint32, uint32_of, same_bytes, read_full,
}

abbrev pub AllBytes : Bytes → Type 0
AllBytes [] = Unit
AllBytes (b ∷ bs) = (b < 256) × AllBytes bs

take-append-drop {ℓ} : {A : Type ℓ} (n : ℕ) (xs : List A) → take n xs ++ drop n xs ≡ xs
take-append-drop zero xs = refl
take-append-drop (suc n) [] = refl
take-append-drop (suc n) (x ∷ xs) = rw (take-append-drop n xs) refl

length-take {ℓ} : {A : Type ℓ} (n : ℕ) (xs : List A) → n ≤ length xs → length (take n xs) ≡ n
length-take zero xs h = refl
length-take (suc n) [] h = omega (arith, h)
length-take (suc n) (x ∷ xs) h = omega (arith, length-take n xs (omega (arith, h)))

module _ {n : ℕ} {bytes xs ys : Bytes} where
  pub read_full-eq-ok : read_full n bytes ≡ ok (xs, ys) → (bytes ≡ xs ++ ys) × (length xs ≡ n)
  unfolding read_full
  read_full-eq-ok h = elim (Bool-cases (leb n (length bytes))) [
    | inl e ↦
        let front : take n bytes ≡ xs = cc (rw e at h) in
        let back : drop n bytes ≡ ys = cc (rw e at h) in
        (
          rw (← front, ← back, take-append-drop n bytes) refl,
          rw (← front) (length-take n bytes (leb→le n (length bytes) e)),
        )
    | inr e ↦ cc (rw e at h)
  ]

pub AllBytes-append : (xs ys : Bytes) → AllBytes (xs ++ ys) → AllBytes xs × AllBytes ys
AllBytes-append [] ys h = (tt, h)
AllBytes-append (x ∷ xs) ys (h, hs) =
    let (left, right) = AllBytes-append xs ys hs in ((h, left), right)

put_uint32-uint32_of :
    (word : Bytes) → length word ≡ 4 → AllBytes word → put_uint32 (uint32_of word) ≡ word
put_uint32-uint32_of [] e h = absurd (omega (arith, e))
put_uint32-uint32_of (a ∷ []) e h = absurd (omega (arith, e))
put_uint32-uint32_of (a ∷ b ∷ []) e h = absurd (omega (arith, e))
put_uint32-uint32_of (a ∷ b ∷ c ∷ []) e h = absurd (omega (arith, e))
put_uint32-uint32_of (a ∷ b ∷ c ∷ d ∷ x ∷ xs) e h = absurd (omega (arith, e))
put_uint32-uint32_of (a ∷ b ∷ c ∷ d ∷ []) e (ha, (hb, (hc, (hd, h)))) =
    let w = a + 256 * b + 65536 * c + 16777216 * d in
    let e₀ : w % 256 ≡ a = omega arith in
    let e₁ : w / 256 % 256 ≡ b = omega arith in
    let e₂ : w / 65536 % 256 ≡ c = omega arith in
    let e₃ : w / 16777216 % 256 ≡ d = omega arith in rw (e₀, e₁, e₂, e₃) refl

pub same_bytes-eq : (xs ys : Bytes) → same_bytes xs ys ≡ true → xs ≡ ys
same_bytes-eq [] [] h = refl
same_bytes-eq [] (y ∷ ys) h = cc
same_bytes-eq (x ∷ xs) [] h = cc
same_bytes-eq (x ∷ xs) (y ∷ ys) h =
    let heads : x ≡ y = ground arith in
    let tails : same_bytes xs ys ≡ true = ground arith in rw (heads, same_bytes-eq xs ys tails) refl

pub demand-eq-ok :
    (test : Bool) (e : ArtifactError) (u : Unit {0}) → demand test e ≡ ok u → test ≡ true
demand-eq-ok true e u h = refl
demand-eq-ok false e u h = cc

pub read_uint32-eq-ok :
    (bytes rest : Bytes) (n : ℕ)
    → AllBytes bytes
    → read_uint32 bytes ≡ ok (n, rest)
    → (bytes ≡ put_uint32 n ++ rest) × AllBytes rest
unfolding read_uint32
read_uint32-eq-ok bytes rest n all h = >>=-ok-then (read_full 4 bytes) _ h λ (word, back) front h₁.
    let (whole, size) = read_full-eq-ok front in
    let number : uint32_of word ≡ n = cc h₁ in
    let behind : back ≡ rest = cc h₁ in
    let (word_bytes, rest_bytes) = AllBytes-append word back (subst AllBytes whole all) in
    let written : put_uint32 n ≡ word =
      subst (λ m. put_uint32 m ≡ word) number (put_uint32-uint32_of word size word_bytes) in
    (
      whole ∙ ap (λ w. w ++ back) (sym written) ∙ ap (λ r. put_uint32 n ++ r) behind,
      subst AllBytes behind rest_bytes,
    )

pub supported-cases :
    (version : ℕ)
    → supported version ≡ true
    → (version ≡ artifact_version) ⊎ (version ≡ artifact_version_map_payload)
supported-cases version h = ground arith

pub is_empty-eq : (bytes : Bytes) → is_empty bytes ≡ true → bytes ≡ []
is_empty-eq [] h = refl
is_empty-eq (b ∷ bs) h = cc
