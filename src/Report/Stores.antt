-- ===== src/Report/Stores.antt =====
-- internal/capability/capability.go: `StoreRequirements` on each kind of URI.
use Prim.Native.String.{slice, [], ◌∷◌}
use Prim.Native.String.len
use text.Mathlib.TextLemmas.{append_assoc}
use text.Mathlib.TextPositions.{slice-append_left, len_utf8-pos}
use Prim.Native.String.{len, ◌++◌ as str_append}
use text.Mathlib.Text.{starts_with}
use text.Mathlib.TextPositions.{starts_with-append, len-append}
use text.Mathlib.TextEquality.{starts_with_iff}
use howlframe.Common.{
  ◌∷◌, [], subst, ◌∙◌, ◌+◌, sym, ltb, arith, ◌<◌, ◌&&◌, ◌≢◌, Bool, ◌≡◌, String, refl, true,
}

-- The URI is the scheme with something behind it.
pub data HasScheme (scheme uri : String) : Type 0 where
  scheme_and : (rest : String) → uri ≡ str_append scheme rest → rest ≢ "" → HasScheme scheme uri

abbrev pub has_scheme : String → String → Bool
has_scheme scheme uri = starts_with uri scheme && ltb (len scheme) (len uri)

len-positive : (rest : String) → rest ≢ "" → 0 < len rest
len-positive [] h = absurd (h refl)
len-positive (c ∷ s) h = omega (arith, len.cons c s, (len_utf8-pos c).1)

pub has_scheme-HasScheme :
    (scheme uri : String) → HasScheme scheme uri → has_scheme scheme uri ≡ true
has_scheme-HasScheme scheme uri (scheme_and rest e h) =
    let more : 0 < len rest = len-positive rest h in
    rw (e, starts_with-append scheme rest) (ground (arith, len-append scheme rest, more))

pub HasScheme-has_scheme :
    (scheme uri : String) → has_scheme scheme uri ≡ true → HasScheme scheme uri
HasScheme-has_scheme scheme uri h =
    let begins : starts_with uri scheme ≡ true = ground (arith, h) in
    let longer : len scheme < len uri = ground (arith, h) in
    let (rest, same) = (starts_with_iff uri scheme).0 begins in
    scheme_and rest (sym same) λ empty.
      let none_left : len rest ≡ 0 = rw empty len.nil in
      let size : len uri ≡ len scheme + len rest = rw (← same) (len-append scheme rest) in
      omega (arith, none_left, size, longer)

-- No text begins with both schemes.
pub not-both : (x y : String) → str_append "memory://" x ≢ str_append "file://" y
not-both x y h =
    let m : str_append "m" (str_append "emory://" x) ≡ str_append "f" (str_append "ile://" y) =
      sym (append_assoc "m" "emory://" x) ∙ h ∙ append_assoc "f" "ile://" y in
    let begins : starts_with (str_append "f" (str_append "ile://" y)) "m" ≡ true =
      subst (λ t. starts_with t "m" ≡ true) m (starts_with-append "m" (str_append "emory://" x)) in
    let first : slice (str_append "f" (str_append "ile://" y)) 0 1 ≡ "f" =
      slice-append_left "f" (str_append "ile://" y) in
    cc (rw first at begins)
