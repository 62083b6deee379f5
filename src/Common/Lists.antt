-- ===== src/Common/Lists.antt =====
-- Lists measured and indexed by native numbers, under the library's names, and association lists.
use Prim.Native.Nat.{ℕ, zero, suc, ◌+◌}
use Prim.Native.String.{String}
use mathlib.Core.Path.{◌≡◌, refl, subst}
use mathlib.Core.List.{List, [], ◌∷◌, ◌++◌}
use mathlib.Core.Bool.{Bool, true, false, ◌||◌}
use mathlib.Core.Logic.{inl, inr}
use mathlib.Core.Option.{Option, none, some}
use native.Mathlib.Omega.{arith}
use text.Mathlib.TextEquality.{eq_iff}
use howlframe.Common.Tests.{Bool-cases, if◌then◌else◌, str_eq}

module _ {ℓ} {A : Type ℓ} where
  abbrev pub length : List A → ℕ
  length [] = 0
  length (x ∷ xs) = suc (length xs)

  abbrev pub get_elem? : List A → ℕ → Option A
  get_elem? [] i = none
  get_elem? (x ∷ xs) zero = some x
  get_elem? (x ∷ xs) (suc i) = get_elem? xs i

  abbrev pub take : ℕ → List A → List A
  take zero xs = []
  take (suc n) [] = []
  take (suc n) (x ∷ xs) = x ∷ take n xs

  abbrev pub drop : ℕ → List A → List A
  drop zero xs = xs
  drop (suc n) [] = []
  drop (suc n) (x ∷ xs) = drop n xs

  pub length-append : (xs ys : List A) → length (xs ++ ys) ≡ length xs + length ys
  length-append [] ys = omega arith
  length-append (x ∷ xs) ys = omega (arith, length-append xs ys)

-- A Go map with text keys: the first entry of a key counts.
module _ {ℓ} {V : Type ℓ} where
  unfoldable pub lookup : String → List (String × V) → Option V
  lookup k [] = none
  lookup k ((j, v) ∷ m) = if str_eq j k then some v else lookup k m

  -- `_, ok := m[k]`
  unfoldable pub has_key : String → List (String × V) → Bool
  unfolding lookup
  has_key k m = elim (lookup k m) [ none ↦ false | some v ↦ true ]

  -- `m[k] = v`
  unfoldable pub insert : String → V → List (String × V) → List (String × V)
  insert k v [] = (k, v) ∷ []
  insert k v ((j, w) ∷ m) = if str_eq j k then (k, v) ∷ m else (j, w) ∷ insert k v m

  pub lookup-insert :
      (x k : String) (v : V) (m : List (String × V))
      → lookup x (insert k v m) ≡ (if str_eq k x then some v else lookup x m)
  unfolding lookup insert
  lookup-insert x k v [] = refl
  lookup-insert x k v ((j, w) ∷ m) = elim (Bool-cases (str_eq j k)) [
    | inl e ↦ let same : j ≡ k = (eq_iff j k).0 e in rw (insert, e, same) (ground arith)
    | inr e ↦
        let other : (str_eq j x ≡ true) → (str_eq k x ≡ true) → ⊥ =
          λ p q. ground (arith, eq_iff j k, eq_iff j x, eq_iff k x) in
        rw (insert, e) (ground (arith, other, lookup-insert x k v m))
  ]

  pub has_key-insert :
      (k x : String) (v : V) (m : List (String × V))
      → has_key k (insert x v m) ≡ (str_eq x k || has_key k m)
  unfolding has_key
  has_key-insert k x v m = rw (has_key, lookup-insert k x v m) (ground arith)

  -- `delete(m, k)`
  unfoldable pub delete : String → List (String × V) → List (String × V)
  delete k [] = []
  delete k ((j, v) ∷ m) = let rest = delete k m in if str_eq j k then rest else (j, v) ∷ rest

-- The predicate holds of every value of the map.
abbrev pub EntriesHold {ℓ κ} : {V : Type ℓ} → (V → Type κ) → List (String × V) → Type κ
EntriesHold P [] = Unit
EntriesHold P ((k, v) ∷ m) = P v × EntriesHold P m

pub EntriesHold-lookup {ℓ κ} :
    {V : Type ℓ} (P : V → Type κ) (m : List (String × V)) (k : String) {v : V}
    → EntriesHold P m
    → lookup k m ≡ some v
    → P v
unfolding lookup
EntriesHold-lookup P [] k h e = cc
EntriesHold-lookup P ((j, w) ∷ m) k {v} (h, hs) e = elim (Bool-cases (str_eq j k)) [
  | inl t ↦ let same : w ≡ v = cc (rw t at e) in subst P same h
  | inr t ↦ EntriesHold-lookup P m k hs (rw t at e)
]
