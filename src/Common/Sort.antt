-- ===== src/Common/Sort.antt =====
-- Texts in order: `sort.Strings`, and lists of texts without repetition.
use Prim.Native.String.{String}
use mathlib.Core.Path.{◌≡◌, refl}
use mathlib.Core.Logic.{inl, inr}
use mathlib.Core.List.{List, [], ◌∷◌}
use mathlib.Core.Bool.{Bool, true, false, ◌||◌}
use native.Mathlib.Omega.{arith}
use text.Mathlib.TextEquality.{eq_iff}
use text.Mathlib.TextPositions.{eq_refl}
use howlframe.Common.Order.{str_lt, str_lt_irrefl, str_lt_trans, str_lt_total}
use howlframe.Common.Tests.{if◌then◌else◌, str_eq, Bool-cases}

-- The list has the text.
abbrev pub contains : String → List String → Bool
contains x [] = false
contains x (y ∷ ys) = str_eq y x || contains x ys

unfoldable pub insert_sorted : String → List String → List String
insert_sorted x [] = x ∷ []
insert_sorted x (y ∷ ys) =
    let rest = insert_sorted x ys in if str_lt y x then y ∷ rest else x ∷ y ∷ ys

-- `sort.Strings`
unfoldable pub sort_strings : List String → List String
unfolding insert_sorted
sort_strings [] = []
sort_strings (x ∷ xs) = insert_sorted x (sort_strings xs)

-- No text occurs twice.
abbrev pub IsDistinct : List String → Type 0
IsDistinct [] = Unit
IsDistinct (x ∷ xs) = (contains x xs ≡ false) × IsDistinct xs

-- Every text is before all that follow it.
abbrev pub IsAscending : List String → Type 0
IsAscending [] = Unit
IsAscending (x ∷ xs) = ((y : String) → contains y xs ≡ true → str_lt x y ≡ true) × IsAscending xs

contains-insert_sorted :
    (y x : String) (xs : List String) → contains y (insert_sorted x xs) ≡ contains y (x ∷ xs)
unfolding insert_sorted
contains-insert_sorted y x [] = refl
contains-insert_sorted y x (z ∷ zs) = elim (Bool-cases (str_lt z x)) [
  | inl e ↦ rw e (ground (arith, contains-insert_sorted y x zs))
  | inr e ↦ rw e refl
]

pub contains-sort_strings :
    (y : String) (xs : List String) → contains y (sort_strings xs) ≡ contains y xs
unfolding sort_strings
contains-sort_strings y [] = refl
contains-sort_strings y (x ∷ xs) =
    rw (contains-insert_sorted y x (sort_strings xs), contains-sort_strings y xs) refl

insert_sorted-IsAscending :
    (x : String) (xs : List String)
    → contains x xs ≡ false
    → IsAscending xs
    → IsAscending (insert_sorted x xs)
unfolding insert_sorted
insert_sorted-IsAscending x [] h a = (λ y p. cc, tt)
insert_sorted-IsAscending x (z ∷ zs) h (first, a) =
    let new : str_eq z x ≡ false = ground arith in
    let rest_new : contains x zs ≡ false = ground arith in
    elim (Bool-cases (str_lt z x)) [
      | inl e ↦ rw e (
        λ y p. ground (arith, contains-insert_sorted y x zs, first y, eq_iff x y, e),
        insert_sorted-IsAscending x zs rest_new a,
      )
      | inr e ↦
          let before : str_lt x z ≡ true = ground (arith, str_lt_total z x e, eq_iff z x) in
          rw e (λ y p. ground (arith, before, eq_iff z y, first y, str_lt_trans x z y), (first, a))
    ]

pub sort_strings-IsAscending : (xs : List String) → IsDistinct xs → IsAscending (sort_strings xs)
unfolding sort_strings
sort_strings-IsAscending [] d = tt
sort_strings-IsAscending (x ∷ xs) (new, d) =
    insert_sorted-IsAscending x (sort_strings xs) (rw (contains-sort_strings x xs) new)
      (sort_strings-IsAscending xs d)

-- Ascending lists of the same texts are equal.
pub ascending-same :
    (xs ys : List String)
    → IsAscending xs
    → IsAscending ys
    → ((z : String) → contains z xs ≡ contains z ys)
    → xs ≡ ys
ascending-same [] [] a b h = refl
ascending-same [] (y ∷ ys) a b h = ground (arith, h y, eq_refl y)
ascending-same (x ∷ xs) [] a b h = ground (arith, h x, eq_refl x)
ascending-same (x ∷ xs) (y ∷ ys) (first, a) (first', b) h =
    let heads : x ≡ y = ground (
      arith,
      h x,
      h y,
      eq_refl x,
      eq_refl y,
      first y,
      first' x,
      str_lt_trans x y x,
      str_lt_irrefl x,
      eq_iff x y,
      eq_iff y x,
    ) in
    let tails : (z : String) → contains z xs ≡ contains z ys =
      λ z. ground (arith, heads, h z, first z, first' z, eq_iff x z, eq_iff y z, str_lt_irrefl z) in
    rw (heads, ascending-same xs ys a b tails) refl

pub IsAscending→IsDistinct : (xs : List String) → IsAscending xs → IsDistinct xs
IsAscending→IsDistinct [] a = tt
IsAscending→IsDistinct (x ∷ xs) (first, a) =
    (ground (arith, first x, str_lt_irrefl x), IsAscending→IsDistinct xs a)
