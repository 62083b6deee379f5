-- ===== src/Artifact/Payload.antt =====
-- Payloads: the round trip of `newArtifactPayload` and `program`, and determinism.
use howlframe.Common.{
  has_key-insert, EntriesHold-lookup, Option-cases, append_assoc, append-nil, EntriesHold, ◌++◌,
  none, IsAscending→IsDistinct, ℕ, str_eq, insert, if◌then◌else◌, contains-sort_strings, eq_iff,
  sort_strings-IsAscending, arith, ascending-same, contains, Option, map, sort_strings, IsDistinct,
  lookup, String, has_key, List, inr, inl, refl, ◌∷◌, [], some, ◌≡◌, true, false, Bool-cases,
  length, ◌==◌, eq_refl,
}
use howlframe.Artifact.{zip, add_functions, function_at, program, new_artifact_payload, keys}
use howlframe.Program.{Functions, Function, Program}
use howlframe.Common.Result.{ok}

-- Two association lists that stand for the same map.
abbrev pub SameMap {ℓ} : {V : Type ℓ} → List (String × V) → List (String × V) → Type ℓ
SameMap m n = (k : String) → lookup k m ≡ lookup k n

module _ {ℓ} {V : Type ℓ} where
  pub contains-keys : (k : String) (m : List (String × V)) → contains k (keys m) ≡ has_key k m
  unfolding keys has_key lookup
  contains-keys k [] = refl
  contains-keys k ((j, v) ∷ m) = elim (Bool-cases (contains j (keys m))) [
    | inl e ↦ rw e (ground (arith, contains-keys k m, eq_iff j k, e))
    | inr e ↦ rw e (ground (arith, contains-keys k m))
  ]

  pub keys-IsDistinct : (m : List (String × V)) → IsDistinct (keys m)
  unfolding keys
  keys-IsDistinct [] = tt
  keys-IsDistinct ((j, v) ∷ m) = elim (Bool-cases (contains j (keys m))) [
    | inl e ↦ rw e (keys-IsDistinct m)
    | inr e ↦ rw e (e, keys-IsDistinct m)
  ]

  sorted_keys-same :
      (m n : List (String × V)) → SameMap m n → sort_strings (keys m) ≡ sort_strings (keys n)
  unfolding has_key
  sorted_keys-same m n same =
      ascending-same (sort_strings (keys m)) (sort_strings (keys n))
        (sort_strings-IsAscending (keys m) (keys-IsDistinct m))
        (sort_strings-IsAscending (keys n) (keys-IsDistinct n))
        (λ z.
          rw
            (
              contains-sort_strings z (keys m),
              contains-sort_strings z (keys n),
              contains-keys z m,
              contains-keys z n,
              has_key,
              same z,
            )
            refl)

map-same :
    {A B : Type 0} (f g : A → B) → ((a : A) → f a ≡ g a) → (xs : List A) → map f xs ≡ map g xs
map-same f g h [] = refl
map-same f g h (x ∷ xs) = rw (h x, map-same f g h xs) refl

-- The payload of a program does not depend on the order in which its map of functions is read.
pub new_artifact_payload-SameMap :
    (p q : Program)
    → p.version ≡ q.version
    → p.main ≡ q.main
    → SameMap p.functions q.functions
    → new_artifact_payload p ≡ new_artifact_payload q
unfolding new_artifact_payload function_at
new_artifact_payload-SameMap p q versions mains same =
    rw
      (
        versions,
        mains,
        sorted_keys-same p.functions q.functions same,
        map-same (function_at p.functions) (function_at q.functions)
            (λ k. rw (function_at, same k) refl) (sort_strings (keys q.functions)),
      )
      refl

length-map : {A B : Type 0} (f : A → B) (xs : List A) → length (map f xs) ≡ length xs
length-map f [] = refl
length-map f (x ∷ xs) = rw (length-map f xs) refl

insert-absent {ℓ} :
    {V : Type ℓ} (k : String) (v : V) (m : List (String × V))
    → has_key k m ≡ false
    → insert k v m ≡ m ++ (k, v) ∷ []
unfolding insert has_key lookup
insert-absent k v [] h = refl
insert-absent k v ((j, w) ∷ m) h = elim (Bool-cases (str_eq j k)) [
  | inl e ↦ cc (rw (has_key, e) at h)
  | inr e ↦ rw (e, insert-absent k v m (rw (has_key, e) at h)) refl
]

module _ (f : String → Option Function) where
  -- The map that has the names as its keys.
  abbrev table : List String → Functions
  table names = zip names (map f names)

  -- Adding the entries of distinct names, none of which is in the map yet.
  add_functions-table :
      (names : List String) (functions : Functions)
      → IsDistinct names
      → ((k : String) → contains k names ≡ true → has_key k functions ≡ false)
      → add_functions functions (table names) ≡ ok (functions ++ table names)
  unfolding add_functions
  add_functions-table [] functions d fresh = rw (append-nil functions) refl
  add_functions-table (x ∷ xs) functions (new, d) fresh =
      let absent : has_key x functions ≡ false = ground (arith, fresh x, eq_refl x) in
      let others =
        add_functions-table xs (insert x (f x) functions) d
          (λ k p. ground (arith, has_key-insert k x (f x) functions, fresh k, eq_iff x k)) in
      rw
        (
          absent,
          others,
          insert-absent x (f x) functions absent,
          append_assoc functions ((x, f x) ∷ []) (table xs),
        )
        refl

  lookup-table :
      (k : String) (names : List String)
      → lookup k (table names) ≡ (if contains k names then some (f k) else none)
  unfolding lookup
  lookup-table k [] = refl
  lookup-table k (x ∷ xs) = ground (arith, lookup-table k xs, eq_iff x k)

  pub EntriesHold-table :
      (P : Option Function → Type 0) (names : List String)
      → ((k : String) → contains k names ≡ true → P (f k))
      → EntriesHold P (table names)
  EntriesHold-table P [] h = tt
  EntriesHold-table P (x ∷ xs) h =
      (h x (ground (arith, eq_refl x)), EntriesHold-table P xs (λ k p. h k (ground (arith, p))))

same-number : (n : ℕ) → (n == n) ≡ true
same-number n = ground arith

-- The map of functions as an artifact keeps it, by ascending names.
abbrev pub stored : Functions → Functions
stored functions =
    let names = sort_strings (keys functions) in zip names (map (function_at functions) names)

pub stored-SameMap : (functions : Functions) → SameMap (stored functions) functions
unfolding has_key function_at
stored-SameMap functions k =
    rw
      (
        lookup-table (function_at functions) k (sort_strings (keys functions)),
        contains-sort_strings k (keys functions),
        contains-keys k functions,
        has_key,
        function_at,
      )
      (ground arith)

-- What holds of the functions of a map holds of the map that an artifact keeps.
pub EntriesHold-stored :
    (P : Option Function → Type 0) (functions : Functions)
    → EntriesHold P functions
    → EntriesHold P (stored functions)
unfolding has_key function_at
EntriesHold-stored P functions h =
    EntriesHold-table (function_at functions) P (sort_strings (keys functions)) λ k p.
      elim (Option-cases (lookup k functions)) [
        | inl missing ↦
            let present : has_key k functions ≡ true =
              ground
                (arith, p, contains-sort_strings k (keys functions), contains-keys k functions) in
            cc (rw (has_key, missing) at present)
        | inr (fn, found) ↦ rw (function_at, found) (EntriesHold-lookup P functions k h found)
      ]

-- Reading the payload of a program gives the program back, with its functions by ascending names,
-- which is the same map.
pub program-new_artifact_payload :
    (prog : Program)
    → (program (new_artifact_payload prog) ≡ ok (record prog { functions = stored prog.functions }))
      × SameMap (stored prog.functions) prog.functions
unfolding program new_artifact_payload has_key lookup
program-new_artifact_payload prog =
    let f = function_at prog.functions in
    let names = sort_strings (keys prog.functions) in
    let distinct =
      IsAscending→IsDistinct names
        (sort_strings-IsAscending (keys prog.functions) (keys-IsDistinct prog.functions)) in
    (
      rw
          (
            length-map f names,
            same-number (length names),
            add_functions-table f names [] distinct (λ k p. refl),
          )
          refl,
      stored-SameMap prog.functions,
    )
