-- ===== src/Report/Met.antt =====
-- internal/bytecode/required_capabilities.go: what an instruction needs is among its requirements.
use howlframe.Report.Stores.{HasScheme}
use howlframe.Opcode.{store_open, call, Opcode}
use howlframe.Common.{
  eq_iff, Bool-cases, ◌≢◌, inr, inl, lookup, str_eq, arith, ℕ, List, Option, String, false, true,
  ◌∷◌, [], some, ◌≡◌, refl, contains, has_key,
}
use howlframe.Program.{Functions, Instruction}
use howlframe.Report.{
  computed_url, lazy_reason, is_lazy, is_call, is_store_open, dynamic_fetch_requirement,
  requirements, is_fetch,
}
use howlframe.Capability
use howlframe.Capability.{all, store_requirements, no_capability, filesystem, Capability}
use howlframe.Report.Needs.{
  by_open_call, by_physical_store, by_store, by_computed_url, coarse_database, by_constant_url,
  coarse_environment, to_synthesize, coarse_process, no_function, coarse_filesystem, missing,
  coarse_network, IsRequest, IsOpen, IsCoarse, Needs, by_opcode,
}
use howlframe.Report.Kept.{
  by_store_test, has_key-registry, has_key-insert_same, by_fetch_test, kept, has_key-require_all,
  after_call, kept_store, after_store,
}
use howlframe.Report.Schemes.{
  scheme_dec, store_requirements-database, requirements_of_unknown, requirements_of_file,
}
use howlframe.Report.Urls.{grant_for-computed, grant_for-HasUrl, IsRequest-HasUrl}

str_eq-not : (a b : String) → a ≢ b → str_eq a b ≡ false
str_eq-not a b h = elim (Bool-cases (str_eq a b)) [
  | inl e ↦ absurd (h ((eq_iff a b).0 e))
  | inr e ↦ e
]

-- The tests of the scan, from what they test.
is_fetch-IsRequest : (op : Opcode) → IsRequest op → is_fetch op ≡ true
unfolding is_fetch
is_fetch-IsRequest op (inl e) = rw e refl
is_fetch-IsRequest op (inr e) = rw e refl

is_fetch-not : (op : Opcode) → ¬ IsRequest op → is_fetch op ≡ false
unfolding is_fetch
is_fetch-not Opcode.fetch h = absurd (h (inl refl))
is_fetch-not Opcode.http_request h = absurd (h (inr refl))
is_fetch-not _ h = refl

is_lazy-IsOpen :
    (functions : Functions) (name : String)
    → IsOpen functions name
    → is_lazy (lookup name functions) ≡ true
is_lazy-IsOpen functions name (missing e) = rw e refl
is_lazy-IsOpen functions name (no_function e) = rw e refl
is_lazy-IsOpen functions name (to_synthesize fn e l) = rw e l

contains-all : (c : Capability) → IsCoarse c → contains c all ≡ true
contains-all _ coarse_network = refl
contains-all _ coarse_filesystem = refl
contains-all _ coarse_process = refl
contains-all _ coarse_environment = refl
contains-all _ coarse_database = refl

is_store_open-eq : (op : Opcode) → op ≡ store_open → is_store_open op ≡ true
unfolding is_store_open
is_store_open-eq op e = rw e refl

is_call-eq : (op : Opcode) → op ≡ call → is_call op ≡ true
unfolding is_call
is_call-eq op e = rw e refl

module _ (fetch_grant : String → Option String) (functions : Functions) (code : List Instruction)
    (i : ℕ) (inst : Instruction) where
  added_store :
      (c : Capability) (required : List Capability)
      → is_store_open inst.op ≡ true
      → store_requirements inst.string_operand2 ≡ some required
      → contains c required ≡ true
      → has_key c (requirements fetch_grant functions code i inst) ≡ true
  unfolding after_store
  added_store c required s e m = kept_store fetch_grant functions code i inst c (
      rw (s, e)
        (ground (
          arith,
          m,
          has_key-require_all c "store URI" required
              (by_fetch_test fetch_grant functions code i inst),
        )))

  physical :
      is_store_open inst.op ≡ true
      → ¬ HasScheme "memory://" inst.string_operand2
      → Dec (HasScheme "file://" inst.string_operand2)
      → has_key Capability.filesystem (requirements fetch_grant functions code i inst) ≡ true
  unfolding after_store
  physical s m (yes f) =
      added_store Capability.filesystem (Capability.database ∷ Capability.filesystem ∷ []) s
        (requirements_of_file inst.string_operand2 f m) refl
  physical s m (no f) = kept_store fetch_grant functions code i inst Capability.filesystem (
      rw (s, requirements_of_unknown inst.string_operand2 f m)
        (has_key-insert_same Capability.filesystem _
          (by_fetch_test fetch_grant functions code i inst)))

  -- What an instruction needs is among its requirements.
  pub requirements-Needs :
      (c : Capability)
      → Needs fetch_grant functions code i inst c
      → has_key c (requirements fetch_grant functions code i inst) ≡ true
  unfolding requirements after_store after_call
  requirements-Needs c (by_opcode _ f e n) =
      let some_class : str_eq c no_capability ≡ false = str_eq-not c no_capability n in
      kept fetch_grant functions code i inst c
        (rw (is_fetch-not inst.op f, e) (has_key-registry c some_class))
  requirements-Needs c (by_constant_url url _ h g) =
      let fetches = is_fetch-IsRequest inst.op (IsRequest-HasUrl code i inst url h) in
      kept fetch_grant functions code i inst c (
        rw (fetches, grant_for-HasUrl fetch_grant code i inst url c h g)
          (has_key-insert_same c _ _))
  requirements-Needs c (by_computed_url _ q h e) = kept fetch_grant functions code i inst c (
      rw (is_fetch-IsRequest inst.op q, grant_for-computed fetch_grant code i inst q h, e)
        (has_key-insert_same dynamic_fetch_requirement computed_url _))
  requirements-Needs c (by_store _ o u e) =
      let (required, found, listed) = store_requirements-database inst.string_operand2 u in
      rw e (added_store Capability.database required (is_store_open-eq inst.op o) found listed)
  requirements-Needs c (by_physical_store _ o m e) =
      rw e (physical (is_store_open-eq inst.op o) m (scheme_dec "file://" inst.string_operand2))
  requirements-Needs c (by_open_call _ o l k) =
      rw (is_call-eq inst.op o, is_lazy-IsOpen functions inst.string_operand l)
        (ground (
          arith,
          contains-all c k,
          has_key-require_all c lazy_reason all (by_store_test fetch_grant functions code i inst),
        ))
