-- ===== src/Report/Kept.antt =====
-- internal/bytecode/required_capabilities.go: what is required stays required.
use howlframe.Common.{
  delete, ◌&&◌, if◌then◌else◌, Bool, eq_refl, lookup, str_eq, insert, arith, ℕ, List, Option,
  String, false, true, ◌∷◌, [], none, some, ◌≡◌, refl, ◌||◌, contains, has_key, has_key-insert,
}
use howlframe.Program.{Functions, Instruction}
use howlframe.Report.{
  computed_url, lazy_reason, add_fetch, registry_requirements, is_lazy, is_call, is_store_open,
  dynamic_fetch_requirement, constant_url, requirements, is_fetch, grant_for, add_store,
  Requirements, require_all,
}
use howlframe.Capability.{all, store_requirements, no_capability, filesystem, Capability}
use howlframe.Opcode.{spec_of}

pub has_key-require_all :
    (c : Capability) (reason : String) (cs : List Capability) (r : Requirements)
    → has_key c (require_all reason cs r) ≡ (contains c cs || has_key c r)
unfolding require_all
has_key-require_all c reason [] r = refl
has_key-require_all c reason (d ∷ cs) r =
    ground (arith, has_key-require_all c reason cs (insert d reason r), has_key-insert c d reason r)

pub has_key-insert_same :
    (c : Capability) (reason : String) (r : Requirements) → has_key c (insert c reason r) ≡ true
has_key-insert_same c reason r = ground (arith, has_key-insert c c reason r, eq_refl c)

-- The later tests keep what is required.
unfoldable pub after_store : Bool → Option (List Capability) → Requirements → Requirements
after_store test required r = if test then add_store required r else r

unfoldable pub after_call : Bool → Requirements → Requirements
after_call test r = if test then require_all lazy_reason all r else r

module _ (c : Capability) (r : Requirements) where
  after_store-has_key :
      (test : Bool) (required : Option (List Capability))
      → has_key c r ≡ true
      → has_key c (after_store test required r) ≡ true
  unfolding after_store
  after_store-has_key false required h = h
  after_store-has_key true none h = ground (
    arith,
    h,
    has_key-insert c filesystem "unknown store URI; conservatively assumes filesystem" r,
  )
  after_store-has_key true (some cs) h = ground (arith, h, has_key-require_all c "store URI" cs r)

  after_call-has_key : (test : Bool) → has_key c r ≡ true → has_key c (after_call test r) ≡ true
  unfolding after_call
  after_call-has_key false h = h
  after_call-has_key true h = ground (arith, h, has_key-require_all c lazy_reason all r)

pub has_key-registry :
    (c : Capability) → str_eq c no_capability ≡ false → has_key c (registry_requirements c) ≡ true
unfolding insert
has_key-registry c h = rw h (has_key-insert_same c "opcode registry" [])

has_key-add_fetch :
    (grant : Option String) (r : Requirements)
    → has_key (elim grant [ none ↦ dynamic_fetch_requirement | some g ↦ g ]) (add_fetch grant r)
      ≡ true
has_key-add_fetch none r = has_key-insert_same dynamic_fetch_requirement computed_url r
has_key-add_fetch (some g) r = has_key-insert_same g "outbound fetch to a constant URL" r

module _ (fetch_grant : String → Option String) (functions : Functions) (code : List Instruction)
    (i : ℕ) (inst : Instruction) where
  abbrev pub capability : Capability
  capability = (spec_of inst.op).capability

  abbrev pub grant : Option String
  grant = grant_for fetch_grant (constant_url code i inst)

  abbrev pub by_fetch_test : Requirements
  by_fetch_test =
      if is_fetch inst.op
      then add_fetch grant (delete capability (registry_requirements capability))
      else registry_requirements capability

  abbrev pub by_store_test : Requirements
  by_store_test =
      after_store (is_store_open inst.op) (store_requirements inst.string_operand2) by_fetch_test

  pub kept :
      (c : Capability)
      → has_key c by_fetch_test ≡ true
      → has_key c (requirements fetch_grant functions code i inst) ≡ true
  unfolding requirements after_store after_call
  kept c h =
      after_call-has_key c by_store_test
        (is_call inst.op && is_lazy (lookup inst.string_operand functions))
        (after_store-has_key c by_fetch_test (is_store_open inst.op)
          (store_requirements inst.string_operand2) h)

  pub kept_store :
      (c : Capability)
      → has_key c by_store_test ≡ true
      → has_key c (requirements fetch_grant functions code i inst) ≡ true
  unfolding requirements after_store after_call
  kept_store c h =
      after_call-has_key c by_store_test
        (is_call inst.op && is_lazy (lookup inst.string_operand functions)) h
