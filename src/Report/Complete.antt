-- ===== src/Report/Complete.antt =====
-- Every capability that an instruction needs is in the report.
use howlframe.Common.{
  eq_iff, str_eq, Bool-cases, ◌⊎◌, inr, inl, Option, ℕ, arith, lookup, String, List, suc, true, ◌∷◌,
  [], some, ◌≡◌, refl, ◌++◌, ◌||◌, map, contains, has_key, sort_strings, get_elem?,
  contains-sort_strings, ◌+◌, zero,
}
use howlframe.Artifact.Payload.{contains-keys}
use howlframe.Program.{Function, Program, Functions, Instruction}
use howlframe.Report.{
  scan_function, required_capabilities, scan, scan_functions, requirements, scan_from, Requirements,
  site_key, Site, sites_at, site,
}
use howlframe.Artifact.{function_at, keys}
use howlframe.Capability.{Capability}
use howlframe.Report.Needs.{Needs}
use howlframe.Report.Met.{requirements-Needs}

-- The capabilities of sites.
abbrev reported : List Site → List String
reported sites = map (λ s. s.capability) sites

contains-append :
    (c : String) (xs ys : List String) → contains c (xs ++ ys) ≡ (contains c xs || contains c ys)
contains-append c [] ys = refl
contains-append c (x ∷ xs) ys = ground (arith, contains-append c xs ys)

reported-append : (xs ys : List Site) → reported (xs ++ ys) ≡ reported xs ++ reported ys
reported-append [] ys = refl
reported-append (x ∷ xs) ys = rw (reported-append xs ys) refl

contains-reported_append :
    (c : String) (xs ys : List Site)
    → contains c (reported (xs ++ ys)) ≡ (contains c (reported xs) || contains c (reported ys))
contains-reported_append c xs ys =
    rw (reported-append xs ys) (contains-append c (reported xs) (reported ys))

has_key-site_key :
    (c : String) (sites : List Site) → has_key c (map site_key sites) ≡ contains c (reported sites)
unfolding has_key lookup
has_key-site_key c [] = refl
has_key-site_key c (s ∷ sites) = ground (arith, has_key-site_key c sites)

reported-site :
    (name : String) (i : ℕ) (inst : Instruction) (r : Requirements) (cs : List String)
    → reported (map (site name i inst r) cs) ≡ cs
unfolding site
reported-site name i inst r [] = refl
reported-site name i inst r (c ∷ cs) = rw (reported-site name i inst r cs) refl

contains-sites_at :
    (name : String) (i : ℕ) (inst : Instruction) (r : Requirements) (c : String)
    → contains c (reported (sites_at name i inst r)) ≡ has_key c r
unfolding sites_at
contains-sites_at name i inst r c =
    rw (reported-site name i inst r (sort_strings (keys r)), contains-sort_strings c (keys r))
      (contains-keys c r)

module _ (fetch_grant : String → Option String) (functions : Functions) where
  scan_from-covers :
      (name : String) (code : List Instruction) (i : ℕ) (insts : List Instruction) (j : ℕ)
      (inst : Instruction) (c : Capability)
      → get_elem? insts j ≡ some inst
      → has_key c (requirements fetch_grant functions code (i + j) inst) ≡ true
      → contains c (reported (scan_from fetch_grant functions name code i insts)) ≡ true
  unfolding scan_from
  scan_from-covers name code i [] j inst c e h = cc
  scan_from-covers name code i (x ∷ xs) zero inst c e h =
      let same : x ≡ inst = cc e in
      let place : i + 0 ≡ i = omega arith in
      let r = requirements fetch_grant functions code i x in
      let rest = scan_from fetch_grant functions name code (suc i) xs in
      let here : has_key c r ≡ true = rw (same, ← place) h in
      ground (
        arith,
        here,
        contains-sites_at name i x r c,
        contains-reported_append c (sites_at name i x r) rest,
      )
  scan_from-covers name code i (x ∷ xs) (suc j) inst c e h =
      let place : i + suc j ≡ suc i + j = omega arith in
      let r = requirements fetch_grant functions code i x in
      let rest = scan_from fetch_grant functions name code (suc i) xs in
      let later : contains c (reported rest) ≡ true =
        scan_from-covers name code (suc i) xs j inst c e (rw place at h) in
      ground (arith, later, contains-reported_append c (sites_at name i x r) rest)

  scan_functions-covers :
      (names : List String) (name : String) (fn : Function) (c : Capability)
      → contains name names ≡ true
      → function_at functions name ≡ some fn
      → contains c (reported (scan fetch_grant functions name fn.instructions)) ≡ true
      → contains c (reported (scan_functions fetch_grant functions names)) ≡ true
  unfolding scan_functions
  scan_functions-covers [] name fn c member found h = cc
  scan_functions-covers (x ∷ xs) name fn c member found h =
      let first = scan_function fetch_grant functions x (function_at functions x) in
      let both = contains-reported_append c first (scan_functions fetch_grant functions xs) in
      elim (Bool-cases (str_eq x name)) [
        | inl e ↦
            let same : x ≡ name = (eq_iff x name).0 e in
            let here : contains c (reported first) ≡ true = rw (same, found) h in
            ground (arith, here, both)
        | inr e ↦
            let later = scan_functions-covers xs name fn c (ground (arith, member, e)) found h in
            ground (arith, later, both)
      ]

-- The main code of the program, or the code of one of its functions.
abbrev pub IsCode : Program → List Instruction → Type 0
IsCode prog code =
    (prog.main ≡ code)
    ⊎ ((name : String) × (fn : Function) × (lookup name prog.functions ≡ some (some fn))
        × (fn.instructions ≡ code))

module _ (fetch_grant : String → Option String) (prog : Program) where
  abbrev main_sites : List Site
  main_sites = scan fetch_grant prog.functions "main" prog.main

  abbrev function_sites : List Site
  function_sites = scan_functions fetch_grant prog.functions (sort_strings (keys prog.functions))

  contains-capabilities :
      (c : Capability)
      → (contains c (reported main_sites) || contains c (reported function_sites)) ≡ true
      → contains c (required_capabilities fetch_grant prog).capabilities ≡ true
  unfolding required_capabilities
  contains-capabilities c h =
      let sites = main_sites ++ function_sites in
      rw
        (
          contains-sort_strings c (keys (map site_key sites)),
          contains-keys c (map site_key sites),
          has_key-site_key c sites,
          contains-reported_append c main_sites function_sites,
        )
        h

  -- A capability that an instruction of the program needs is among those that are reported. A request
  -- needs the grant for its URL where two constants are loaded directly in front of it (in front of
  -- its body, if it has one) and the first is a URL with a grant, and else the requirement for
  -- computed URLs; a jump between those loads is not looked at. A store under memory:// or file://
  -- needs the database, and one that is not under memory:// the filesystem. A call whose function is
  -- missing, nil or lazy needs all capabilities, and any other instruction the one of its opcode.
  pub required_capabilities-Needs :
      (code : List Instruction) (i : ℕ) (inst : Instruction) (c : Capability)
      → IsCode prog code
      → get_elem? code i ≡ some inst
      → Needs fetch_grant prog.functions code i inst c
      → contains c (required_capabilities fetch_grant prog).capabilities ≡ true
  unfolding scan function_at has_key
  required_capabilities-Needs code i inst c (inl same) e need =
      let place : 0 + i ≡ i = omega arith in
      let listed =
        scan_from-covers fetch_grant prog.functions "main" code 0 code i inst c e
          (rw place (requirements-Needs fetch_grant prog.functions code i inst c need)) in
      let listed_there : contains c (reported main_sites) ≡ true = rw same listed in
      contains-capabilities c (ground (arith, listed_there))
  required_capabilities-Needs code i inst c (inr (name, fn, found, same)) e need =
      let place : 0 + i ≡ i = omega arith in
      let listed =
        scan_from-covers fetch_grant prog.functions name code 0 code i inst c e
          (rw place (requirements-Needs fetch_grant prog.functions code i inst c need)) in
      let member : contains name (sort_strings (keys prog.functions)) ≡ true =
        rw
          (
            contains-sort_strings name (keys prog.functions),
            contains-keys name prog.functions,
            has_key,
            found,
          )
          refl in
      let listed_there =
        scan_functions-covers fetch_grant prog.functions (sort_strings (keys prog.functions)) name
          fn c member (rw (function_at, found) refl) (rw same listed) in
      contains-capabilities c (ground (arith, listed_there))
