-- ===== src/Report/Schemes.antt =====
-- internal/capability/capability.go: `StoreRequirements` by the scheme of the URI.
use howlframe.Report.Stores.{
  not-both, scheme_and, HasScheme, has_scheme, has_scheme-HasScheme, HasScheme-has_scheme,
}
use howlframe.Common.{
  ◌∙◌, sym, Bool-cases, ◌⊎◌, inr, inl, List, String, false, true, ◌∷◌, [], none, some, ◌≡◌, refl,
  contains,
}
use howlframe.Capability
use howlframe.Capability.{all, store_requirements, no_capability, filesystem, Capability}

pub scheme_dec : (scheme uri : String) → Dec (HasScheme scheme uri)
scheme_dec scheme uri = elim (Bool-cases (has_scheme scheme uri)) [
  | inl e ↦ yes (HasScheme-has_scheme scheme uri e)
  | inr e ↦ no λ h. cc (e, has_scheme-HasScheme scheme uri h)
]

-- `StoreRequirements` by scheme.
requirements_of_memory :
    (uri : String)
    → HasScheme "memory://" uri
    → store_requirements uri ≡ some (Capability.database ∷ [])
unfolding store_requirements
requirements_of_memory uri h = rw (has_scheme-HasScheme "memory://" uri h) refl

no_scheme : (scheme uri : String) → ¬ HasScheme scheme uri → has_scheme scheme uri ≡ false
no_scheme scheme uri h = elim (Bool-cases (has_scheme scheme uri)) [
  | inl e ↦ absurd (h (HasScheme-has_scheme scheme uri e))
  | inr e ↦ e
]

pub requirements_of_file :
    (uri : String)
    → HasScheme "file://" uri
    → ¬ HasScheme "memory://" uri
    → store_requirements uri ≡ some (Capability.database ∷ Capability.filesystem ∷ [])
unfolding store_requirements
requirements_of_file uri f m =
    rw (no_scheme "memory://" uri m, has_scheme-HasScheme "file://" uri f) refl

pub requirements_of_unknown :
    (uri : String)
    → ¬ HasScheme "file://" uri
    → ¬ HasScheme "memory://" uri
    → store_requirements uri ≡ none
unfolding store_requirements
requirements_of_unknown uri f m = rw (no_scheme "memory://" uri m, no_scheme "file://" uri f) refl

-- The requirements that the scan adds for a store.
pub store_requirements-database :
    (uri : String)
    → HasScheme "memory://" uri ⊎ HasScheme "file://" uri
    → (required : List Capability) × (store_requirements uri ≡ some required)
      × (contains Capability.database required ≡ true)
store_requirements-database uri (inl m) =
    (Capability.database ∷ [], requirements_of_memory uri m, refl)
store_requirements-database uri (inr (scheme_and y e more)) = (
  Capability.database ∷ Capability.filesystem ∷ [],
  requirements_of_file uri (scheme_and y e more)
      (λ m. elim m [ scheme_and x e' more' ↦ not-both x y (sym e' ∙ e) ]),
  refl,
)
