-- ===== src/Sdk.antt =====
-- sdk.go: the registries of config factories by name, of HTTP filters, network filters and access
-- loggers, which are alike; `F` is the type of the factories. A Go map that is passed in is the list
-- of its entries in the order in which `range` visits them, which Go leaves open.
pub mod Laws
use luwes.Base.{Option, none, some, List, [], ◌∷◌, Bool, is_some}
use luwes.Base.Bytes.{Bytes, lookup, insert}

abbrev pub FactoryRegistry {ℓ} : Type ℓ → Type ℓ
FactoryRegistry F = List (Bytes × F)

-- The end of a registration: the registry, or a panic with the name that is taken.
pub data Registration {ℓ} (F : Type ℓ) : Type ℓ where
  registered : FactoryRegistry F → Registration F
  already_registered : Bytes → Registration F

-- A factory, with the error that comes with it; the registry's own error has no factory.
pub data Opened {ℓ} (R : Type ℓ) : Type ℓ where
  no_config_factory : Opened R
  created : R → Opened R

module _ {ℓ} {F : Type ℓ} where
  unfoldable pub register_factories : List (Bytes × F) → FactoryRegistry F → Registration F
  unfolding lookup insert
  register_factories [] registry = registered registry
  register_factories ((name, factory) ∷ factories) registry =
      let rest = register_factories factories (insert name factory registry) in
      elim (lookup name registry) as (λ _. Registration F) [
        | some taken ↦ already_registered name
        | none ↦ rest
      ]

  unfoldable pub get_config_factory : Bytes → FactoryRegistry F → Option F
  unfolding lookup
  get_config_factory name registry = lookup name registry

  -- `create` is the factory's `Create` on the handle and the configuration of the call.
  unfoldable pub new_factory {κ} : {R : Type κ} → (F → R) → Bytes → FactoryRegistry F → Opened R
  unfolding lookup
  new_factory create name registry = elim (lookup name registry) [
    | none ↦ no_config_factory
    | some factory ↦ created (create factory)
  ]
