-- ===== src/Sdk/Laws.antt =====
-- The registries of sdk.go do not depend on the order in which a map is visited.
use luwes.Base.{
  ◌≡◌, refl, sym, ap, ap₂, ◌∙◌, Option, none, some, List, [], ◌∷◌, Bool, true, not, ◌&&◌, arith,
  if◌then◌else◌, inl, inr, Option-cases, is_some,
}
use luwes.Base.Bytes.{Bytes, lookup, insert, lookup-insert, eq_of_bytes_eq, bytes_eq_refl}
use luwes.Sdk.{
  FactoryRegistry, Registration, registered, already_registered, register_factories,
  get_config_factory,
}

module _ {ℓ} {F : Type ℓ} where
  -- The names of a Go map are different.
  abbrev pub are_distinct : List (Bytes × F) → Bool
  are_distinct [] = true
  are_distinct ((name, factory) ∷ factories) =
      not (is_some (lookup name factories)) && are_distinct factories

  -- No name is taken.
  abbrev pub all_free : List (Bytes × F) → FactoryRegistry F → Bool
  all_free [] registry = true
  all_free ((name, factory) ∷ factories) registry =
      not (is_some (lookup name registry)) && all_free factories registry

  abbrev pub or_else : Option F → Option F → Option F
  or_else none o = o
  or_else (some factory) o = some factory

  -- What a registration finds under a name, if it does not panic.
  abbrev pub found_after : Bytes → Registration F → Option (Option F)
  found_after name (registered registry) = some (get_config_factory name registry)
  found_after name (already_registered taken) = none

  all_free-insert :
      (name : Bytes) (factory : F) (factories : List (Bytes × F)) (registry : FactoryRegistry F)
      → lookup name factories ≡ none
      → all_free factories (insert name factory registry) ≡ all_free factories registry
  unfolding lookup
  all_free-insert name factory [] registry e = refl
  all_free-insert name factory ((other, g) ∷ factories) registry e = ground (
    arith,
    e,
    lookup-insert name other factory registry,
    eq_of_bytes_eq name other,
    bytes_eq_refl other,
    all_free-insert name factory factories registry,
  )

  absent_of : (o : Option F) (b : Bool) → (not (is_some o) && b) ≡ true → (o ≡ none) × (b ≡ true)
  absent_of none b e = (refl, e)
  absent_of (some factory) b e = (ground (arith, e), ground (arith, e))

  or_else-insert :
      (key name : Bytes) (factory : F) (factories : List (Bytes × F)) (registry : FactoryRegistry F)
      → lookup name factories ≡ none
      → or_else (lookup key factories) (lookup key (insert name factory registry))
        ≡ or_else (lookup key ((name, factory) ∷ factories)) (lookup key registry)
  unfolding lookup
  or_else-insert key name factory factories registry e = ground (
    arith,
    e,
    lookup-insert name key factory registry,
    eq_of_bytes_eq name key,
    ap (λ k. lookup k factories),
  )

  -- A registration of the entries of a Go map, in whatever order they are visited, succeeds exactly
  -- if no name is taken, and then finds under each name what the map has, or else what was there.
  pub register_factories_lem :
      (key : Bytes) (factories : List (Bytes × F)) (registry : FactoryRegistry F)
      → are_distinct factories ≡ true
      → found_after key (register_factories factories registry) ≡ (
          if all_free factories registry
          then some (or_else (lookup key factories) (lookup key registry))
          else none)
  unfolding register_factories get_config_factory lookup
  register_factories_lem key [] registry d = refl
  register_factories_lem key ((name, factory) ∷ factories) registry d =
      let (absent, rest) = absent_of (lookup name factories) (are_distinct factories) d in
      elim (Option-cases (lookup name registry)) [
        | inr (taken, e) ↦ ground (arith, e)
        | inl e ↦
            ground (arith, e, register_factories_lem key factories next rest)
            ∙ ap₂ (λ b o. if b then some o else none)
                (all_free-insert name factory factories registry absent)
                (or_else-insert key name factory factories registry absent)
            ∙ ap
                (λ o.
                  if not (is_some o) && all_free factories registry
                  then some
                      (or_else (lookup key ((name, factory) ∷ factories)) (lookup key registry))
                  else none)
                (sym e)
      ]
    where
      next : FactoryRegistry F
      next = insert name factory registry
