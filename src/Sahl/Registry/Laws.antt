-- ===== src/Sahl/Registry/Laws.antt =====
-- The order of `Chain`, and what a registry holds after the packages' registrations.
use luwes.Base.{
  ◌≡◌, refl, ap, ◌∙◌, Bool, true, false, not, ◌&&◌, Option, none, some, List, [], ◌∷◌, ◌++◌,
  reverse, arith, is_some, if◌then◌else◌,
}
use mathlib.Core.List.{reverse-cons}
use luwes.Base.Bytes.{Bytes, eq_of_bytes_eq, bytes_eq_refl, lookup, insert, lookup-insert}
use luwes.Sahl.Writer.{ok, panic, ◌>>=◌, registered_twice}
use luwes.Sahl.Filter.{HandlerFunc}
use luwes.Sahl.Registry.{
  Middleware, chain_loop, chain, Registered, Registry, must_add, ConfigFactory, new_config_factory,
  factories, register_all,
}

-- Each middleware around what follows it.
abbrev pub nested : HandlerFunc → List Middleware → HandlerFunc
nested h [] = h
nested h (m ∷ mw) = m (nested h mw)

chain_loop-append :
    (h : HandlerFunc) (ms ns : List Middleware)
    → chain_loop h (ms ++ ns) ≡ chain_loop (chain_loop h ms) ns
unfolding chain_loop
chain_loop-append h [] ns = refl
chain_loop-append h (m ∷ ms) ns = chain_loop-append (m h) ms ns

-- `Chain` puts the first middleware outermost: a request passes the middlewares from left to right.
pub chain_lem : (h : HandlerFunc) (mw : List Middleware) → chain h mw ≡ nested h mw
unfolding chain chain_loop
chain_lem h [] = refl
chain_lem h (m ∷ mw) =
    ap (chain_loop h) (reverse-cons m mw)
    ∙ chain_loop-append h (reverse mw) (m ∷ [])
    ∙ ap m (chain_lem h mw)

abbrev or_else {ℓ} : {A : Type ℓ} → Option A → Option A → Option A
or_else none o = o
or_else (some a) o = some a

-- The names to register are new to the registry and to each other.
abbrev pub fits : List (Bytes × Registered) → Registry → Bool
fits [] reg = true
fits ((name, def) ∷ regs) reg =
    not (is_some (lookup name reg)) && not (is_some (lookup name regs)) && fits regs reg

fits-insert :
    (name : Bytes) (def : Registered) (regs : List (Bytes × Registered)) (reg : Registry)
    → is_some (lookup name regs) ≡ false
    → fits regs reg ≡ true
    → fits regs (insert name def reg) ≡ true
unfolding lookup
fits-insert name def [] reg new h = refl
fits-insert name def ((other, d) ∷ regs) reg new h = ground (
  arith,
  new,
  h,
  lookup-insert name other def reg,
  eq_of_bytes_eq name other,
  bytes_eq_refl name,
  fits-insert name def regs reg,
)

-- A registry that holds, of every name, what is registered and else what was there.
abbrev Holds : List (Bytes × Registered) → Registry → Type 0
Holds regs reg =
    (reg' : Registry) × (register_all regs reg ≡ ok reg')
    × ((name : Bytes) → lookup name reg' ≡ or_else (lookup name regs) (lookup name reg))

must_add-new :
    (name : Bytes) (def : Registered) (reg : Registry)
    → is_some (lookup name reg) ≡ false
    → must_add name def reg ≡ ok (insert name def reg)
unfolding must_add
must_add-new name def reg h = ground (arith, h)

Holds-cons :
    (name : Bytes) (def : Registered) (regs : List (Bytes × Registered)) (reg : Registry)
    → is_some (lookup name reg) ≡ false
    → Holds regs (insert name def reg)
    → is_some (lookup name regs) ≡ false
    → Holds ((name, def) ∷ regs) reg
unfolding register_all lookup
Holds-cons name def regs reg new (reg', e, k) later = (
  reg',
  ap (λ r. r >>= register_all regs) (must_add-new name def reg new) ∙ e,
  λ other.
      ground
        (arith, new, later, k other, lookup-insert name other def reg, eq_of_bytes_eq name other),
)

fits-parts :
    (name : Bytes) (def : Registered) (regs : List (Bytes × Registered)) (reg : Registry)
    → fits ((name, def) ∷ regs) reg ≡ true
    → (is_some (lookup name reg) ≡ false)
      × (is_some (lookup name regs) ≡ false)
      × (fits regs reg ≡ true)
fits-parts name def regs reg h = (ground (arith, h), ground (arith, h), ground (arith, h))

register_all-Holds :
    (regs : List (Bytes × Registered)) (reg : Registry) → fits regs reg ≡ true → Holds regs reg
unfolding register_all lookup
register_all-Holds [] reg h = (reg, refl, λ name. refl)
register_all-Holds ((name, def) ∷ regs) reg h =
    let p = fits-parts name def regs reg h in
    Holds-cons name def regs reg p.0
      (register_all-Holds regs (insert name def reg) (fits-insert name def regs reg p.1 p.2)) p.1

-- The factory of a name, of what is registered for it.
abbrev pub made : Bytes → Option Registered → Option ConfigFactory
made name none = none
made name (some def) = some (new_config_factory name def)

factories_lem :
    (name : Bytes) (reg : Registry) → lookup name (factories reg) ≡ made name (lookup name reg)
unfolding factories lookup new_config_factory
factories_lem name [] = refl
factories_lem name ((other, def) ∷ reg) = ground (
  arith,
  lookup-insert other name (new_config_factory other def) (factories reg),
  eq_of_bytes_eq other name,
  factories_lem name reg,
)

or_none : (o : Option Registered) → or_else o none ≡ o
or_none none = refl
or_none (some d) = refl

must_add-on :
    (name : Bytes) (def : Registered) (reg : Registry) (o : Option Registered)
    → lookup name reg ≡ o
    → must_add name def reg
      ≡ (if is_some o then panic registered_twice else ok (insert name def reg))
unfolding must_add
must_add-on name def reg o h = ground (arith, h)

-- Registrations of names that all differ succeed on the empty registry; of every name, `Factories`
-- then has the factory of what was registered for it, or none, and a further registration panics
-- if the name is taken and is added if it is not.
pub registered_lem :
    (regs : List (Bytes × Registered)) (name : Bytes) (def : Registered)
    → fits regs [] ≡ true
    → (reg : Registry) × (register_all regs [] ≡ ok reg)
      × (lookup name (factories reg) ≡ made name (lookup name regs))
      × (must_add name def reg ≡ (
          if is_some (lookup name regs) then panic registered_twice else ok (insert name def reg)))
unfolding lookup
registered_lem regs name def h =
    let held : Holds regs [] = register_all-Holds regs [] h in
    let same : lookup name held.0 ≡ lookup name regs = held.2 name ∙ or_none (lookup name regs) in
    (
      held.0,
      held.1,
      factories_lem name held.0 ∙ ap (made name) same,
      must_add-on name def held.0 (lookup name regs) same,
    )
