-- ===== src/Sahl/Registry.antt =====
-- The registry of sahl/sahl.go: `Chain`, `mustAdd`, the `Register` functions and `Factories`. The
-- Go map is an association list without an order of its own; the mutex makes each call one step.
pub mod Laws
use luwes.Base.{
  ℕ, ◌≡◌, refl, sym, ap, ◌∙◌, Bool, true, false, not, ◌&&◌, Option, none, some, List, [], ◌∷◌, ◌++◌,
  reverse, map, arith, is_some, if◌then◌else◌,
}
use luwes.Base.Bytes.{Bytes, bytes_eq, eq_of_bytes_eq, bytes_eq_refl, lookup, insert, lookup-insert}
use luwes.Shared.Base.{MetricsResult}
use luwes.Sahl.Writer.{Result, ok, panic, ◌>>=◌, registered_twice}
use luwes.Sahl.Filter.{HandlerFunc, ResponseHandlerFunc}

abbrev pub Middleware : Type 0
Middleware = HandlerFunc → HandlerFunc

-- The loop of `Chain`, over the middlewares from the last to the first.
unfoldable pub chain_loop : HandlerFunc → List Middleware → HandlerFunc
chain_loop h [] = h
chain_loop h (m ∷ mw) = chain_loop (m h) mw

unfoldable pub chain : HandlerFunc → List Middleware → HandlerFunc
unfolding chain_loop
chain h mw = chain_loop h (reverse mw)

-- `ConfigHandle`: the host's answers to the definitions of metrics, and the raw config.
pub record ConfigHandle : Type 0 where
  pub define_counter : Bytes → List Bytes → ℕ × MetricsResult
  pub define_histogram : Bytes → List Bytes → ℕ × MetricsResult
  pub raw_config : Option Bytes

-- `(HandlerFunc, error)`: the handler may be nil.
abbrev pub HandlerFactory : Type 0
HandlerFactory = ConfigHandle → Option HandlerFunc × Option Bytes

-- The error, if any.
abbrev pub ConfigFunc : Type 0
ConfigFunc = ConfigHandle → Option Bytes

-- `filterDef`, as it is registered.
pub record Registered : Type 0 where
  pub config_fn : Option ConfigFunc
  pub factory_fn : Option HandlerFactory
  pub handler : Option HandlerFunc
  pub response_fn : Option ResponseHandlerFunc
  pub body_aware : Bool
  pub mutable_response : Bool

abbrev pub Registry : Type 0
Registry = List (Bytes × Registered)

-- `mustAdd`.
unfoldable pub must_add : Bytes → Registered → Registry → Result Registry
unfolding lookup insert
must_add name def reg =
    if is_some (lookup name reg) then panic registered_twice else ok (insert name def reg)

-- `&filterDef{handler: h}`.
unfoldable pub plain : Option HandlerFunc → Registered
plain h = record {
  config_fn = none;
  factory_fn = none;
  handler = h;
  response_fn = none;
  body_aware = false;
  mutable_response = false;
}

unfoldable pub register : Bytes → Option HandlerFunc → Registry → Result Registry
unfolding must_add plain
register name h = must_add name (plain h)

unfoldable pub register_with_config :
    Bytes → Option ConfigFunc → Option HandlerFunc → Registry → Result Registry
unfolding must_add plain
register_with_config name config_fn h = must_add name (record (plain h) { config_fn = config_fn })

unfoldable pub register_with_response :
    Bytes → Option HandlerFunc → Option ResponseHandlerFunc → Registry → Result Registry
unfolding must_add plain
register_with_response name h resp = must_add name (record (plain h) { response_fn = resp })

unfoldable pub register_with_config_and_response :
    Bytes
    → Option ConfigFunc
    → Option HandlerFunc
    → Option ResponseHandlerFunc
    → Registry
    → Result Registry
unfolding must_add plain
register_with_config_and_response name config_fn h resp =
    must_add name (record (plain h) { config_fn = config_fn; response_fn = resp })

unfoldable pub register_with_body : Bytes → Option HandlerFunc → Registry → Result Registry
unfolding must_add plain
register_with_body name h = must_add name (record (plain h) { body_aware = true })

unfoldable pub register_with_body_config_and_response :
    Bytes
    → Option ConfigFunc
    → Option HandlerFunc
    → Option ResponseHandlerFunc
    → Registry
    → Result Registry
unfolding must_add plain
register_with_body_config_and_response name config_fn h resp =
    must_add name
      (record (plain h) { config_fn = config_fn; response_fn = resp; body_aware = true })

unfoldable pub register_with_body_and_response :
    Bytes → Option HandlerFunc → Option ResponseHandlerFunc → Registry → Result Registry
unfolding must_add plain
register_with_body_and_response name h resp =
    must_add name (record (plain h) { response_fn = resp; body_aware = true })

unfoldable pub register_with_mutable_response :
    Bytes → Option HandlerFunc → Option ResponseHandlerFunc → Registry → Result Registry
unfolding must_add plain
register_with_mutable_response name h resp =
    must_add name (record (plain h) { response_fn = resp; mutable_response = true })

unfoldable pub register_factory : Bytes → Option HandlerFactory → Registry → Result Registry
unfolding must_add plain
register_factory name factory_fn = must_add name (record (plain none) { factory_fn = factory_fn })

-- `configFactory` of sahl/filter.go.
pub record ConfigFactory : Type 0 where
  pub name : Bytes
  pub def : Registered

-- `newConfigFactory`.
unfoldable pub new_config_factory : Bytes → Registered → ConfigFactory
new_config_factory name def = record { name = name; def = def }

-- `Factories`: the loop over the registry.
unfoldable pub factories : Registry → List (Bytes × ConfigFactory)
unfolding new_config_factory insert
factories [] = []
factories ((name, def) ∷ reg) = insert name (new_config_factory name def) (factories reg)

-- The calls of the filter packages' init functions, in order.
unfoldable pub register_all : List (Bytes × Registered) → Registry → Result Registry
unfolding must_add
register_all [] reg = ok reg
register_all ((name, def) ∷ regs) reg = must_add name def reg >>= register_all regs
