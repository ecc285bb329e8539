-- ===== src/Sahl/Create.antt =====
-- `configFactory.Create` and `filterFactory` of sahl/filter.go.
use luwes.Base.{
  ◌⊎◌, inl, inr, ℕ, ◌≡◌, refl, sym, ap, true, Option, none, some, List, [], ◌∷◌, is_some,
}
use luwes.Base.Bytes.{Bytes}
use luwes.Sahl.Writer.{Result, ok, panic, nil_handler}
use luwes.Sahl.Filter.{HandlerFunc, FilterDef, Filter, new_sahl_filter}
use luwes.Sahl.Registry.{ConfigHandle, HandlerFactory, ConfigFunc, Registered, ConfigFactory}

-- The errors that `Create` returns, each logged before; the text is that of the user's error.
pub data ConfigError : Type 0 where
  factory_failed : Bytes → ConfigError
  factory_returned_nil : ConfigError
  config_failed : Bytes → ConfigError

-- `filterFactory`.
pub record FilterFactory : Type 0 where
  pub name : Bytes
  pub def : FilterDef

-- `(shared.HttpFilterFactory, error)`: one of the two.
pub data Created : Type 0 where
  made : FilterFactory → Created
  refused : ConfigError → Created

-- The switch of `Create`: the handler to use, or the error.
pub data Resolved : Type 0 where
  use_handler : Option HandlerFunc → Resolved
  fail_with : ConfigError → Resolved

abbrev from_factory : Option HandlerFunc × Option Bytes → Resolved
from_factory (fn, some err) = fail_with (factory_failed err)
from_factory (none, none) = fail_with factory_returned_nil
from_factory (some fn, none) = use_handler (some fn)

abbrev from_config : Option HandlerFunc → Option Bytes → Resolved
from_config h (some err) = fail_with (config_failed err)
from_config h none = use_handler h

abbrev resolve_with :
    Option HandlerFactory → Option ConfigFunc → Option HandlerFunc → ConfigHandle → Resolved
resolve_with (some factory_fn) config_fn h ch = from_factory (factory_fn ch)
resolve_with none (some config_fn) h ch = from_config h (config_fn ch)
resolve_with none none h ch = use_handler h

unfoldable pub resolve : ConfigHandle → Registered → Resolved
resolve ch def = resolve_with def.factory_fn def.config_fn def.handler ch

abbrev built : ConfigFactory → Resolved → Result (Created × List ConfigError)
built f (fail_with err) = ok (refused err, err ∷ [])
built f (use_handler none) = panic nil_handler
built f (use_handler (some h)) = ok (
  made (record {
    name = f.name;
    def = record {
      handler = some h;
      response_fn = f.def.response_fn;
      body_aware = f.def.body_aware;
      mutable_response = f.def.mutable_response;
    };
  }),
  [],
)

-- `configFactory.Create`: its result, and the errors that it logs.
unfoldable pub config_factory_create :
    ConfigHandle → ConfigFactory → Result (Created × List ConfigError)
unfolding resolve
config_factory_create ch f = built f (resolve ch f.def)

-- `filterFactory.Create`, on a filter from the pool.
unfoldable pub filter_factory_create : FilterFactory → ℕ → Filter → Result Filter
unfolding new_sahl_filter
filter_factory_create factory handle pooled = new_sahl_filter factory.name factory.def handle pooled

-- The error of the registered config function, which there may not be.
abbrev config_error : Option ConfigFunc → ConfigHandle → Option Bytes
config_error none ch = none
config_error (some config_fn) ch = config_fn ch

-- Where the handler comes from: the factory function made it without an error; or there is none, the
-- config function, if any, had no error, and it is the registered one.
abbrev Chosen : ConfigHandle → Registered → Option HandlerFunc → Type 0
Chosen ch def h =
    ((factory_fn : HandlerFactory) × (def.factory_fn ≡ some factory_fn)
      × (factory_fn ch ≡ (h, none)))
    ⊎ ((def.factory_fn ≡ none) × (config_error def.config_fn ch ≡ none) × (h ≡ def.handler))

-- What has gone wrong at an error.
abbrev Failed : ConfigHandle → Registered → ConfigError → Type 0
Failed ch def (factory_failed err) =
    (factory_fn : HandlerFactory) × (def.factory_fn ≡ some factory_fn)
    × ((factory_fn ch).1 ≡ some err)
Failed ch def factory_returned_nil =
    (factory_fn : HandlerFactory) × (def.factory_fn ≡ some factory_fn)
    × (factory_fn ch ≡ (none, none))
Failed ch def (config_failed err) =
    (def.factory_fn ≡ none) × (config_error def.config_fn ch ≡ some err)

-- What `Create` comes to, and what it comes from: a factory with the chosen handler and the
-- registered name and flags, and nothing logged; an error that has happened and is logged once; or
-- the panic on a nil handler, where nothing failed and none was registered.
abbrev pub Sane : ConfigHandle → ConfigFactory → Result (Created × List ConfigError) → Type 0
Sane ch f (panic p) =
    (p ≡ nil_handler)
    × (f.def.factory_fn ≡ none)
    × (config_error f.def.config_fn ch ≡ none)
    × (f.def.handler ≡ none)
Sane ch f (ok (refused err, log)) = (log ≡ err ∷ []) × Failed ch f.def err
Sane ch f (ok (made g, log)) =
    (log ≡ [])
    × (is_some g.def.handler ≡ true)
    × Chosen ch f.def g.def.handler
    × (g.name ≡ f.name)
    × (g.def.response_fn ≡ f.def.response_fn)
    × (g.def.body_aware ≡ f.def.body_aware)
    × (g.def.mutable_response ≡ f.def.mutable_response)

-- What the switch comes to.
abbrev Fits : ConfigHandle → Registered → Resolved → Type 0
Fits ch def (fail_with err) = Failed ch def err
Fits ch def (use_handler none) =
    (def.factory_fn ≡ none) × (config_error def.config_fn ch ≡ none) × (def.handler ≡ none)
Fits ch def (use_handler (some h)) = Chosen ch def (some h)

built-Sane :
    (ch : ConfigHandle) (f : ConfigFactory) (r : Resolved) → Fits ch f.def r → Sane ch f (built f r)
built-Sane ch f (fail_with err) h = (refl, h)
built-Sane ch f (use_handler none) h = (refl, h.0, h.1, h.2)
built-Sane ch f (use_handler (some g)) h = (refl, refl, h, refl, refl, refl, refl)

factory-Fits :
    (ch : ConfigHandle) (def : Registered) (factory_fn : HandlerFactory)
    (r : Option HandlerFunc × Option Bytes)
    → def.factory_fn ≡ some factory_fn
    → factory_fn ch ≡ r
    → Fits ch def (from_factory r)
factory-Fits ch def factory_fn (fn, some err) e q = (factory_fn, e, ap (λ r. r.1) q)
factory-Fits ch def factory_fn (none, none) e q = (factory_fn, e, q)
factory-Fits ch def factory_fn (some fn, none) e q = inl (factory_fn, e, q)

plain-Fits :
    (ch : ConfigHandle) (def : Registered) (h : Option HandlerFunc)
    → def.factory_fn ≡ none
    → config_error def.config_fn ch ≡ none
    → h ≡ def.handler
    → Fits ch def (use_handler h)
plain-Fits ch def none n c e = (n, c, sym e)
plain-Fits ch def (some h) n c e = inr (n, c, e)

config-Fits :
    (ch : ConfigHandle) (def : Registered) (err : Option Bytes)
    → def.factory_fn ≡ none
    → config_error def.config_fn ch ≡ err
    → Fits ch def (from_config def.handler err)
config-Fits ch def (some err) n c = (n, c)
config-Fits ch def none n c = plain-Fits ch def def.handler n c refl

resolve_with-Fits :
    (ch : ConfigHandle) (def : Registered) (fac : Option HandlerFactory) (cfg : Option ConfigFunc)
    → def.factory_fn ≡ fac
    → def.config_fn ≡ cfg
    → Fits ch def (resolve_with fac cfg def.handler ch)
resolve_with-Fits ch def (some factory_fn) cfg e q =
    factory-Fits ch def factory_fn (factory_fn ch) e refl
resolve_with-Fits ch def none (some config_fn) e q =
    config-Fits ch def (config_fn ch) e (ap (λ c. config_error c ch) q)
resolve_with-Fits ch def none none e q =
    plain-Fits ch def def.handler e (ap (λ c. config_error c ch) q) refl

resolve-Fits : (ch : ConfigHandle) (def : Registered) → Fits ch def (resolve ch def)
unfolding resolve
resolve-Fits ch def = resolve_with-Fits ch def def.factory_fn def.config_fn refl refl

-- `Create`, for every registered filter, factory and config function, does one of three things. It
-- returns a factory with the registered name and flags and logs nothing: its handler, which is not
-- nil, is the one that the factory function returned without an error, or the registered one, if
-- there is no factory function and no error of the config function. It returns an error, logged
-- once: that of the factory function, that it returned nil without one, or that of the config
-- function, where there is no factory function. Or it panics: no factory function, no error of the
-- config function, and no registered handler.
pub create-Sane : (ch : ConfigHandle) (f : ConfigFactory) → Sane ch f (config_factory_create ch f)
unfolding config_factory_create
create-Sane ch f = built-Sane ch f (resolve ch f.def) (resolve-Fits ch f.def)
