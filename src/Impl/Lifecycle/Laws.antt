-- ===== src/Impl/Lifecycle/Laws.antt =====
-- Which configurations are accepted, and that an accepted one is recorded while it lives.
use luwes.Base.{ℕ, ◌≡◌, ◌≢◌, refl, ap, ◌∙◌, not, Option, none, some, length, is_some}
use luwes.Base.Bytes.{Bytes, lookup}
use luwes.Abi.Buffer.{Buffer, buffer_bytes}
use luwes.Impl.Handle.{Reference}
use luwes.Impl.Config.{DymConfigHandle, new_config_handle}
use luwes.Sdk.{FactoryRegistry, no_config_factory, created, new_factory}
use luwes.Impl.Manager.{Manager, num_manager_shards, search}
use luwes.Impl.Manager.Laws.{
  search-record_item, search-record_item_other, search-remove_item, length-record_item,
}
use luwes.Impl.Lifecycle.{
  ConfigFactory, ConfigWrapper, Answer, wrapped, opened, refused, accepted, answered, on_config_new,
  on_config_destroy,
}

-- The configuration that is to be accepted: what `Create` of the registered factory returns without
-- an error, with the handle that it has used.
abbrev pub without_error :
    (Option Reference × Option Bytes) × DymConfigHandle → Option ConfigWrapper
without_error ((some factory, none), h) =
    some (record { plugin_factory = factory; config_handle = h })
without_error ((none, err), h) = none
without_error ((factory, some err), h) = none

abbrev pub wanted : Option ConfigFactory → ℕ → Bytes → Option ConfigWrapper
wanted none host_config_ptr config = none
wanted (some f) host_config_ptr config =
    without_error (f.create (new_config_handle host_config_ptr) config)

abbrev pub address_of : ℕ → Option ConfigWrapper → Option ℕ
address_of address none = none
address_of address (some w) = some address

abbrev pub factory_of : Option ConfigWrapper → Option Reference
factory_of none = none
factory_of (some w) = some w.plugin_factory

module _ (address other : ℕ) (configs : Manager ConfigWrapper)
    (e : length configs ≡ num_manager_shards) (fresh : search address configs ≡ none)
    (apart : other ≢ address) where
  -- The answer and the manager after it, for a configuration that is to be accepted, or none.
  abbrev Answers : Option ConfigWrapper → Answer ConfigWrapper → Type 0
  Answers wrapper a =
      (a.pointer ≡ address_of address wrapper)
      × (a.logged ≡ not (is_some wrapper))
      × (search address a.configs ≡ wrapper)
      × (search other a.configs ≡ search other configs)
      × (length a.configs ≡ num_manager_shards)

  refused-Answers : Answers none (refused address configs)
  refused-Answers = (refl, refl, fresh, refl, e)

  answered-Answers :
      (made : (Option Reference × Option Bytes) × DymConfigHandle)
      → Answers (without_error made) (answered address configs (wrapped made))
  unfolding answered accepted
  answered-Answers ((none, none), h) = refused-Answers
  answered-Answers ((none, some err), h) = refused-Answers
  answered-Answers ((some factory, some err), h) = refused-Answers
  answered-Answers ((some factory, none), h) =
      let w : ConfigWrapper = record { plugin_factory = factory; config_handle = h } in
      (
        refl,
        refl,
        search-record_item address w configs e,
        search-record_item_other address other w configs e apart,
        length-record_item address w configs ∙ e,
      )

  found-Answers :
      (host_config_ptr : ℕ) (config : Bytes) (found : Option ConfigFactory)
      → Answers (wanted found host_config_ptr config) (
          opened address configs (elim found [
            | none ↦ no_config_factory
            | some f ↦ created (f.create (new_config_handle host_config_ptr) config)
          ]))
  unfolding opened
  found-Answers host_config_ptr config none = refused-Answers
  found-Answers host_config_ptr config (some f) =
      answered-Answers (f.create (new_config_handle host_config_ptr) config)

  opened-Answers :
      (registry : FactoryRegistry ConfigFactory) (host_config_ptr : ℕ) (name config : Bytes)
      → Answers (wanted (lookup name registry) host_config_ptr config) (
          opened address configs
            (new_factory (λ f. f.create (new_config_handle host_config_ptr) config) name registry))
  unfolding new_factory
  opened-Answers registry host_config_ptr name config =
      found-Answers host_config_ptr config (lookup name registry)

-- The factory whose `OnDestroy` runs, and what is recorded afterwards.
destroyed :
    (address : ℕ) (w : Option ConfigWrapper) (configs : Manager ConfigWrapper)
    → length configs ≡ num_manager_shards
    → search address configs ≡ w
    → ((on_config_destroy address w configs).0 ≡ factory_of w)
      × (search address (on_config_destroy address w configs).2 ≡ none)
unfolding on_config_destroy
destroyed address none configs e h = (refl, h)
destroyed address (some w) configs e h = (refl, search-remove_item address configs e)

-- `on_http_filter_config_new` under a new address accepts a configuration exactly if its name is
-- registered and the factory's `Create` returns a config factory and no error: then it returns the
-- address, logs nothing and records that factory with the handle that `Create` has used; else it
-- returns no pointer, logs, and records nothing. It leaves every other address as it is. Destroying
-- what is recorded runs `OnDestroy` of the very factory that `Create` returned, and removes it.
pub on_config_new_lem :
    (registry : FactoryRegistry ConfigFactory) (host_config_ptr : ℕ) (name config : Buffer)
    (address other : ℕ) (configs : Manager ConfigWrapper)
    → length configs ≡ num_manager_shards
    → search address configs ≡ none
    → other ≢ address
    → let a = on_config_new registry host_config_ptr name config address configs in
      let wrapper =
        wanted (lookup (buffer_bytes name) registry) host_config_ptr (buffer_bytes config) in
      (a.pointer ≡ address_of address wrapper)
      × (a.logged ≡ not (is_some wrapper))
      × (search address a.configs ≡ wrapper)
      × (search other a.configs ≡ search other configs)
      × ((on_config_destroy address (search address a.configs) a.configs).0 ≡ factory_of wrapper)
      × (search address (on_config_destroy address (search address a.configs) a.configs).2 ≡ none)
unfolding on_config_new
on_config_new_lem registry host_config_ptr name config address other configs e fresh apart =
    let a = on_config_new registry host_config_ptr name config address configs in
    let (pointer, logged, recorded, others, sharded) =
      opened-Answers address other configs e fresh apart registry host_config_ptr
        (buffer_bytes name) (buffer_bytes config) in
    let (run, removed) = destroyed address (search address a.configs) a.configs sharded refl in
    (pointer, logged, recorded, others, run ∙ ap factory_of recorded, removed)
