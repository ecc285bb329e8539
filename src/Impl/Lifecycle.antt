-- ===== src/Impl/Lifecycle.antt =====
-- The hooks of abi_impl/internal.go that make and destroy a filter's configurations, over the
-- registry of sdk.go. The address of a wrapper is Go's allocator's, an argument; an error is its text.
pub mod Laws
use luwes.Base.{ℕ, Bool, true, false, Option, none, some, List}
use luwes.Base.Bytes.{Bytes}
use luwes.Abi.Buffer.{Buffer, buffer_bytes}
use luwes.Sdk.{FactoryRegistry, Opened, no_config_factory, created, new_factory, get_config_factory}
use luwes.Impl.Manager.{Manager, record_item, remove_item}
use luwes.Impl.Handle.{Reference}
use luwes.Impl.Config.{DymConfigHandle, new_config_handle}

-- A config factory: `Create`, with what it does to the handle, and `CreatePerRoute`.
pub record ConfigFactory : Type 0 where
  pub create : DymConfigHandle → Bytes → (Option Reference × Option Bytes) × DymConfigHandle
  pub create_per_route : Bytes → Option Reference × Option Bytes

pub record ConfigWrapper : Type 0 where
  pub plugin_factory : Reference
  pub config_handle : DymConfigHandle

-- What a hook answers: the pointer, if any, and whether it has logged.
pub record Answer {ℓ} (A : Type ℓ) : Type ℓ where
  pub pointer : Option ℕ
  pub logged : Bool
  pub configs : Manager A

module _ {A : Type 0} (address : ℕ) (configs : Manager A) where
  abbrev pub refused : Answer A
  refused = record { pointer = none; logged = true; configs = configs }

  unfoldable pub accepted : A → Answer A
  unfolding record_item
  accepted wrapper = record {
    pointer = some address;
    logged = false;
    configs = record_item address wrapper configs;
  }

  -- The test of the error and of the nil result.
  unfoldable pub answered : Option A × Option Bytes → Answer A
  unfolding accepted
  answered (made, some err) = refused
  answered (none, none) = refused
  answered (some wrapper, none) = accepted wrapper

abbrev pub wrapped :
    (Option Reference × Option Bytes) × DymConfigHandle → Option ConfigWrapper × Option Bytes
wrapped ((none, err), h) = (none, err)
wrapped ((some factory, err), h) =
    (some (record { plugin_factory = factory; config_handle = h }), err)

-- The test of what `NewHttpFilterFactory` returns, whose own error comes without a factory.
unfoldable pub opened :
    ℕ
    → Manager ConfigWrapper
    → Opened ((Option Reference × Option Bytes) × DymConfigHandle)
    → Answer ConfigWrapper
unfolding answered
opened address configs no_config_factory = refused address configs
opened address configs (created made) = answered address configs (wrapped made)

unfoldable pub on_config_new :
    FactoryRegistry ConfigFactory
    → ℕ
    → Buffer
    → Buffer
    → ℕ
    → Manager ConfigWrapper
    → Answer ConfigWrapper
unfolding new_factory opened new_config_handle
on_config_new registry host_config_ptr name config address configs = opened address configs (
    new_factory (λ f. f.create (new_config_handle host_config_ptr) (buffer_bytes config))
      (buffer_bytes name) registry)

-- The factory whose `OnDestroy` runs, the wrapper after it and the manager.
unfoldable pub on_config_destroy :
    ℕ
    → Option ConfigWrapper
    → Manager ConfigWrapper
    → Option Reference × Option ConfigWrapper × Manager ConfigWrapper
unfolding remove_item
on_config_destroy address none configs = (none, none, configs)
on_config_destroy address (some w) configs = (
  some w.plugin_factory,
  some (record w { config_handle = record w.config_handle { scheduler = none } }),
  remove_item address configs,
)

unfoldable pub on_per_route_config_new :
    FactoryRegistry ConfigFactory → Buffer → Buffer → ℕ → Manager Reference → Answer Reference
unfolding get_config_factory answered
on_per_route_config_new registry name config address configs =
    elim (get_config_factory (buffer_bytes name) registry) as (λ _. Answer Reference) [
      | none ↦ refused address configs
      | some f ↦ answered address configs (f.create_per_route (buffer_bytes config))
    ]

unfoldable pub on_per_route_config_destroy : ℕ → Manager Reference → Manager Reference
unfolding remove_item
on_per_route_config_destroy address configs = remove_item address configs
