-- ===== src/Impl/Module.antt =====
-- The managers of abi_impl/internal.go that its hooks on a filter change, and
-- `on_http_filter_new`. The address of a handle is Go's allocator's, an argument; the manager of
-- plugins keeps it under itself.
pub mod Laws
mod Kept
use luwes.Base.{ℕ, Bool, true, false, Option, none, some, List, [], ◌∷◌}
use luwes.Abi.Hooks.{StreamHook}
use luwes.Impl.Manager.{Manager, record_item, remove_item}
use luwes.Impl.SharedData.{clear_all}
use luwes.Impl.Handle.{
  Reference, Handle, Reset, ready, plugin_still_set, scheduler_still_set, Operation, operate_all,
  new_dym_stream_plugin_handle,
}

pub record Managers : Type 0 where
  pub plugin_manager : Manager ℕ
  pub shared_data_manager : Manager Reference

-- What `on_http_filter_new` does to the managers, on a handle that `reset` has not refused.
unfoldable pub on_filter_new_managers : ℕ → Managers → Managers
unfolding record_item
on_filter_new_managers address ms = record ms {
  plugin_manager = record_item address address ms.plugin_manager;
}

-- `on_http_filter_new` under a configuration: what `Create` of the plugin's factory does to the new
-- handle and what it returns are arguments.
unfoldable pub on_http_filter_new :
    ℕ → Option Handle → List Operation → Option Reference → ℕ → Managers → Reset × Managers
unfolding new_dym_stream_plugin_handle operate_all on_filter_new_managers
on_http_filter_new host_plugin_ptr pooled during created address ms =
    elim (new_dym_stream_plugin_handle host_plugin_ptr pooled) as (λ _. Reset × Managers) [
      | ready h ↦ (
        ready (record (operate_all during h) { plugin = created }),
        on_filter_new_managers address ms,
      )
      | plugin_still_set ↦ (plugin_still_set, ms)
      | scheduler_still_set ↦ (scheduler_still_set, ms)
    ]

-- What a hook on the stream does to the managers: `clearData` at its completion, and the removal of
-- the handle when it is destroyed.
unfoldable pub manage_hook : StreamHook → ℕ → Handle → Managers → Managers
unfolding clear_all remove_item
manage_hook StreamHook.stream_complete address h ms = elim h.plugin as (λ _. Managers) [
  | none ↦ ms
  | some p ↦ record ms {
    shared_data_manager = clear_all h.recorded_shared_data ms.shared_data_manager;
  }
]
manage_hook StreamHook.destroy address h ms = elim h.stream_destoried as (λ _. Managers) [
  | true ↦ ms
  | false ↦ record ms { plugin_manager = remove_item address ms.plugin_manager }
]
manage_hook hook address h ms = ms

-- What changes the managers: a new filter under an address, and a hook on the stream of one, with
-- its handle as it then is. Streams of other addresses come in between.
pub data ManagerEvent : Type 0 where
  filter_new : ℕ → ManagerEvent
  stream_hook : StreamHook → ℕ → Handle → ManagerEvent

unfoldable pub manage : ManagerEvent → Managers → Managers
unfolding on_filter_new_managers manage_hook
manage (ManagerEvent.filter_new address) ms = on_filter_new_managers address ms
manage (ManagerEvent.stream_hook hook address h) ms = manage_hook hook address h ms

unfoldable pub manage_all : List ManagerEvent → Managers → Managers
unfolding manage
manage_all [] ms = ms
manage_all (event ∷ events) ms = manage_all events (manage event ms)
