-- ===== src/Impl/Tests/Handles.antt =====
-- Runs of the handles of abi_impl/internal.go and their hooks, and the theorems on them at concrete
-- inputs.
use luwes.Base.{
  ℕ, replicate, ◌≢◌, arith, ◌≡◌, refl, true, false, none, some, List, [], ◌∷◌, is_some,
}
use luwes.Base.Bytes.{Bytes, ascii, lookup, bytes_eq}
use luwes.Abi.Buffer.{null, view}
use luwes.Abi.Common.{HttpCalloutInitResult, HttpCalloutResult, HttpStreamResetReason}
use luwes.Abi.Hooks.{StreamHook, CalloutHook, ScheduledHook, ReplyHook, ConfigHook}
use luwes.Impl.GoMap.{find, put, delete}
use luwes.Impl.Scheduler.{on_scheduled}
use luwes.Impl.Handle.{
  Handle, zero_handle, ready, Operation, operate, operate_all, cleared,
  new_dym_stream_plugin_handle, callout_answered,
}
use luwes.Impl.Handle.Hooks.{
  Invocation, on_stream_hook, on_callout_hook, on_scheduled_hook, on_reply_hook, callout_done,
  stream_end, destroyed, call_plugin, call_watermark,
}
use luwes.Impl.Handle.Trace.{Action, act, act_all, invoked}
use luwes.Impl.Handle.Quiet.{any, runs_callback, on_response}
use luwes.Impl.Handle.Ended.{stream_complete_lem, destroy-stream_complete, send_local_response_lem}
use luwes.Impl.Handle.Callouts.Once.{http_callout_lem}
use luwes.Impl.Handle.Callouts.Streams.{http_stream_end_lem}
use luwes.Impl.Handle.Reuse.{new_dym_stream_plugin_handle-destroy}
use luwes.Sdk.{FactoryRegistry, register_factories, new_factory}
use luwes.Sdk.Laws.{found_after, register_factories_lem}
use luwes.Impl.Lifecycle.{
  ConfigFactory, ConfigWrapper, on_config_new, on_config_destroy, opened, answered, accepted,
}
use luwes.Impl.Lifecycle.Laws.{on_config_new_lem, address_of}
use luwes.Impl.Manager.{Manager, num_manager_shards, new_manager, search}
use luwes.Impl.Module.{Managers, ManagerEvent, on_filter_new_managers, manage_hook, manage_all}
use luwes.Impl.Module.Laws.{module_lem}
use luwes.Impl.Config.{DymConfigHandle, new_config_handle, on_config_hook}
use luwes.Impl.Config.Laws.{as_handle, as_filter_hook, on_config_hook_lem}

abbrev no_managers : Managers
no_managers = record { plugin_manager = new_manager; shared_data_manager = new_manager }

abbrev sharing : Handle
sharing = record zero_handle { plugin = some 1; recorded_shared_data = 31 ∷ 32 ∷ 33 ∷ [] }

-- A handle with a plugin, a callout, a stream, a task and watermark callbacks.
abbrev busy : Handle
busy = record zero_handle {
  host_plugin_ptr = 4;
  plugin = some 1;
  scheduler = some (record { scheduler_ptr = 9; next_task_id = 1; tasks = (0, 20) ∷ [] });
  callout_callbacks = (5, 21) ∷ [];
  stream_callbacks = (6, 22) ∷ [];
  downstream_watermark_callbacks = some 23;
}

abbrev callout_end : CalloutHook
callout_end = CalloutHook.http_callout_done 5 HttpCalloutResult.success [] (view (ascii "ok") ∷ [])

abbrev late : List Action
late =
    Action.callout_hook callout_end
    ∷ Action.scheduled_hook (ScheduledHook.scheduled 0)
    ∷ Action.operation (Operation.http_callout HttpCalloutInitResult.success 7 24)
    ∷ Action.callout_hook (CalloutHook.http_stream_complete 6)
    ∷ Action.reply_hook ReplyHook.downstream_above_write_buffer_high_watermark
    ∷ Action.reply_hook (ReplyHook.local_reply 503 null false)
    ∷ []

-- The same hooks on a handle whose stream goes on.
early :
    invoked late busy
    ≡ some
        (Invocation.on_http_callout_done 21 5 HttpCalloutResult.success [] (view (ascii "ok") ∷ []))
      ∷ some (Invocation.run_task 20)
      ∷ none
      ∷ some (Invocation.on_http_stream_complete 22 6)
      ∷ some (Invocation.on_above_write_buffer_high_watermark 23)
      ∷ some (Invocation.on_local_reply 1 503 null false)
      ∷ []
unfolding invoked act operate callout_answered on_callout_hook on_scheduled_hook on_reply_hook
    callout_done stream_end call_plugin call_watermark find put delete on_scheduled
early = refl

stream_complete_lem_example :
    any runs_callback (invoked late (on_stream_hook StreamHook.stream_complete [] busy).1) ≡ false
stream_complete_lem_example = stream_complete_lem busy 1 [] late refl

destroy-stream_complete_example :
    any is_some (
      invoked late
        (on_stream_hook StreamHook.destroy
          (Operation.ask_scheduler 8 ∷ [])
          (act_all late (on_stream_hook StreamHook.stream_complete [] busy).1)).1)
    ≡ false
unfolding act_all act operate callout_answered on_callout_hook on_scheduled_hook on_reply_hook
    callout_done stream_end on_stream_hook call_plugin find put delete
destroy-stream_complete_example =
    destroy-stream_complete busy 1 [] (Operation.ask_scheduler 8 ∷ []) late late refl refl

-- Without the completion, the hook on a callout's end still runs its callback after `destroy`.
callout_after_destroy :
    (on_callout_hook callout_end (on_stream_hook StreamHook.destroy [] busy).1).0
    ≡ some
        (Invocation.on_http_callout_done 21 5 HttpCalloutResult.success [] (view (ascii "ok") ∷ []))
unfolding on_callout_hook callout_done on_stream_hook destroyed operate_all find delete
callout_after_destroy = refl

-- A callout whose end the host reports before it answers loses its callback's call.
ended_early : (on_callout_hook callout_end zero_handle).0 ≡ none
unfolding on_callout_hook callout_done find
ended_early = refl

send_local_response_lem_example :
    any on_response (
      invoked
        (Action.stream_hook (StreamHook.response_headers true) [] ∷ late)
        (operate Operation.send_local_response busy))
    ≡ false
send_local_response_lem_example =
    send_local_response_lem busy (Action.stream_hook (StreamHook.response_headers true) [] ∷ late)

abbrev between : List Action
between =
    Action.scheduled_hook (ScheduledHook.scheduled 0)
    ∷ Action.operation (Operation.http_callout HttpCalloutInitResult.success 7 24)
    ∷ Action.stream_hook (StreamHook.request_body true) []
    ∷ []

http_callout_lem_example :
    ((on_callout_hook
        (CalloutHook.http_callout_done 3 HttpCalloutResult.success [] [])
        (act_all between (callout_answered HttpCalloutInitResult.success 3 30 busy).1)).0
      ≡ some (Invocation.on_http_callout_done 30 3 HttpCalloutResult.success [] []))
    × ((on_callout_hook (CalloutHook.http_callout_done 3 HttpCalloutResult.success [] []) (
          act_all between
            (on_callout_hook
              (CalloutHook.http_callout_done 3 HttpCalloutResult.success [] [])
              (act_all between (callout_answered HttpCalloutInitResult.success 3 30 busy).1)).1)).0
        ≡ none)
unfolding act_all act operate callout_answered on_scheduled_hook on_stream_hook
http_callout_lem_example =
    http_callout_lem 3 30 busy between between HttpCalloutResult.success [] [] refl refl refl refl

http_stream_end_lem_example :
    (on_callout_hook (CalloutHook.http_stream_data 6 [] true) (
      act_all between
        (on_callout_hook
          (CalloutHook.http_stream_reset 6 HttpStreamResetReason.local_reset)
          busy).1)).0
    ≡ none
http_stream_end_lem_example =
    http_stream_end_lem 6 (CalloutHook.http_stream_reset 6 HttpStreamResetReason.local_reset)
      (CalloutHook.http_stream_data 6 [] true) busy between refl refl refl refl

new_dym_stream_plugin_handle-destroy_example :
    (new_dym_stream_plugin_handle 11
        (some (on_stream_hook StreamHook.destroy (Operation.ask_scheduler 8 ∷ []) busy).1)
      ≡ new_dym_stream_plugin_handle 11 none)
    × (new_dym_stream_plugin_handle 11 none ≡ ready (cleared 11 zero_handle))
new_dym_stream_plugin_handle-destroy_example =
    new_dym_stream_plugin_handle-destroy 11 (Operation.ask_scheduler 8 ∷ []) busy refl

abbrev busy_config : DymConfigHandle
busy_config = record {
  host_config_ptr = 2;
  callout_callbacks = (5, 21) ∷ [];
  stream_callbacks = [];
  scheduler = none;
}

on_config_hook_lem_example :
    ((on_config_hook
        (ConfigHook.config_http_callout_done 5 HttpCalloutResult.success [] [])
        busy_config).0
      ≡ (act
          (as_filter_hook (ConfigHook.config_http_callout_done 5 HttpCalloutResult.success [] []))
          (as_handle busy_config)).0)
    × (as_handle
          (on_config_hook
            (ConfigHook.config_http_callout_done 5 HttpCalloutResult.success [] [])
            busy_config).1
        ≡ (act
            (as_filter_hook (ConfigHook.config_http_callout_done 5 HttpCalloutResult.success [] []))
            (as_handle busy_config)).1)
on_config_hook_lem_example =
    on_config_hook_lem (ConfigHook.config_http_callout_done 5 HttpCalloutResult.success [] [])
      busy_config

-- Another filter comes and goes while the first answers its response and completes.
abbrev filter_events : List ManagerEvent
filter_events =
    ManagerEvent.filter_new 96
    ∷ ManagerEvent.stream_hook (StreamHook.response_body true) 64 sharing
    ∷ ManagerEvent.stream_hook StreamHook.stream_complete 64 sharing
    ∷ ManagerEvent.stream_hook StreamHook.destroy 96 zero_handle
    ∷ []

module_lem_example :
    (search 64 (manage_all filter_events (on_filter_new_managers 64 no_managers)).plugin_manager
      ≡ some 64)
    × (search 64
          (manage_all (ManagerEvent.filter_new 128 ∷ []) (
            manage_hook StreamHook.destroy 64 sharing
              (manage_all filter_events (on_filter_new_managers 64 no_managers)))).plugin_manager
        ≡ none)
    × (search 32
          (manage_hook StreamHook.stream_complete 64 sharing
            (manage_all filter_events (on_filter_new_managers 64 no_managers))).shared_data_manager
        ≡ none)
unfolding new_manager
module_lem_example =
    module_lem 64 1 32 (31 ∷ []) (33 ∷ []) sharing filter_events (ManagerEvent.filter_new 128 ∷ [])
      no_managers (refl, refl) refl refl refl refl refl

abbrev factory : ConfigFactory
factory = record {
  create = λ h config. ((some 3, none), h);
  create_per_route = λ config. (none, none);
}

abbrev lua : FactoryRegistry ConfigFactory
lua = (ascii "lua", factory) ∷ []

abbrev no_configs : Manager ConfigWrapper
no_configs = replicate num_manager_shards []

abbrev lua_wrapper : ConfigWrapper
lua_wrapper = record {
  plugin_factory = 3;
  config_handle = record {
    host_config_ptr = 2;
    callout_callbacks = [];
    stream_callbacks = [];
    scheduler = none;
  };
}

on_config_new_lem_example :
    ((on_config_new lua 2 (view (ascii "lua")) null 96 no_configs).pointer
      ≡ address_of 96 (some lua_wrapper))
    × ((on_config_new lua 2 (view (ascii "lua")) null 96 no_configs).logged ≡ false)
    × (search 96 (on_config_new lua 2 (view (ascii "lua")) null 96 no_configs).configs
        ≡ some lua_wrapper)
    × (search 128 (on_config_new lua 2 (view (ascii "lua")) null 96 no_configs).configs
        ≡ search 128 no_configs)
    × ((on_config_destroy 96
          (search 96 (on_config_new lua 2 (view (ascii "lua")) null 96 no_configs).configs)
          (on_config_new lua 2 (view (ascii "lua")) null 96 no_configs).configs).0
        ≡ some 3)
    × (search 96
          (on_config_destroy 96
            (search 96 (on_config_new lua 2 (view (ascii "lua")) null 96 no_configs).configs)
            (on_config_new lua 2 (view (ascii "lua")) null 96 no_configs).configs).2
        ≡ none)
unfolding search find lookup bytes_eq new_config_handle
on_config_new_lem_example =
    on_config_new_lem lua 2 (view (ascii "lua")) null 96 128 no_configs refl refl apart
  where
    apart : ◌≢◌ {A = ℕ} 128 96
    apart = omega arith

-- A factory that comes with an error is refused, and so is no factory without one.
abbrev failing : Bytes → FactoryRegistry ConfigFactory
failing err =
    (
      ascii "lua",
      record {
        create = λ h config. ((some 3, some err), h);
        create_per_route = λ config. (none, none);
      },
    )
    ∷ []

refused_with_error :
    ((on_config_new (failing (ascii "bad")) 2 (view (ascii "lua")) null 96 no_configs).pointer
      ≡ none)
    × ((on_config_new (failing (ascii "bad")) 2 (view (ascii "lua")) null 96 no_configs).logged
        ≡ true)
unfolding on_config_new opened new_factory answered accepted lookup bytes_eq
refused_with_error = (refl, refl)

-- A configuration under a registered name has a pointer, one under another name has none.
opened_by_name :
    ((on_config_new lua 2 (view (ascii "lua")) null 96 no_configs).pointer ≡ some 96)
    × ((on_config_new lua 2 (view (ascii "wasm")) null 96 no_configs).pointer ≡ none)
unfolding on_config_new opened new_factory answered accepted lookup bytes_eq
opened_by_name = (refl, refl)

register_factories_lem_example :
    found_after (ascii "lua") (register_factories ((ascii "wasm", factory) ∷ []) lua)
    ≡ some (some factory)
unfolding lookup bytes_eq
register_factories_lem_example =
    register_factories_lem (ascii "lua") ((ascii "wasm", factory) ∷ []) lua refl
