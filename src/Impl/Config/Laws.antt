-- ===== src/Impl/Config/Laws.antt =====
-- A configuration's hooks do what those of a filter do.
use luwes.Base.{◌≡◌, arith}
use luwes.Abi.Hooks.{ConfigHook, CalloutHook, ScheduledHook}
use luwes.Impl.Handle.{Handle, zero_handle}
use luwes.Impl.Handle.Hooks.{
  on_callout_hook, on_scheduled_hook, callout_done, stream_event, stream_end,
}
use luwes.Impl.Handle.Trace.{Action, act}
use luwes.Impl.Config.{DymConfigHandle, on_config_hook}

-- A filter's handle with the callbacks and the scheduler of a configuration.
abbrev pub as_handle : DymConfigHandle → Handle
as_handle c = record zero_handle {
  callout_callbacks = c.callout_callbacks;
  stream_callbacks = c.stream_callbacks;
  scheduler = c.scheduler;
}

-- The filter's hook for a hook on a configuration.
abbrev pub as_filter_hook : ConfigHook → Action
as_filter_hook (ConfigHook.config_scheduled task_id) =
    Action.scheduled_hook (ScheduledHook.scheduled task_id)
as_filter_hook (ConfigHook.config_http_callout_done id answer headers chunks) =
    Action.callout_hook (CalloutHook.http_callout_done id answer headers chunks)
as_filter_hook (ConfigHook.config_http_stream_headers id headers end_of_stream) =
    Action.callout_hook (CalloutHook.http_stream_headers id headers end_of_stream)
as_filter_hook (ConfigHook.config_http_stream_data id chunks end_of_stream) =
    Action.callout_hook (CalloutHook.http_stream_data id chunks end_of_stream)
as_filter_hook (ConfigHook.config_http_stream_trailers id trailers) =
    Action.callout_hook (CalloutHook.http_stream_trailers id trailers)
as_filter_hook (ConfigHook.config_http_stream_complete id) =
    Action.callout_hook (CalloutHook.http_stream_complete id)
as_filter_hook (ConfigHook.config_http_stream_reset id reason) =
    Action.callout_hook (CalloutHook.http_stream_reset id reason)

-- A hook on a configuration runs what the filter's hook runs on a handle with the same callbacks and
-- scheduler, whose stream is not complete, and leaves the same callbacks and scheduler.
pub on_config_hook_lem :
    (hook : ConfigHook) (c : DymConfigHandle)
    → ((on_config_hook hook c).0 ≡ (act (as_filter_hook hook) (as_handle c)).0)
      × (as_handle (on_config_hook hook c).1 ≡ (act (as_filter_hook hook) (as_handle c)).1)
unfolding on_config_hook act on_scheduled_hook on_callout_hook callout_done stream_event stream_end
on_config_hook_lem (ConfigHook.config_scheduled task_id) c = (ground arith, ground arith)
on_config_hook_lem (ConfigHook.config_http_callout_done id answer headers chunks) c =
    (ground arith, ground arith)
on_config_hook_lem (ConfigHook.config_http_stream_headers id headers end_of_stream) c =
    (ground arith, ground arith)
on_config_hook_lem (ConfigHook.config_http_stream_data id chunks end_of_stream) c =
    (ground arith, ground arith)
on_config_hook_lem (ConfigHook.config_http_stream_trailers id trailers) c =
    (ground arith, ground arith)
on_config_hook_lem (ConfigHook.config_http_stream_complete id) c = (ground arith, ground arith)
on_config_hook_lem (ConfigHook.config_http_stream_reset id reason) c = (ground arith, ground arith)
