-- ===== src/Impl/Handle.antt =====
-- `dymHttpFilterHandle` of abi_impl/internal.go: its state, its pool, and the operations that change
-- it. A value of an interface or function type is a reference, a number. The host's answer to a
-- callback is an argument of the code that follows the callback; Impl/Handle/Host.antt makes the call.
pub mod Hooks
pub mod Trace
pub mod Keeps
pub mod Quiet
pub mod Callouts
pub mod Reuse
pub mod Host
pub mod Values
pub mod Ended
use luwes.Base.{ℕ, ◌+◌, Bool, true, false, Option, none, some, List, [], ◌∷◌, ◌++◌}
use luwes.Base.Bytes.{Bytes}
use luwes.Abi.Common.{HttpCalloutInitResult}
use luwes.Impl.GoMap.{GoMap, put}
use luwes.Impl.Scheduler.{DymScheduler, new_dym_scheduler, schedule}

abbrev pub Reference : Type 0
Reference = ℕ

-- `dymHeaderMap` and `dymBodyBuffer`, with the numbers of their ABI types.
pub record DymHeaderMap : Type 0 where
  pub host_plugin_ptr : ℕ
  pub header_type : ℕ

pub record DymBodyBuffer : Type 0 where
  pub host_plugin_ptr : ℕ
  pub buffer_type : ℕ

pub record Handle : Type 0 where
  pub host_plugin_ptr : ℕ
  pub request_header_map : DymHeaderMap
  pub response_header_map : DymHeaderMap
  pub request_trailer_map : DymHeaderMap
  pub response_trailer_map : DymHeaderMap
  pub received_request_body : DymBodyBuffer
  pub received_response_body : DymBodyBuffer
  pub buffered_request_body : DymBodyBuffer
  pub buffered_response_body : DymBodyBuffer
  pub plugin : Option Reference
  pub scheduler : Option (DymScheduler Reference)
  pub stream_completed : Bool
  pub stream_destoried : Bool
  pub local_response_sent : Bool
  pub callout_callbacks : GoMap Reference
  pub stream_callbacks : GoMap Reference
  pub recorded_shared_data : List ℕ
  pub downstream_watermark_callbacks : Option Reference

-- `&dymHttpFilterHandle{}`, what the pool makes where it is empty.
abbrev pub zero_handle : Handle
zero_handle = record {
  host_plugin_ptr = 0;
  request_header_map = record { host_plugin_ptr = 0; header_type = 0 };
  response_header_map = record { host_plugin_ptr = 0; header_type = 0 };
  request_trailer_map = record { host_plugin_ptr = 0; header_type = 0 };
  response_trailer_map = record { host_plugin_ptr = 0; header_type = 0 };
  received_request_body = record { host_plugin_ptr = 0; buffer_type = 0 };
  received_response_body = record { host_plugin_ptr = 0; buffer_type = 0 };
  buffered_request_body = record { host_plugin_ptr = 0; buffer_type = 0 };
  buffered_response_body = record { host_plugin_ptr = 0; buffer_type = 0 };
  plugin = none;
  scheduler = none;
  stream_completed = false;
  stream_destoried = false;
  local_response_sent = false;
  callout_callbacks = [];
  stream_callbacks = [];
  recorded_shared_data = [];
  downstream_watermark_callbacks = none;
}

-- The outcome of `reset`: a handle, or one of its two panics.
pub data Reset : Type 0 where
  ready : Handle → Reset
  plugin_still_set : Reset
  scheduler_still_set : Reset

-- What `reset` makes of a handle that passes its checks.
unfoldable pub cleared : ℕ → Handle → Handle
cleared host_plugin_ptr h = record h {
  host_plugin_ptr = host_plugin_ptr;
  request_header_map = record { host_plugin_ptr = host_plugin_ptr; header_type = 0 };
  request_trailer_map = record { host_plugin_ptr = host_plugin_ptr; header_type = 1 };
  response_header_map = record { host_plugin_ptr = host_plugin_ptr; header_type = 2 };
  response_trailer_map = record { host_plugin_ptr = host_plugin_ptr; header_type = 3 };
  received_request_body = record { host_plugin_ptr = host_plugin_ptr; buffer_type = 0 };
  buffered_request_body = record { host_plugin_ptr = host_plugin_ptr; buffer_type = 1 };
  received_response_body = record { host_plugin_ptr = host_plugin_ptr; buffer_type = 2 };
  buffered_response_body = record { host_plugin_ptr = host_plugin_ptr; buffer_type = 3 };
  plugin = none;
  scheduler = none;
  stream_completed = false;
  stream_destoried = false;
  local_response_sent = false;
  callout_callbacks = [];
  stream_callbacks = [];
  recorded_shared_data = [];
  downstream_watermark_callbacks = none;
}

unfoldable pub reset : ℕ → Handle → Reset
unfolding cleared
reset host_plugin_ptr h = elim h.plugin [
  | some p ↦ plugin_still_set
  | none ↦ elim h.scheduler [
    | some s ↦ scheduler_still_set
    | none ↦ ready (cleared host_plugin_ptr h)
  ]
]

-- `newDymStreamPluginHandle`, with the handle that the pool holds, if any.
unfoldable pub new_dym_stream_plugin_handle : ℕ → Option Handle → Reset
unfolding reset
new_dym_stream_plugin_handle host_plugin_ptr none = reset host_plugin_ptr zero_handle
new_dym_stream_plugin_handle host_plugin_ptr (some h) = reset host_plugin_ptr h

-- The end of `HttpCallout`, after the host's answer.
unfoldable pub callout_answered :
    HttpCalloutInitResult → ℕ → Reference → Handle → (HttpCalloutInitResult × ℕ) × Handle
unfolding put
callout_answered HttpCalloutInitResult.success callout_id cb h = (
  (HttpCalloutInitResult.success, callout_id),
  record h { callout_callbacks = put callout_id cb h.callout_callbacks },
)
callout_answered result callout_id cb h = ((result, 0), h)

-- The end of `StartHttpStream`, after the host's answer.
unfoldable pub stream_answered :
    HttpCalloutInitResult → ℕ → Reference → Handle → (HttpCalloutInitResult × ℕ) × Handle
unfolding put
stream_answered HttpCalloutInitResult.success stream_id cb h = (
  (HttpCalloutInitResult.success, stream_id),
  record h { stream_callbacks = put stream_id cb h.stream_callbacks },
)
stream_answered result stream_id cb h = ((result, 0), h)

-- `GetScheduler`, with the pointer that the host answers if it is asked for one.
unfoldable pub get_scheduler : ℕ → Handle → Handle
unfolding new_dym_scheduler
get_scheduler scheduler_ptr h = elim h.scheduler [
  | some s ↦ h
  | none ↦ record h { scheduler = some (new_dym_scheduler scheduler_ptr) }
]

-- `GetScheduler().Schedule(task)`, after `GetScheduler`: the id that is committed, if any.
unfoldable pub schedule_task : Reference → Handle → Option ℕ × Handle
unfolding schedule
schedule_task task h = elim h.scheduler [
  | some s ↦ (some (schedule task s).0, record h { scheduler = some (schedule task s).1 })
  | none ↦ (none, h)
]

-- The operations of a handle that change it: the host's answer to a callout and to a stream, the
-- flag that `SendLocalResponse` sets, the watermark callbacks, the scheduler and a task for it, and
-- the address that `SetData` records.
pub data Operation : Type 0 where
  http_callout : HttpCalloutInitResult → ℕ → Reference → Operation
  start_http_stream : HttpCalloutInitResult → ℕ → Reference → Operation
  send_local_response : Operation
  set_downstream_watermark_callbacks : Reference → Operation
  clear_downstream_watermark_callbacks : Operation
  ask_scheduler : ℕ → Operation
  schedule_one : Reference → Operation
  record_shared_data : ℕ → Operation

unfoldable pub operate : Operation → Handle → Handle
unfolding callout_answered stream_answered get_scheduler schedule_task
operate (http_callout result callout_id cb) h = (callout_answered result callout_id cb h).1
operate (start_http_stream result stream_id cb) h = (stream_answered result stream_id cb h).1
operate send_local_response h = record h { local_response_sent = true }
operate (set_downstream_watermark_callbacks cbs) h = record h {
  downstream_watermark_callbacks = some cbs;
}
operate clear_downstream_watermark_callbacks h = record h { downstream_watermark_callbacks = none }
operate (ask_scheduler scheduler_ptr) h = get_scheduler scheduler_ptr h
operate (schedule_one task) h = (schedule_task task h).1
operate (record_shared_data pointer) h = record h {
  recorded_shared_data = h.recorded_shared_data ++ (pointer ∷ []);
}

unfoldable pub operate_all : List Operation → Handle → Handle
unfolding operate
operate_all [] h = h
operate_all (op ∷ ops) h = operate_all ops (operate op h)
