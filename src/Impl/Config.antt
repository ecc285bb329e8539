-- ===== src/Impl/Config.antt =====
-- `dymConfigHandle` of abi_impl/internal.go: the handle of a filter's configuration, with callouts,
-- streams and a scheduler of its own, and the hooks on them.
pub mod Laws
use luwes.Base.{ℕ, Bool, Option, none, some, List, []}
use luwes.Base.Bytes.{Bytes}
use luwes.Abi.Buffer.{Buffer, HttpHeader}
use luwes.Abi.Callouts.{ConfigCalloutCallbacks}
use luwes.Abi.Common.{HttpCalloutInitResult, HttpCalloutResult}
use luwes.Abi.Hooks.{ConfigHook}
use luwes.Sahl.Host.{Pair}
use luwes.Impl.Buffers.{
  string_to_module_buffer, bytes_to_module_buffer, headers_to_module_http_header_slice,
}
use luwes.Impl.GoMap.{GoMap, put, find, delete}
use luwes.Impl.Scheduler.{DymScheduler, new_dym_scheduler, on_scheduled}
use luwes.Impl.Handle.{Reference}
use luwes.Impl.Handle.Hooks.{Invocation}

pub record DymConfigHandle : Type 0 where
  pub host_config_ptr : ℕ
  pub callout_callbacks : GoMap Reference
  pub stream_callbacks : GoMap Reference
  pub scheduler : Option (DymScheduler Reference)

-- The handle that `on_http_filter_config_new` makes.
unfoldable pub new_config_handle : ℕ → DymConfigHandle
new_config_handle host_config_ptr = record {
  host_config_ptr = host_config_ptr;
  callout_callbacks = [];
  stream_callbacks = [];
  scheduler = none;
}

unfoldable pub callout_answered :
    HttpCalloutInitResult
    → ℕ
    → Reference
    → DymConfigHandle
    → (HttpCalloutInitResult × ℕ) × DymConfigHandle
unfolding put
callout_answered HttpCalloutInitResult.success callout_id cb h = (
  (HttpCalloutInitResult.success, callout_id),
  record h { callout_callbacks = put callout_id cb h.callout_callbacks },
)
callout_answered answer callout_id cb h = ((answer, 0), h)

unfoldable pub stream_answered :
    HttpCalloutInitResult
    → ℕ
    → Reference
    → DymConfigHandle
    → (HttpCalloutInitResult × ℕ) × DymConfigHandle
unfolding put
stream_answered HttpCalloutInitResult.success stream_id cb h = (
  (HttpCalloutInitResult.success, stream_id),
  record h { stream_callbacks = put stream_id cb h.stream_callbacks },
)
stream_answered answer stream_id cb h = ((answer, 0), h)

module _ {S : Type 0} (host : ConfigCalloutCallbacks S) (nil_data : Bool) where
  unfoldable pub http_callout :
      Bytes
      → List Pair
      → Bytes
      → ℕ
      → Reference
      → DymConfigHandle
      → S
      → (HttpCalloutInitResult × ℕ) × DymConfigHandle × S
  unfolding callout_answered string_to_module_buffer headers_to_module_http_header_slice
      bytes_to_module_buffer
  http_callout cluster headers body timeout_ms cb h s =
      let (answer, callout_id, s') =
        host.filter_config_http_callout s (string_to_module_buffer nil_data cluster)
          (headers_to_module_http_header_slice nil_data headers)
          (bytes_to_module_buffer nil_data body) timeout_ms in
      let (given, h') = callout_answered answer callout_id cb h in (given, h', s')

  unfoldable pub start_http_stream :
      Bytes
      → List Pair
      → Bytes
      → Bool
      → ℕ
      → Reference
      → DymConfigHandle
      → S
      → (HttpCalloutInitResult × ℕ) × DymConfigHandle × S
  unfolding stream_answered string_to_module_buffer headers_to_module_http_header_slice
      bytes_to_module_buffer
  start_http_stream cluster headers body end_of_stream timeout_ms cb h s =
      let (answer, stream_id, s') =
        host.filter_config_start_http_stream s (string_to_module_buffer nil_data cluster)
          (headers_to_module_http_header_slice nil_data headers)
          (bytes_to_module_buffer nil_data body) end_of_stream timeout_ms in
      let (given, h') = stream_answered answer stream_id cb h in (given, h', s')

  unfoldable pub send_http_stream_data : ℕ → Bytes → Bool → S → Bool × S
  unfolding bytes_to_module_buffer
  send_http_stream_data stream_id bytes end_of_stream s =
      host.filter_config_stream_send_data s stream_id (bytes_to_module_buffer nil_data bytes)
        end_of_stream

  unfoldable pub send_http_stream_trailers : ℕ → List Pair → S → Bool × S
  unfolding headers_to_module_http_header_slice
  send_http_stream_trailers stream_id trailers s =
      host.filter_config_stream_send_trailers s stream_id
        (headers_to_module_http_header_slice nil_data trailers)

  unfoldable pub reset_http_stream : ℕ → S → S
  reset_http_stream stream_id s = host.filter_config_reset_http_stream s stream_id

-- `GetScheduler`, with the pointer that the host answers if it is asked for one.
unfoldable pub get_scheduler : ℕ → DymConfigHandle → DymConfigHandle
unfolding new_dym_scheduler
get_scheduler scheduler_ptr h = elim h.scheduler [
  | some s ↦ h
  | none ↦ record h { scheduler = some (new_dym_scheduler scheduler_ptr) }
]

abbrev Outcome : Type 0
Outcome = Option Invocation × DymConfigHandle

abbrev task_of : Option Reference → Option Invocation
task_of none = none
task_of (some task) = some (Invocation.run_task task)

abbrev event : ℕ → (Reference → Invocation) → DymConfigHandle → Option Invocation
event stream_id method h = elim (find stream_id h.stream_callbacks) [
  | some cb ↦ some (method cb)
  | none ↦ none
]

abbrev stream_end : ℕ → (Reference → Invocation) → DymConfigHandle → Outcome
stream_end stream_id method h = elim (find stream_id h.stream_callbacks) as (λ _. Outcome) [
  | none ↦ (none, h)
  | some cb ↦
      (some (method cb), record h { stream_callbacks = delete stream_id h.stream_callbacks })
]

-- The hooks on the configuration, where it is alive.
unfoldable pub on_config_hook : ConfigHook → DymConfigHandle → Option Invocation × DymConfigHandle
unfolding find delete on_scheduled
on_config_hook (ConfigHook.config_scheduled task_id) h = elim h.scheduler as (λ _. Outcome) [
  | none ↦ (none, h)
  | some s ↦
      (task_of (on_scheduled task_id s).0, record h { scheduler = some (on_scheduled task_id s).1 })
]
on_config_hook (ConfigHook.config_http_callout_done id answer headers chunks) h =
    elim (find id h.callout_callbacks) as (λ _. Outcome) [
      | none ↦ (none, h)
      | some cb ↦ (
        some (Invocation.on_http_callout_done cb id answer headers chunks),
        record h { callout_callbacks = delete id h.callout_callbacks },
      )
    ]
on_config_hook (ConfigHook.config_http_stream_headers id headers end_of_stream) h =
    (event id (λ cb. Invocation.on_http_stream_headers cb id headers end_of_stream) h, h)
on_config_hook (ConfigHook.config_http_stream_data id chunks end_of_stream) h =
    (event id (λ cb. Invocation.on_http_stream_data cb id chunks end_of_stream) h, h)
on_config_hook (ConfigHook.config_http_stream_trailers id trailers) h =
    (event id (λ cb. Invocation.on_http_stream_trailers cb id trailers) h, h)
on_config_hook (ConfigHook.config_http_stream_complete id) h =
    stream_end id (λ cb. Invocation.on_http_stream_complete cb id) h
on_config_hook (ConfigHook.config_http_stream_reset id reason) h =
    stream_end id (λ cb. Invocation.on_http_stream_reset cb id reason) h
