-- ===== src/Impl/Handle/Host.antt =====
-- The methods of `dymHttpFilterHandle` of abi_impl/internal.go that call the host, on the handle and
-- the host's state `S` of its stream.
use luwes.Base.{ℕ, Bool, Option, none, some, List}
use luwes.Base.Bytes.{Bytes}
use luwes.Abi.Callouts.{CalloutCallbacks}
use luwes.Abi.Common.{HttpCalloutInitResult}
use luwes.Abi.Response.{ResponseCallbacks}
use luwes.Abi.Route.{ContinueCallbacks}
use luwes.Abi.Scheduler.{FlagCallbacks, SchedulerCallbacks}
use luwes.Sahl.Host.{Pair}
use luwes.Impl.Buffers.{
  string_to_module_buffer, bytes_to_module_buffer, headers_to_module_http_header_slice,
}
use luwes.Impl.Scheduler.{DymScheduler}
use luwes.Impl.Handle.{
  Reference, Handle, Operation, operate, callout_answered, stream_answered, get_scheduler,
  schedule_task,
}

module _ {S : Type 0} (host : CalloutCallbacks S) (nil_data : Bool) where
  unfoldable pub http_callout :
      Bytes
      → List Pair
      → Bytes
      → ℕ
      → Reference
      → Handle
      → S
      → (HttpCalloutInitResult × ℕ) × Handle × S
  unfolding callout_answered string_to_module_buffer headers_to_module_http_header_slice
      bytes_to_module_buffer
  http_callout cluster headers body timeout_ms cb h s =
      let (answer, callout_id, s') =
        host.filter_http_callout s (string_to_module_buffer nil_data cluster)
          (headers_to_module_http_header_slice nil_data headers)
          (bytes_to_module_buffer nil_data body) timeout_ms in
      let (given, h') = callout_answered answer callout_id cb h in (given, h', s')

  unfoldable pub start_http_stream :
      Bytes
      → List Pair
      → Bytes
      → Bool
      → ℕ
      → Reference
      → Handle
      → S
      → (HttpCalloutInitResult × ℕ) × Handle × S
  unfolding stream_answered string_to_module_buffer headers_to_module_http_header_slice
      bytes_to_module_buffer
  start_http_stream cluster headers body end_of_stream timeout_ms cb h s =
      let (answer, stream_id, s') =
        host.filter_start_http_stream s (string_to_module_buffer nil_data cluster)
          (headers_to_module_http_header_slice nil_data headers)
          (bytes_to_module_buffer nil_data body) end_of_stream timeout_ms in
      let (given, h') = stream_answered answer stream_id cb h in (given, h', s')

  unfoldable pub send_http_stream_data : ℕ → Bytes → Bool → S → Bool × S
  unfolding bytes_to_module_buffer
  send_http_stream_data stream_id bytes end_of_stream s =
      host.stream_send_data s stream_id (bytes_to_module_buffer nil_data bytes) end_of_stream

  unfoldable pub send_http_stream_trailers : ℕ → List Pair → S → Bool × S
  unfolding headers_to_module_http_header_slice
  send_http_stream_trailers stream_id trailers s =
      host.stream_send_trailers s stream_id (headers_to_module_http_header_slice nil_data trailers)

  unfoldable pub reset_http_stream : ℕ → S → S
  reset_http_stream stream_id s = host.filter_reset_http_stream s stream_id

module _ {S : Type 0} (host : ResponseCallbacks S) (nil_data : Bool) where
  unfoldable pub send_local_response : ℕ → List Pair → Bytes → Bytes → Handle → S → Handle × S
  unfolding operate string_to_module_buffer headers_to_module_http_header_slice
      bytes_to_module_buffer
  send_local_response status_code headers body detail h s = (
    operate Operation.send_local_response h,
    host.send_response s status_code (headers_to_module_http_header_slice nil_data headers)
        (bytes_to_module_buffer nil_data body) (string_to_module_buffer nil_data detail),
  )

  unfoldable pub send_response_headers : List Pair → Bool → S → S
  unfolding headers_to_module_http_header_slice
  send_response_headers headers end_of_stream s =
      host.send_response_headers s (headers_to_module_http_header_slice nil_data headers)
        end_of_stream

  unfoldable pub send_response_data : Bytes → Bool → S → S
  unfolding bytes_to_module_buffer
  send_response_data bytes end_of_stream s =
      host.send_response_data s (bytes_to_module_buffer nil_data bytes) end_of_stream

  unfoldable pub send_response_trailers : List Pair → S → S
  unfolding headers_to_module_http_header_slice
  send_response_trailers trailers s =
      host.send_response_trailers s (headers_to_module_http_header_slice nil_data trailers)

-- `GetScheduler` and `GetScheduler().Schedule`: the host is asked for a scheduler once, and each id
-- is committed to it.
module _ {S : Type 0} (host : SchedulerCallbacks S) where
  unfoldable pub get_host_scheduler : Handle → S → Handle × S
  unfolding get_scheduler
  get_host_scheduler h s = elim h.scheduler as (λ _. Handle × S) [
    | some scheduler ↦ (h, s)
    | none ↦
        let (scheduler_ptr, s') = host.filter_scheduler_new s in (get_scheduler scheduler_ptr h, s')
  ]

  abbrev commit : Option ℕ → Option (DymScheduler Reference) → S → S
  commit (some task_id) (some scheduler) s =
      host.filter_scheduler_commit s scheduler.scheduler_ptr task_id
  commit _ _ s = s

  unfoldable pub schedule_on_host : Reference → Handle → S → Handle × S
  unfolding schedule_task get_host_scheduler
  schedule_on_host task h s =
      let (h', s') = get_host_scheduler h s in
      let (committed, h'') = schedule_task task h' in (h'', commit committed h'.scheduler s')

module _ {S : Type 0} (host : FlagCallbacks S) (nil_data : Bool) where
  unfoldable pub add_custom_flag : Bytes → S → S
  unfolding string_to_module_buffer
  add_custom_flag flag s = host.add_custom_flag s (string_to_module_buffer nil_data flag)

module _ {S : Type 0} (host : ContinueCallbacks S) where
  unfoldable pub continue_request : S → S
  continue_request s = host.filter_continue_decoding s

  unfoldable pub continue_response : S → S
  continue_response s = host.filter_continue_encoding s
