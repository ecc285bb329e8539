-- ===== src/Impl/Handle/Hooks.antt =====
-- The hooks of abi_impl/internal.go on a filter, on the handle that the host's pointer unwraps to. A
-- hook runs at most one piece of the module's code, its invocation; where it runs none it returns 0.
-- What that code does with the handle are further operations, given with the hook or after it.
use luwes.Base.{ℕ, Bool, true, false, Option, none, some, List}
use luwes.Abi.Buffer.{Buffer, HttpHeader}
use luwes.Abi.Common.{HttpCalloutResult, HttpStreamResetReason}
use luwes.Abi.Hooks.{StreamHook, CalloutHook, ScheduledHook, ReplyHook}
use luwes.Impl.GoMap.{find, delete}
use luwes.Impl.Scheduler.{on_scheduled}
use luwes.Impl.Handle.{Reference, DymHeaderMap, DymBodyBuffer, Handle, Operation, operate_all}

-- The methods of a plugin, of the callbacks and the tasks, with the object they are called on.
pub data Invocation : Type 0 where
  on_request_headers : Reference → DymHeaderMap → Bool → Invocation
  on_request_body : Reference → DymBodyBuffer → Bool → Invocation
  on_request_trailers : Reference → DymHeaderMap → Invocation
  on_response_headers : Reference → DymHeaderMap → Bool → Invocation
  on_response_body : Reference → DymBodyBuffer → Bool → Invocation
  on_response_trailers : Reference → DymHeaderMap → Invocation
  on_stream_complete : Reference → Invocation
  on_destroy : Reference → Invocation
  on_local_reply : Reference → ℕ → Buffer → Bool → Invocation
  run_task : Reference → Invocation
  on_http_callout_done :
      Reference → ℕ → HttpCalloutResult → List HttpHeader → List Buffer → Invocation
  on_http_stream_headers : Reference → ℕ → List HttpHeader → Bool → Invocation
  on_http_stream_data : Reference → ℕ → List Buffer → Bool → Invocation
  on_http_stream_trailers : Reference → ℕ → List HttpHeader → Invocation
  on_http_stream_complete : Reference → ℕ → Invocation
  on_http_stream_reset : Reference → ℕ → HttpStreamResetReason → Invocation
  on_above_write_buffer_high_watermark : Reference → Invocation
  on_below_write_buffer_low_watermark : Reference → Invocation

abbrev pub Outcome : Type 0
Outcome = Option Invocation × Handle

-- The plugin's method, unless there is no plugin.
unfoldable pub call_plugin : (Reference → Invocation) → Handle → Option Invocation
call_plugin method h = elim h.plugin [ some p ↦ some (method p) | none ↦ none ]

-- The same for a method on the response, which a local response suppresses.
unfoldable pub call_on_response : (Reference → Invocation) → Handle → Option Invocation
unfolding call_plugin
call_on_response method h = elim h.local_response_sent as (λ _. Option Invocation) [
  | true ↦ none
  | false ↦ call_plugin method h
]

-- `OnDestroy` with the operations that it does; after it the handle is as it returns to the pool.
unfoldable pub destroyed : List Operation → Handle → Outcome
unfolding call_plugin operate_all
destroyed during h = elim h.stream_destoried as (λ _. Outcome) [
  | true ↦ (none, h)
  | false ↦
      let marked = record h { stream_destoried = true } in
      (
        call_plugin Invocation.on_destroy h,
        record (elim h.plugin as (λ _. Handle) [
          | some p ↦ operate_all during marked
          | none ↦ marked
        ]) { plugin = none; scheduler = none },
      )
]

-- The hooks on the stream: the invocation, and the handle before the operations of the invoked
-- method, except those of `OnDestroy`, which are given.
unfoldable pub on_stream_hook : StreamHook → List Operation → Handle → Outcome
unfolding call_plugin call_on_response destroyed
on_stream_hook (StreamHook.request_headers end_of_stream) during h =
    (call_plugin (λ p. Invocation.on_request_headers p h.request_header_map end_of_stream) h, h)
on_stream_hook (StreamHook.request_body end_of_stream) during h =
    (call_plugin (λ p. Invocation.on_request_body p h.received_request_body end_of_stream) h, h)
on_stream_hook StreamHook.request_trailers during h =
    (call_plugin (λ p. Invocation.on_request_trailers p h.request_trailer_map) h, h)
on_stream_hook (StreamHook.response_headers end_of_stream) during h = (
  call_on_response (λ p. Invocation.on_response_headers p h.response_header_map end_of_stream) h,
  h,
)
on_stream_hook (StreamHook.response_body end_of_stream) during h = (
  call_on_response (λ p. Invocation.on_response_body p h.received_response_body end_of_stream) h,
  h,
)
on_stream_hook StreamHook.response_trailers during h =
    (call_on_response (λ p. Invocation.on_response_trailers p h.response_trailer_map) h, h)
on_stream_hook StreamHook.stream_complete during h = elim h.plugin as (λ _. Outcome) [
  | none ↦ (none, h)
  | some p ↦ (some (Invocation.on_stream_complete p), record h { stream_completed = true })
]
on_stream_hook StreamHook.destroy during h = destroyed during h

-- A task of the scheduler, that its map forgets.
unfoldable pub on_scheduled_hook : ScheduledHook → Handle → Outcome
unfolding on_scheduled
on_scheduled_hook (ScheduledHook.scheduled task_id) h = elim h.scheduler as (λ _. Outcome) [
  | none ↦ (none, h)
  | some s ↦ elim h.stream_completed as (λ _. Outcome) [
    | true ↦ (none, h)
    | false ↦ (
      elim (on_scheduled task_id s).0 [ some task ↦ some (Invocation.run_task task) | none ↦ none ],
      record h { scheduler = some (on_scheduled task_id s).1 },
    )
  ]
]

-- The callback of a callout, that its map forgets before it runs.
unfoldable pub callout_done :
    ℕ → HttpCalloutResult → List HttpHeader → List Buffer → Handle → Outcome
unfolding find delete
callout_done callout_id result headers chunks h =
    elim (find callout_id h.callout_callbacks) as (λ _. Outcome) [
      | none ↦ (none, h)
      | some cb ↦ (
        some (Invocation.on_http_callout_done cb callout_id result headers chunks),
        record h { callout_callbacks = delete callout_id h.callout_callbacks },
      )
    ]

-- The callbacks of a stream; at its end its map forgets them before they run.
unfoldable pub stream_event : ℕ → (Reference → Invocation) → Handle → Outcome
unfolding find
stream_event stream_id method h =
    (elim (find stream_id h.stream_callbacks) [ some cb ↦ some (method cb) | none ↦ none ], h)

unfoldable pub stream_end : ℕ → (Reference → Invocation) → Handle → Outcome
unfolding find delete
stream_end stream_id method h = elim (find stream_id h.stream_callbacks) as (λ _. Outcome) [
  | none ↦ (none, h)
  | some cb ↦
      (some (method cb), record h { stream_callbacks = delete stream_id h.stream_callbacks })
]

abbrev on_open_callout_hook : CalloutHook → Handle → Outcome
on_open_callout_hook (CalloutHook.http_callout_done id result headers chunks) h =
    callout_done id result headers chunks h
on_open_callout_hook (CalloutHook.http_stream_headers id headers end_of_stream) h =
    stream_event id (λ cb. Invocation.on_http_stream_headers cb id headers end_of_stream) h
on_open_callout_hook (CalloutHook.http_stream_data id chunks end_of_stream) h =
    stream_event id (λ cb. Invocation.on_http_stream_data cb id chunks end_of_stream) h
on_open_callout_hook (CalloutHook.http_stream_trailers id trailers) h =
    stream_event id (λ cb. Invocation.on_http_stream_trailers cb id trailers) h
on_open_callout_hook (CalloutHook.http_stream_complete id) h =
    stream_end id (λ cb. Invocation.on_http_stream_complete cb id) h
on_open_callout_hook (CalloutHook.http_stream_reset id reason) h =
    stream_end id (λ cb. Invocation.on_http_stream_reset cb id reason) h

-- The hooks on callouts and streams, each with the guard on the completed stream.
unfoldable pub on_callout_hook : CalloutHook → Handle → Outcome
unfolding callout_done stream_event stream_end
on_callout_hook hook h = elim h.stream_completed as (λ _. Outcome) [
  | true ↦ (none, h)
  | false ↦ on_open_callout_hook hook h
]

unfoldable pub call_watermark : (Reference → Invocation) → Handle → Option Invocation
call_watermark method h = elim h.stream_completed as (λ _. Option Invocation) [
  | true ↦ none
  | false ↦ elim h.downstream_watermark_callbacks [ some cbs ↦ some (method cbs) | none ↦ none ]
]

-- The hooks on the downstream's watermarks and on a local reply, which has no such guard.
unfoldable pub on_reply_hook : ReplyHook → Handle → Outcome
unfolding call_watermark call_plugin
on_reply_hook ReplyHook.downstream_above_write_buffer_high_watermark h =
    (call_watermark Invocation.on_above_write_buffer_high_watermark h, h)
on_reply_hook ReplyHook.downstream_below_write_buffer_low_watermark h =
    (call_watermark Invocation.on_below_write_buffer_low_watermark h, h)
on_reply_hook (ReplyHook.local_reply response_code details reset_imminent) h =
    (call_plugin (λ p. Invocation.on_local_reply p response_code details reset_imminent) h, h)
