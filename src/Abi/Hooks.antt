-- ===== src/Abi/Hooks.antt =====
-- abi/abi.h: the event hooks of an HTTP filter, one constructor for each with the arguments behind
-- the pointers to the filter, which the module's state stands for.
use luwes.Base.{ℕ, Bool, List}
use luwes.Abi.Buffer.{Buffer, HttpHeader}
use luwes.Abi.Common.{HttpCalloutResult, HttpStreamResetReason}

-- The hooks on the request, the response and the end of the stream.
pub data StreamHook : Type 0 where
  request_headers : (end_of_stream : Bool) → StreamHook
  request_body : (end_of_stream : Bool) → StreamHook
  request_trailers : StreamHook
  response_headers : (end_of_stream : Bool) → StreamHook
  response_body : (end_of_stream : Bool) → StreamHook
  response_trailers : StreamHook
  stream_complete : StreamHook
  destroy : StreamHook

-- The hooks on the callouts and streams that a filter has started.
pub data CalloutHook : Type 0 where
  http_callout_done :
      (callout_id : ℕ) (result : HttpCalloutResult) (headers : List HttpHeader)
      (body_chunks : List Buffer)
      → CalloutHook
  http_stream_headers :
      (stream_id : ℕ) (headers : List HttpHeader) (end_stream : Bool) → CalloutHook
  http_stream_data : (stream_id : ℕ) (chunks : List Buffer) (end_stream : Bool) → CalloutHook
  http_stream_trailers : (stream_id : ℕ) (trailers : List HttpHeader) → CalloutHook
  http_stream_complete : (stream_id : ℕ) → CalloutHook
  http_stream_reset : (stream_id : ℕ) (reason : HttpStreamResetReason) → CalloutHook

-- A committed event comes back on the filter's thread.
pub data ScheduledHook : Type 0 where
  scheduled : (event_id : ℕ) → ScheduledHook

-- The hooks on the downstream's buffer and on local replies.
pub data ReplyHook : Type 0 where
  downstream_above_write_buffer_high_watermark : ReplyHook
  downstream_below_write_buffer_low_watermark : ReplyHook
  local_reply : (response_code : ℕ) (details : Buffer) (reset_imminent : Bool) → ReplyHook

-- The hooks on the events, callouts and streams of a filter's configuration.
pub data ConfigHook : Type 0 where
  config_scheduled : (event_id : ℕ) → ConfigHook
  config_http_callout_done :
      (callout_id : ℕ) (result : HttpCalloutResult) (headers : List HttpHeader)
      (body_chunks : List Buffer)
      → ConfigHook
  config_http_stream_headers :
      (stream_id : ℕ) (headers : List HttpHeader) (end_stream : Bool) → ConfigHook
  config_http_stream_data : (stream_id : ℕ) (chunks : List Buffer) (end_stream : Bool) → ConfigHook
  config_http_stream_trailers : (stream_id : ℕ) (trailers : List HttpHeader) → ConfigHook
  config_http_stream_complete : (stream_id : ℕ) → ConfigHook
  config_http_stream_reset : (stream_id : ℕ) (reason : HttpStreamResetReason) → ConfigHook
