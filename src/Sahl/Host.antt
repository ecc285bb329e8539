-- ===== src/Sahl/Host.antt =====
-- What sahl asks of the host, shared/base.go's `HttpFilterHandle`, and what a handler asks of sahl.
-- The calls of a handle are recorded in order: an operation returns the list of its calls.
use luwes.Base.{ℕ, Bool, Option, List}
use luwes.Base.Bytes.{Bytes}
use luwes.Shared.Base.{HttpCalloutInitResult, HttpCalloutResult, HttpStreamResetReason}

abbrev pub Pair : Type 0
Pair = Bytes × Bytes

-- The `any` of `SetMetadata`: the four types that the ABI takes, numbers as their bit patterns.
pub data MetaValue : Type 0 where
  text : Bytes → MetaValue
  int64 : ℕ → MetaValue
  float64 : ℕ → MetaValue
  boolean : Bool → MetaValue

-- The calls of `HttpFilterHandle` that change the stream. `request_set` is `RequestHeaders().Set`,
-- `response_remove` is `Remove` on the response headers, and the last two are on
-- `BufferedResponseBody()`.
pub data HostCall : Type 0 where
  request_set : Bytes → Bytes → HostCall
  set_metadata : Bytes → Bytes → MetaValue → HostCall
  clear_route_cache : HostCall
  increment_counter : ℕ → ℕ → List Bytes → HostCall
  record_histogram : ℕ → ℕ → List Bytes → HostCall
  continue_request : HostCall
  send_local_response : ℕ → List Pair → Bytes → HostCall
  http_callout : Bytes → List Pair → Bytes → ℕ → HostCall
  start_http_stream : Bytes → List Pair → Bytes → Bool → ℕ → HostCall
  response_remove : Bytes → HostCall
  body_drain : ℕ → HostCall
  body_append : Bytes → HostCall

pub record HttpCalloutRequest : Type 0 where
  pub cluster : Bytes
  pub headers : List Pair
  pub body : Bytes
  pub timeout_ms : ℕ

pub record HttpStreamRequest : Type 0 where
  pub cluster : Bytes
  pub headers : List Pair
  pub body : Bytes
  pub end_of_stream : Bool
  pub timeout_ms : ℕ

-- A Go closure that a handler passes to `HTTPCallout` or `HTTPStream`, by its identity: what it
-- does is a parameter of the operations that run it.
abbrev pub Closure : Type 0
Closure = ℕ

-- One use of the `Writer` by a handler, with the host's answer where the method asks for one.
pub data Call : Type 0 where
  send_bytes : ℕ → Bytes → Call
  set_response_header : Bytes → Bytes → Call
  set_request_header : Bytes → Bytes → Call
  set_metadata : Bytes → Bytes → MetaValue → Call
  clear_route_cache : Call
  increment_counter : ℕ → ℕ → List Bytes → Call
  record_histogram : ℕ → ℕ → List Bytes → Call
  go : Call
  http_callout : HttpCalloutRequest → HttpCalloutInitResult → Closure → Call
  http_stream : HttpStreamRequest → HttpCalloutInitResult → Closure → Call
  set_response_body : Option ℕ → Bytes → Call
  append_response_body : Option ℕ → Bytes → Call

-- The arguments of a callout's continuation: the result, the headers and the body chunks.
pub record CalloutDone : Type 0 where
  pub result : HttpCalloutResult
  pub headers : List Pair
  pub body : List Bytes

-- `HTTPStreamEvent`, the sealed interface of sahl/stream.go.
pub data HttpStreamEvent : Type 0 where
  headers : ℕ → List Pair → Bool → HttpStreamEvent
  payload : ℕ → List Bytes → Bool → HttpStreamEvent
  trailers : ℕ → List Pair → HttpStreamEvent
  complete : ℕ → HttpStreamEvent
  reset : ℕ → HttpStreamResetReason → HttpStreamEvent
