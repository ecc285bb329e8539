-- ===== src/Sahl/Writer.antt =====
-- `Writer` of sahl/writer.go, with its methods in sahl/callout.go and sahl/stream.go. A method
-- returns the writer after the call and the calls of the host's handle that it made.
pub mod Verdict
pub mod Starts
use luwes.Base.{
  ℕ, ◌%◌, ◌^◌, Bool, true, false, Option, none, some, List, [], ◌∷◌, ◌++◌, map, is_some,
  if◌then◌else◌,
}
use luwes.Base.Bytes.{Bytes}
use luwes.Shared.Base.{HttpCalloutInitResult}
use luwes.Sahl.Host.{
  Pair, MetaValue, HostCall, HttpCalloutRequest, HttpStreamRequest, Closure, Call,
}

pub record LocalResponseMut : Type 0 where
  pub status_code : ℕ
  pub headers : List Pair
  pub body : Bytes

pub record MetaMut : Type 0 where
  pub namespace : Bytes
  pub key : Bytes
  pub value : MetaValue

pub record CounterMut : Type 0 where
  pub id : ℕ
  pub n : ℕ
  pub tags : List Bytes
  pub hist : Bool

-- `handle` stands for the identity of the request's handle and `go_ctx` for the context of `Go`
-- with its cancel function: whether it is cancelled. The scheduler is the handle's. The two callback fields are set or not.
pub record Writer : Type 0 where
  pub handle : ℕ
  pub req_muts : List Pair
  pub resp_hdr_muts : List Pair
  pub meta_muts : List MetaMut
  pub counter_muts : List CounterMut
  pub local_reply_details : Bytes
  pub responded : Bool
  pub route_cleared : Bool
  pub local_resp : Option LocalResponseMut
  pub go_started : Bool
  pub go_ctx : Option Bool
  pub callout_started : Bool
  pub callout_fn : Option Closure
  pub callout_cb : Bool
  pub stream_started : Bool
  pub stream_event_fn : Option Closure
  pub stream_cb : Bool

-- The `BUG:` panics of the writer, the filter and the registry, and Go's on a nil pointer or function.
pub data Panic : Type 0 where
  go_twice : Panic
  callout_twice : Panic
  callout_after_go : Panic
  stream_twice : Panic
  stream_after_callout : Panic
  stream_after_go : Panic
  pool_corruption : Panic
  nil_pointer : Panic
  registered_twice : Panic
  nil_handler : Panic

pub data Result {ℓ} (A : Type ℓ) : Type ℓ where
  ok : A → Result A
  panic : Panic → Result A

infixl 5 ◌>>=◌
abbrev pub ◌>>=◌ {ℓ κ} : {A : Type ℓ} {B : Type κ} → Result A → (A → Result B) → Result B
ok a >>= f = f a
panic e >>= f = panic e

abbrev pub Step : Type 0
Step = Writer × List HostCall

-- `reset`: every field is given anew.
unfoldable pub reset : ℕ → Writer → Writer
reset handle w = record {
  handle = handle;
  req_muts = [];
  resp_hdr_muts = [];
  meta_muts = [];
  counter_muts = [];
  local_reply_details = [];
  responded = false;
  route_cleared = false;
  local_resp = none;
  go_started = false;
  go_ctx = none;
  callout_started = false;
  callout_fn = none;
  callout_cb = false;
  stream_started = false;
  stream_event_fn = none;
  stream_cb = false;
}

-- `SendBytes`; `Send` is the same with a string. The status becomes a `uint32`.
unfoldable pub send_bytes : ℕ → Bytes → Writer → Step
send_bytes status_code body w =
    let status = status_code % 2 ^ 32 in
    let w' : Writer = record w { responded = true } in
    let resp : LocalResponseMut = record {
      status_code = status;
      headers = w.resp_hdr_muts;
      body = body;
    } in
    if w.responded
    then (w, [])
    else if w.go_started
    then (record w' { local_resp = some resp }, [])
    else (w', HostCall.send_local_response status w.resp_hdr_muts body ∷ [])

unfoldable pub set_response_header : Bytes → Bytes → Writer → Writer
set_response_header key value w =
    if w.responded then w else record w { resp_hdr_muts = w.resp_hdr_muts ++ (key, value) ∷ [] }

unfoldable pub set_request_header : Bytes → Bytes → Writer → Writer
set_request_header key value w =
    if w.responded then w else record w { req_muts = w.req_muts ++ (key, value) ∷ [] }

unfoldable pub set_metadata : Bytes → Bytes → MetaValue → Writer → Writer
set_metadata namespace key value w =
    let m : MetaMut = record { namespace = namespace; key = key; value = value } in
    if w.responded then w else record w { meta_muts = w.meta_muts ++ m ∷ [] }

unfoldable pub clear_route_cache : Writer → Writer
clear_route_cache w = record w { route_cleared = true }

unfoldable pub increment_counter : ℕ → ℕ → List Bytes → Writer → Writer
increment_counter id n tags w =
    let m : CounterMut = record { id = id; n = n; tags = tags; hist = false } in
    record w { counter_muts = w.counter_muts ++ m ∷ [] }

unfoldable pub record_histogram : ℕ → ℕ → List Bytes → Writer → Writer
record_histogram id n tags w =
    let m : CounterMut = record { id = id; n = n; tags = tags; hist = true } in
    record w { counter_muts = w.counter_muts ++ m ∷ [] }

-- `Go`, on the calling thread: what its goroutine does comes as calls of its own.
unfoldable pub go : Writer → Result Writer
go w =
    if w.go_started
    then panic go_twice
    else ok (record w { go_started = true; go_ctx = some false })

abbrev pub is_init_success : HttpCalloutInitResult → Bool
is_init_success HttpCalloutInitResult.success = true
is_init_success _ = false

-- `HTTPCalloutE`, and `HTTPCallout`, which drops its result. `init` is the host's answer.
unfoldable pub http_callout :
    HttpCalloutRequest → HttpCalloutInitResult → Closure → Writer → Result Step
http_callout req init fn w =
    let call = HostCall.http_callout req.cluster req.headers req.body req.timeout_ms in
    if w.callout_started
    then panic callout_twice
    else if w.go_started
    then panic callout_after_go
    else if is_init_success init
    then ok (record w { callout_fn = some fn; callout_started = true }, call ∷ [])
    else ok (record w { callout_fn = none }, call ∷ [])

-- `HTTPStream`.
unfoldable pub http_stream :
    HttpStreamRequest → HttpCalloutInitResult → Closure → Writer → Result Step
http_stream req init fn w =
    let call =
      HostCall.start_http_stream req.cluster req.headers req.body req.end_of_stream
        req.timeout_ms in
    if w.stream_started
    then panic stream_twice
    else if w.callout_started
    then panic stream_after_callout
    else if w.go_started
    then panic stream_after_go
    else if is_init_success init
    then ok (record w { stream_event_fn = some fn; stream_started = true }, call ∷ [])
    else ok (record w { stream_event_fn = none }, call ∷ [])

-- `SetResponseBody` and `AppendResponseBody`; the option is the size of the buffered body, `none`
-- where the handle has no such body.
unfoldable pub set_response_body : Option ℕ → Bytes → List HostCall
set_response_body none new_body = []
set_response_body (some size) new_body =
    HostCall.body_drain size ∷ HostCall.body_append new_body ∷ []

unfoldable pub append_response_body : Option ℕ → Bytes → List HostCall
append_response_body none bytes = []
append_response_body (some size) bytes = HostCall.body_append bytes ∷ []

-- One use of the writer.
unfoldable pub perform : Call → Writer → Result Step
unfolding send_bytes set_response_header set_request_header set_metadata clear_route_cache
    increment_counter record_histogram go http_callout http_stream set_response_body
    append_response_body
perform (Call.send_bytes status body) w = ok (send_bytes status body w)
perform (Call.set_response_header key value) w = ok (set_response_header key value w, [])
perform (Call.set_request_header key value) w = ok (set_request_header key value w, [])
perform (Call.set_metadata ns key value) w = ok (set_metadata ns key value w, [])
perform Call.clear_route_cache w = ok (clear_route_cache w, [])
perform (Call.increment_counter id n tags) w = ok (increment_counter id n tags w, [])
perform (Call.record_histogram id n tags) w = ok (record_histogram id n tags w, [])
perform Call.go w = go w >>= λ w'. ok (w', [])
perform (Call.http_callout req init fn) w = http_callout req init fn w
perform (Call.http_stream req init fn) w = http_stream req init fn w
perform (Call.set_response_body size body) w = ok (w, set_response_body size body)
perform (Call.append_response_body size bytes) w = ok (w, append_response_body size bytes)

-- What a handler does with the writer, in order.
unfoldable pub run : List Call → Writer → Result Step
unfolding perform
run [] w = ok (w, [])
run (c ∷ calls) w = perform c w >>= λ s. run calls s.0 >>= λ t. ok (t.0, s.1 ++ t.1)

abbrev pub metadata_call : MetaMut → HostCall
metadata_call m = HostCall.set_metadata m.namespace m.key m.value

abbrev pub counter_call : CounterMut → HostCall
counter_call m =
    if m.hist
    then HostCall.record_histogram m.id m.n m.tags
    else HostCall.increment_counter m.id m.n m.tags

abbrev pub header_call : Pair → HostCall
header_call m = HostCall.request_set m.0 m.1

-- `flushResponseMutations`.
unfoldable pub flush_response_mutations : Writer → Step
flush_response_mutations w = (
  record w { meta_muts = []; counter_muts = [] },
  map metadata_call w.meta_muts ++ map counter_call w.counter_muts,
)

-- `flush`: it leaves the writer as it is.
unfoldable pub flush : Bool → Writer → List HostCall
flush continue_req w = elim w.local_resp [
  | some r ↦ HostCall.send_local_response r.status_code r.headers r.body ∷ []
  | none ↦
      if w.responded
      then []
      else map header_call w.req_muts
        ++ map metadata_call w.meta_muts
        ++ (if w.route_cleared then HostCall.clear_route_cache ∷ [] else [])
        ++ map counter_call w.counter_muts
        ++ (if continue_req then HostCall.continue_request ∷ [] else [])
]
