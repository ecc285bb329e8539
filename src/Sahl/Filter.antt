-- ===== src/Sahl/Filter.antt =====
-- `sahlFilter` of sahl/filter.go, with its types of sahl/response.go. A callback of the host
-- returns the filter after it, the calls of the handle that it made, and its status.
pub mod Async
pub mod Verdict
pub mod Metrics
pub mod Later
pub mod Response
pub mod Body
pub mod Streams
pub mod Reuse
mod Tests
use luwes.Base.{
  ℕ, ◌≡◌, Bool, true, false, not, ◌&&◌, ◌||◌, Option, none, some, List, [], ◌∷◌, ◌++◌, is_some,
  if◌then◌else◌,
}
use luwes.Base.Bytes.{Bytes, ascii}
use luwes.Shared.Api.{HeadersStatus, BodyStatus}
use luwes.Sahl.Host.{HostCall, Closure, Call, CalloutDone, HttpStreamEvent}
use luwes.Sahl.Text.{parse_status}
use luwes.Sahl.Request.{HeaderMap, Request, request_reset, nonempty}
use luwes.Sahl.Writer.{
  Writer, Result, Step, ok, panic, pool_corruption, nil_pointer, ◌>>=◌, reset, run, flush,
  flush_response_mutations,
}

-- What a handler does with the writer is the list of its calls; one that is given a nil writer or
-- request is taken to use it.
abbrev pub HandlerFunc : Type 0
HandlerFunc = Writer → Request → List Call

-- `ResponseChunk`; `context` says whether it points at the filter's slot.
pub record ResponseChunk : Type 0 where
  pub status_code : ℕ
  pub content_type : Bytes
  pub response_flags : Bytes
  pub headers : Option HeaderMap
  pub payload : Option Bytes
  pub end_stream : Bool
  pub context : Bool

-- What a response handler does: its calls on the writer, and the chunk as it leaves it. The source
-- passes `*ResponseChunk`, through which the handler may write.
abbrev pub ResponseHandlerFunc : Type 0
ResponseHandlerFunc = Writer → ResponseChunk → List Call × ResponseChunk

-- The part of `filterDef` that a filter uses.
pub record FilterDef : Type 0 where
  pub handler : Option HandlerFunc
  pub response_fn : Option ResponseHandlerFunc
  pub body_aware : Bool
  pub mutable_response : Bool

-- `responseState`; the slot holds a handle on what the response handler keeps.
pub record ResponseState : Type 0 where
  pub chunk : ResponseChunk
  pub ctx : Option ℕ

abbrev pub empty_chunk : ResponseChunk
empty_chunk = record {
  status_code = 0;
  content_type = [];
  response_flags = [];
  headers = none;
  payload = none;
  end_stream = false;
  context = false;
}

pub record Filter : Type 0 where
  pub name : Bytes
  pub handler : Option FilterDef
  pub handle : ℕ
  pub req : Option Request
  pub writer : Option Writer
  pub resp_state : ResponseState
  pub body_done : Bool
  pub stream_done : Bool

-- What the closures that handlers pass to `HTTPCallout` and `HTTPStream` do.
pub record Closures : Type 0 where
  pub on_done : Closure → CalloutDone → Writer → List Call
  pub on_event : Closure → HttpStreamEvent → Writer → List Call

abbrev pub deref {ℓ} : {A : Type ℓ} → Option A → Result A
deref none = panic nil_pointer
deref (some a) = ok a

-- `newSahlFilter`, on a filter from the pool: a filter that still has its definition panics.
unfoldable pub new_sahl_filter : Bytes → FilterDef → ℕ → Filter → Result Filter
new_sahl_filter name def handle f =
    if is_some f.handler
    then panic pool_corruption
    else ok (record f {
      name = name;
      handler = some def;
      handle = handle;
      body_done = false;
      stream_done = false;
    })

-- The end of `OnRequestHeaders`, after the handler has run.
unfoldable pub settle : Filter → Step → Result (Filter × List HostCall × HeadersStatus)
unfolding flush
settle f s =
    let f' : Filter = record f { writer = some s.0 } in
    if s.0.go_started || s.0.callout_started || s.0.stream_started
    then ok (f', s.1, HeadersStatus.stop)
    else if not s.0.responded
    then ok (f', s.1 ++ flush false s.0, HeadersStatus.continue)
    else ok (f', s.1, HeadersStatus.stop)

-- `OnRequestHeaders`. The request and the writer come from their pools.
unfoldable pub on_request_headers :
    HeaderMap → Request → Writer → Filter → Result (Filter × List HostCall × HeadersStatus)
unfolding request_reset reset run settle
on_request_headers headers pooled_req pooled_writer f =
    let req = request_reset headers f.handle f.name pooled_req in
    let w : Writer = record (reset f.handle pooled_writer) {
      callout_cb = true;
      stream_cb = true;
    } in
    let f' : Filter = record f { req = some req; writer = some w } in
    deref f.handler >>= λ def.
    if def.body_aware
    then ok (f', [], HeadersStatus.stop_all_and_buffer)
    else deref def.handler >>= λ h. run (h w req) w >>= settle f'

-- `OnRequestBody`.
unfoldable pub on_request_body : Bool → Filter → Result (Filter × List HostCall × BodyStatus)
unfolding run flush
on_request_body end_stream f =
    let f' : Filter = if end_stream then record f { body_done = true } else f in
    deref f.handler >>= λ def.
    if def.body_aware && end_stream
    then (deref f.writer >>= λ w. deref f.req >>= λ req. deref def.handler >>= λ h.
        run (h w req) w >>= λ s.
        let f'' : Filter = record f' { writer = some s.0 } in
        if not s.0.responded
        then ok (f'', s.1 ++ flush false s.0, BodyStatus.continue)
        else ok (f'', s.1, BodyStatus.continue))
    else if def.body_aware
    then ok (f', [], BodyStatus.stop_and_buffer)
    else ok (f', [], BodyStatus.continue)

-- `OnLocalReply`, with the details' bytes.
unfoldable pub on_local_reply : Bytes → Filter → Filter
on_local_reply [] f = f
on_local_reply (c ∷ details) f = elim f.writer [
  | none ↦ f
  | some w ↦ record f { writer = some (record w { local_reply_details = c ∷ details }) }
]

abbrev cancel : Option Bool → Option Bool
cancel none = none
cancel (some c) = some true

abbrev pub completed : Bool → Writer → Writer × List HostCall
completed true w = flush_response_mutations w
completed false w = (w, [])

abbrev pub has_response : Option FilterDef → Bool
has_response none = false
has_response (some def) = is_some def.response_fn

-- `OnStreamComplete`.
unfoldable pub on_stream_complete : Filter → Filter × List HostCall
unfolding flush_response_mutations
on_stream_complete f =
    let f' : Filter = record f { stream_done = true } in
    elim f.writer [
      | none ↦ (f', [])
      | some w ↦
          let s = completed (has_response f.handler) w in
          (record f' { writer = some (record (s.0) { go_ctx = cancel w.go_ctx }) }, s.1)
    ]

-- `OnDestroy`: the filter that goes back to its pool, and the request and writer that go to theirs.
unfoldable pub on_destroy : Filter → Filter × Option Request × Option Writer
on_destroy f = (
  record f {
    req = none;
    writer = none;
    resp_state = record { chunk = empty_chunk; ctx = none };
    handler = none;
  },
  f.req,
  f.writer,
)
