-- ===== src/Sahl/Filter/Tests.antt =====
-- Streams of a filter, and the theorems on them at concrete handlers.
mod Streams
mod Response
use luwes.Base.{◌≡◌, refl, Bool, true, false, inr, none, some, List, [], ◌∷◌, ◌++◌, arith}
use luwes.Base.Bytes.{Bytes, ascii, bytes_eq}
use luwes.Shared.Api.{HeadersStatus, BodyStatus}
use luwes.Shared.Base.{HttpCalloutInitResult, HttpCalloutResult, HttpStreamResetReason}
use luwes.Sahl.Host.{HostCall, HttpCalloutRequest, HttpStreamRequest, Call, CalloutDone}
use luwes.Sahl.Request.{nonempty, HeaderMap, Request, request_reset, header_reset}
use luwes.Sahl.Writer.{Writer, ok, ◌>>=◌, reset, run, perform, flush}
use luwes.Sahl.Filter.{
  ResponseChunk, Filter, FilterDef, Closures, empty_chunk, new_sahl_filter, on_destroy,
  on_request_headers, on_request_body, on_stream_complete, settle,
}
use luwes.Sahl.Filter.Async.{
  deliver, on_http_stream_data, run_and_flush, on_http_callout_done, goroutine,
  on_http_stream_complete, on_http_stream_reset,
}
use luwes.Sahl.Filter.Verdict.{told}
use luwes.Sahl.Filter.Later.{
  Started, completed_filter, callout_verdict, goroutine_verdict, late_callbacks,
}
use luwes.Sahl.Filter.Metrics.{counted, counters_lem}
use luwes.Sahl.Filter.Reuse.{reuse, HasReturned, request_returns}
use luwes.Sahl.Filter.Streams.{nothing, got_body, is_complete, stream_verdict}
use luwes.Sahl.Text.{parse_status}
use luwes.Sahl.Filter.Body.{BodyDone, on_request_body-BodyDone, mutations_sent_twice}

abbrev no_headers : HeaderMap
no_headers = record { get_one_into = λ key. none; get_all = [] }

abbrev blank_request : Request
blank_request = record {
  header = record { hm = no_headers; cache = [] };
  method = [];
  path = [];
  host = [];
  filter_name = [];
  handle = 0;
}

abbrev blank_writer : Writer
blank_writer = record {
  handle = 0;
  req_muts = [];
  resp_hdr_muts = [];
  meta_muts = [];
  counter_muts = [];
  local_reply_details = [];
  responded = false;
  route_cleared = false;
  local_resp = none;
  go_started = false;
  go_ctx = none;
  callout_started = false;
  callout_fn = none;
  callout_cb = true;
  stream_started = false;
  stream_event_fn = none;
  stream_cb = true;
}

-- A writer and a request that an earlier stream has used.
abbrev used_writer : Writer
used_writer = record blank_writer { responded = true; route_cleared = true; handle = 3 }

abbrev used_request : Request
used_request = record blank_request {
  header = record { hm = no_headers; cache = (ascii "a", ascii "b") ∷ [] };
}

abbrev def_of : Bool → (List Call) → FilterDef
def_of body_aware calls = record {
  handler = some (λ w req. calls);
  response_fn = none;
  body_aware = body_aware;
  mutable_response = false;
}

abbrev filter_of : FilterDef → Filter
filter_of def = record {
  name = ascii "auth";
  handler = some def;
  handle = 7;
  req = none;
  writer = none;
  resp_state = record { chunk = empty_chunk; ctx = none };
  body_done = false;
  stream_done = false;
}

abbrev written_filter : FilterDef → Writer → Filter
written_filter def w = record (filter_of def) {
  req = some (record blank_request { handle = 7; filter_name = ascii "auth" });
  writer = some (record w { handle = 7 });
}

-- A handler that refuses the request.
abbrev refusing : FilterDef
refusing = def_of false (Call.increment_counter 5 1 [] ∷ Call.send_bytes 403 (ascii "no") ∷ [])

-- A handler that asks an authorization service; its callback lets the request go on.
abbrev ask : HttpCalloutRequest
ask = record { cluster = ascii "authz"; headers = []; body = []; timeout_ms = 200 }

abbrev asking : FilterDef
asking = def_of false (Call.http_callout ask HttpCalloutInitResult.success 1 ∷ [])

abbrev asked_call : HostCall
asked_call = HostCall.http_callout (ascii "authz") [] [] 200

abbrev asking_writer : Writer
asking_writer = record blank_writer { handle = 7; callout_started = true; callout_fn = some 1 }

abbrev allowing : Closures
allowing = record {
  on_done = λ fn done w. Call.set_request_header (ascii "x-user") (ascii "u") ∷ [];
  on_event = λ fn event w. [];
}

abbrev answered : CalloutDone
answered = record { result = HttpCalloutResult.success; headers = []; body = [] }

abbrev allowed_writer : Writer
allowed_writer = record asking_writer {
  callout_fn = none;
  req_muts = (ascii "x-user", ascii "u") ∷ [];
}

asking-Started :
    Started no_headers blank_request used_writer
      (filter_of asking)
      (written_filter asking asking_writer)
      (asked_call ∷ [])
      asking_writer
unfolding on_request_headers request_reset header_reset reset run perform settle
asking-Started = ((asking, refl, refl), (HeadersStatus.stop, refl), refl, refl)

callout_done :
    on_http_callout_done allowing answered (written_filter asking asking_writer)
    ≡ ok (
      written_filter asking allowed_writer,
      HostCall.request_set (ascii "x-user") (ascii "u") ∷ HostCall.continue_request ∷ [],
    )
unfolding on_http_callout_done run_and_flush run perform flush
callout_done = refl

callout_verdict_example :
    told (
      (asked_call ∷ [])
      ++ (HostCall.request_set (ascii "x-user") (ascii "u") ∷ HostCall.continue_request ∷ []))
    ≡ 1
callout_verdict_example =
    callout_verdict allowing answered no_headers blank_request used_writer asking_writer
      (filter_of asking) (written_filter asking asking_writer)
      (written_filter asking allowed_writer) 1 (asked_call ∷ [])
      (HostCall.request_set (ascii "x-user") (ascii "u") ∷ HostCall.continue_request ∷ [])
      asking-Started refl refl callout_done

-- A handler that goes on in a goroutine, which refuses the request.
abbrev going : FilterDef
going = def_of false (Call.go ∷ [])

abbrev going_writer : Writer
going_writer = record blank_writer { handle = 7; go_started = true; go_ctx = some false }

abbrev refused_writer : Writer
refused_writer = record going_writer {
  responded = true;
  local_resp = some (record { status_code = 503; headers = []; body = ascii "busy" });
}

abbrev busy : List HostCall
busy = HostCall.send_local_response 503 [] (ascii "busy") ∷ []

going-Started :
    Started no_headers blank_request used_writer
      (filter_of going)
      (written_filter going going_writer)
      []
      going_writer
unfolding on_request_headers request_reset header_reset reset run perform settle
going-Started = ((going, refl, refl), (HeadersStatus.stop, refl), refl, refl)

goroutine_done :
    goroutine (Call.send_bytes 503 (ascii "busy") ∷ []) (written_filter going going_writer)
    ≡ ok (written_filter going refused_writer, busy)
unfolding goroutine run_and_flush run perform flush
goroutine_done = refl

goroutine_verdict_example : told ([] ++ busy) ≡ 1
goroutine_verdict_example =
    goroutine_verdict (Call.send_bytes 503 (ascii "busy") ∷ []) no_headers blank_request used_writer
      going_writer (filter_of going) (written_filter going going_writer)
      (written_filter going refused_writer) [] busy going-Started goroutine_done

late_callbacks_example :
    (on_http_callout_done allowing answered (completed_filter (written_filter asking asking_writer))
      ≡ ok (completed_filter (written_filter asking asking_writer), []))
    × (on_http_stream_complete allowing 9 (completed_filter (written_filter asking asking_writer))
        ≡ ok (completed_filter (written_filter asking asking_writer), []))
    × (on_http_stream_reset allowing 9 HttpStreamResetReason.overflow
          (completed_filter (written_filter asking asking_writer))
        ≡ ok (completed_filter (written_filter asking asking_writer), []))
late_callbacks_example =
    late_callbacks allowing (written_filter asking asking_writer) answered 9
      HttpStreamResetReason.overflow

-- A handler with a counter, of a filter that has a response handler: the host adds 1 twice.
abbrev counting : FilterDef
counting = record (def_of false (Call.increment_counter 5 1 [] ∷ [])) {
  response_fn = some (λ w chunk. ([], chunk));
}

abbrev counting_writer : Writer
counting_writer = record blank_writer {
  handle = 7;
  counter_muts = record { id = 5; n = 1; tags = []; hist = false } ∷ [];
}

counting_done :
    on_request_headers no_headers blank_request used_writer (filter_of counting)
    ≡ ok (
      written_filter counting counting_writer,
      HostCall.increment_counter 5 1 [] ∷ [],
      HeadersStatus.continue,
    )
unfolding on_request_headers request_reset header_reset reset run perform settle flush
counting_done = refl

counters_lem_example :
    counted 5 (
      (HostCall.increment_counter 5 1 [] ∷ [])
      ++ (on_stream_complete (written_filter counting counting_writer)).1)
    ≡ 2
counters_lem_example =
    counters_lem 5 no_headers blank_request used_writer counting_writer (filter_of counting)
      (written_filter counting counting_writer) counting
      (λ w req. Call.increment_counter 5 1 [] ∷ []) (HostCall.increment_counter 5 1 [] ∷ [])
      HeadersStatus.continue refl refl refl counting_done refl refl

reuse_example :
    (new_sahl_filter (ascii "auth") refusing 7 (on_destroy (filter_of asking)).0
      >>= on_request_headers no_headers used_request used_writer)
    ≡ (new_sahl_filter (ascii "auth") refusing 7 (on_destroy (written_filter going going_writer)).0
        >>= on_request_headers no_headers blank_request blank_writer)
reuse_example =
    reuse (ascii "auth") refusing 7 no_headers (filter_of asking)
      (written_filter going going_writer) used_request blank_request used_writer blank_writer

request_returns_example :
    ((g : Filter) × (new_sahl_filter (ascii "tap") counting 7 (on_destroy (filter_of counting)).0
        ≡ ok g))
    × HasReturned (
        new_sahl_filter (ascii "auth") asking 7 (on_destroy (filter_of counting)).0
        >>= on_request_headers no_headers used_request used_writer)
request_returns_example =
    request_returns (ascii "auth") (ascii "tap") asking counting 7 no_headers (filter_of counting)
      used_request used_writer
      (inr (λ w req. Call.http_callout ask HttpCalloutInitResult.success 1 ∷ [], refl, omega arith))

-- A handler that waits for the body, sets a header and goes on in a goroutine.
abbrev waiting : FilterDef
waiting = def_of true (Call.set_request_header (ascii "x-model") (ascii "m") ∷ Call.go ∷ [])

abbrev waiting_writer : Writer
waiting_writer = record blank_writer {
  handle = 7;
  go_started = true;
  go_ctx = some false;
  req_muts = (ascii "x-model", ascii "m") ∷ [];
}

abbrev waiting_filter : Filter
waiting_filter = record (written_filter waiting waiting_writer) { body_done = true }

body_flushed :
    on_request_body true (written_filter waiting blank_writer)
    ≡ ok (
      waiting_filter,
      HostCall.request_set (ascii "x-model") (ascii "m") ∷ [],
      BodyStatus.continue,
    )
unfolding on_request_body run perform flush
body_flushed = refl

on_request_body-BodyDone_example :
    BodyDone (on_request_body true (written_filter waiting blank_writer))
on_request_body-BodyDone_example =
    on_request_body-BodyDone (written_filter waiting blank_writer) waiting
      (record blank_writer { handle = 7 }) refl refl refl refl refl

mutations_sent_twice_example :
    (before : List HostCall) × (HostCall.request_set (ascii "x-model") (ascii "m") ∷ []
      ≡ before ++ flush false waiting_writer)
    × (BodyStatus.continue ≡ BodyStatus.continue)
    × (goroutine [] waiting_filter
        ≡ ok (
          record waiting_filter { writer = some waiting_writer },
          flush false waiting_writer ++ HostCall.continue_request ∷ [],
        ))
mutations_sent_twice_example =
    mutations_sent_twice (written_filter waiting blank_writer) waiting_filter waiting
      (record blank_writer { handle = 7 }) waiting_writer
      (HostCall.request_set (ascii "x-model") (ascii "m") ∷ []) BodyStatus.continue refl refl refl
      refl refl body_flushed refl refl
