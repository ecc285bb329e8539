-- ===== src/Sahl/Filter/Tests/Streams.antt =====
-- A stream that a handler opens, and the theorem on its verdict at it.
use luwes.Base.{◌≡◌, refl, true, false, none, some, [], ◌∷◌, ◌++◌}
use luwes.Base.Bytes.{ascii}
use luwes.Shared.Api.{HeadersStatus}
use luwes.Shared.Base.{HttpCalloutInitResult}
use luwes.Sahl.Host.{HostCall, HttpStreamRequest, Call}
use luwes.Sahl.Request.{request_reset, header_reset}
use luwes.Sahl.Writer.{Writer, ok, reset, run, perform, flush}
use luwes.Sahl.Filter.{FilterDef, Closures, on_request_headers, settle}
use luwes.Sahl.Filter.Async.{deliver, on_http_stream_data, on_http_stream_complete}
use luwes.Sahl.Filter.Verdict.{told}
use luwes.Sahl.Filter.Later.{Started}
use luwes.Sahl.Filter.Streams.{nothing, got_body, is_complete, stream_verdict}
use luwes.Sahl.Filter.Tests.{
  no_headers, blank_request, blank_writer, used_writer, def_of, filter_of, written_filter,
}

-- A handler that opens a stream; its event function answers with what the stream sends.
abbrev upstream : HttpStreamRequest
upstream = record {
  cluster = ascii "up";
  headers = [];
  body = [];
  end_of_stream = true;
  timeout_ms = 0;
}

abbrev streaming : FilterDef
streaming = def_of false (Call.http_stream upstream HttpCalloutInitResult.success 2 ∷ [])

abbrev relaying : Closures
relaying = record {
  on_done = λ fn done w. [];
  on_event = λ fn event w. Call.send_bytes 200 (ascii "hi") ∷ [];
}

abbrev streaming_writer : Writer
streaming_writer = record blank_writer {
  handle = 7;
  stream_started = true;
  stream_event_fn = some 2;
}

abbrev relayed_writer : Writer
relayed_writer = record streaming_writer { responded = true }

abbrev opened : HostCall
opened = HostCall.start_http_stream (ascii "up") [] [] true 0

abbrev relayed : HostCall
relayed = HostCall.send_local_response 200 [] (ascii "hi")

streaming-Started :
    Started no_headers blank_request used_writer
      (filter_of streaming)
      (written_filter streaming streaming_writer)
      (opened ∷ [])
      streaming_writer
unfolding on_request_headers request_reset header_reset reset run perform settle
streaming-Started = ((streaming, refl, refl), (HeadersStatus.stop, refl), refl, refl)

body_relayed :
    on_http_stream_data relaying 9 [] true (written_filter streaming streaming_writer)
    ≡ ok (written_filter streaming relayed_writer, relayed ∷ [])
unfolding on_http_stream_data deliver run perform
body_relayed = refl

stream_done :
    on_http_stream_complete relaying 9 (written_filter streaming relayed_writer)
    ≡ ok (written_filter streaming (record relayed_writer { stream_event_fn = none }), [])
unfolding on_http_stream_complete run perform flush
stream_done = refl

stream_verdict_example : told (((opened ∷ []) ++ (relayed ∷ [])) ++ []) ≡ 1
stream_verdict_example =
    stream_verdict relaying no_headers blank_request used_writer streaming_writer
      (filter_of streaming) (written_filter streaming streaming_writer)
      (written_filter streaming relayed_writer)
      (written_filter streaming (record relayed_writer { stream_event_fn = none })) (opened ∷ [])
      ((opened ∷ []) ++ (relayed ∷ [])) [] streaming-Started
      (got_body 9 [] true nothing body_relayed) (is_complete 9 refl stream_done)
