-- ===== src/Sahl/Filter/Response.antt =====
-- The response side of `sahlFilter`: `OnResponseHeaders` and `OnResponseBody` of sahl/filter.go with
-- what they call in sahl/response.go.
pub mod Chunks
use luwes.Base.{
  ap, ◌∙◌, ◌≡◌, refl, sym, subst, arith, ℕ, Bool, true, false, not, ◌&&◌, Option, none, some, List,
  [], ◌∷◌, ◌++◌, if◌then◌else◌,
}
use luwes.Base.Bytes.{Bytes, ascii}
use luwes.Shared.Api.{HeadersStatus, BodyStatus}
use luwes.Sahl.Host.{HostCall}
use luwes.Sahl.Text.{parse_status}
use luwes.Sahl.Request.{HeaderMap, nonempty}
use luwes.Sahl.Writer.{Writer, Result, Step, ok, panic, ◌>>=◌, run}
use luwes.Sahl.Filter.{Filter, FilterDef, ResponseChunk, ResponseHandlerFunc, empty_chunk, deref}

-- The filter after its response handler, which has left the chunk so, and the calls of the handle.
abbrev pub left_by : Filter → ResponseChunk → Step → Filter × List HostCall
left_by f chunk s =
    (record f { writer = some s.0; resp_state = record f.resp_state { chunk = chunk } }, s.1)

-- The response handler runs on a pointer to the filter's chunk, in which its writes stay.
unfoldable pub respond :
    ResponseHandlerFunc → ResponseChunk → Filter → Result (Filter × List HostCall)
unfolding run
respond fn chunk f =
    deref f.writer >>= λ w. let left = fn w chunk in run left.0 w >>= λ s. ok (left_by f left.1 s)

abbrev pub or_keep : Bytes → Option Bytes → Bytes
or_keep old none = old
or_keep old (some v) = v

abbrev pub or_status : ℕ → Option Bytes → ℕ
or_status old none = old
or_status old (some v) = parse_status v

-- The chunk that `onResponseHeaders` passes.
unfoldable pub headers_chunk : HeaderMap → ResponseChunk → ResponseChunk
unfolding parse_status
headers_chunk hm c = record {
  status_code = or_status c.status_code (nonempty (hm.get_one_into (ascii ":status")));
  content_type = or_keep c.content_type (nonempty (hm.get_one_into (ascii "content-type")));
  response_flags =
      or_keep c.response_flags (nonempty (hm.get_one_into (ascii "x-envoy-response-flags")));
  headers = some hm;
  payload = none;
  end_stream = false;
  context = true;
}

-- `OnResponseHeaders`.
unfoldable pub on_response_headers :
    HeaderMap → Filter → Result (Filter × List HostCall × HeadersStatus)
unfolding respond headers_chunk
on_response_headers hm f = deref f.handler >>= λ def. elim def.response_fn [
  | none ↦ ok (f, [], HeadersStatus.continue)
  | some fn ↦
      let removed =
        if def.mutable_response
        then HostCall.response_remove (ascii "content-length") ∷ []
        else [] in
      respond fn (headers_chunk hm f.resp_state.chunk) f >>= λ s.
      ok (s.0, removed ++ s.1, HeadersStatus.continue)
]

abbrev pub first_chunk : List Bytes → Bytes
first_chunk [] = []
first_chunk (c ∷ chunks) = c

-- The chunk that `onResponseBody` passes: the first of the host's.
unfoldable pub body_chunk : List Bytes → Bool → ResponseChunk → ResponseChunk
body_chunk chunks end_stream c = record c {
  payload = some (first_chunk chunks);
  end_stream = end_stream;
  headers = none;
  context = true;
}

-- `OnResponseBody`.
unfoldable pub on_response_body :
    List Bytes → Bool → Filter → Result (Filter × List HostCall × BodyStatus)
unfolding respond body_chunk
on_response_body chunks end_stream f = deref f.handler >>= λ def.
    let status =
      if def.mutable_response && not end_stream
      then BodyStatus.stop_and_buffer
      else BodyStatus.continue in
    elim def.response_fn [
      | none ↦ ok (f, [], status)
      | some fn ↦ respond fn (body_chunk chunks end_stream f.resp_state.chunk) f >>= λ s.
          ok (s.0, s.1, status)
    ]
