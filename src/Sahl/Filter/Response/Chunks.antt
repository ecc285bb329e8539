-- ===== src/Sahl/Filter/Response/Chunks.antt =====
-- The chunks that the response handler of `sahlFilter` is given: sahl/response.go.
use luwes.Base.{
  ap, ◌∙◌, ◌≡◌, refl, sym, subst, arith, Bool, true, false, not, ◌&&◌, Option, none, some, List, [],
  ◌∷◌, ◌++◌, if◌then◌else◌,
}
use luwes.Base.Bytes.{Bytes, ascii}
use luwes.Shared.Api.{HeadersStatus, BodyStatus}
use luwes.Sahl.Host.{HostCall}
use luwes.Sahl.Request.{HeaderMap, nonempty}
use luwes.Sahl.Writer.{Writer, Result, Step, ok, panic, ◌>>=◌, run}
use luwes.Sahl.Filter.{Filter, FilterDef, ResponseChunk, ResponseHandlerFunc, empty_chunk, deref}
use luwes.Sahl.Filter.Response.{
  respond, left_by, or_keep, or_status, headers_chunk, body_chunk, first_chunk, on_response_headers,
  on_response_body,
}

-- The handler has run once, on the chunk: its calls give what the host gets and the writer after
-- it, and the chunk is kept as the handler leaves it.
abbrev pub Ran : ResponseHandlerFunc → ResponseChunk → Filter → Filter → List HostCall → Type 0
Ran fn chunk f f' log =
    (w : Writer) × (s : Step) × (f.writer ≡ some w)
    × (run (fn w chunk).0 w ≡ ok s)
    × (f'.writer ≡ some s.0)
    × (log ≡ s.1)
    × (f'.resp_state.chunk ≡ (fn w chunk).1)

-- The chunk of the headers call.
abbrev pub ShowsHeaders : HeaderMap → ResponseChunk → Type 0
ShowsHeaders hm c =
    (c.status_code ≡ or_status 0 (nonempty (hm.get_one_into (ascii ":status"))))
    × (c.content_type ≡ or_keep [] (nonempty (hm.get_one_into (ascii "content-type"))))
    × (c.response_flags ≡ or_keep [] (nonempty (hm.get_one_into (ascii "x-envoy-response-flags"))))
    × (c.headers ≡ some hm)
    × (c.payload ≡ none)
    × (c.end_stream ≡ false)
    × (c.context ≡ true)

-- The chunk of a body call, after a chunk that the handler has left.
abbrev pub ShowsBody : List Bytes → Bool → ResponseChunk → ResponseChunk → Type 0
ShowsBody chunks end_stream left c =
    (c.status_code ≡ left.status_code)
    × (c.content_type ≡ left.content_type)
    × (c.response_flags ≡ left.response_flags)
    × (c.headers ≡ none)
    × (c.payload ≡ some (first_chunk chunks))
    × (c.end_stream ≡ end_stream)
    × (c.context ≡ true)

headers_chunk-ShowsHeaders :
    (hm : HeaderMap) (c : ResponseChunk) → c ≡ empty_chunk → ShowsHeaders hm (headers_chunk hm c)
unfolding headers_chunk
headers_chunk-ShowsHeaders hm c blank = (
  ap (λ c. or_status c.status_code (nonempty (hm.get_one_into (ascii ":status")))) blank,
  ap (λ c. or_keep c.content_type (nonempty (hm.get_one_into (ascii "content-type")))) blank,
  ap (λ c. or_keep c.response_flags (nonempty (hm.get_one_into (ascii "x-envoy-response-flags"))))
      blank,
  refl,
  refl,
  refl,
  refl,
)

body_chunk-ShowsBody :
    (chunks : List Bytes) (end_stream : Bool) (c : ResponseChunk)
    → ShowsBody chunks end_stream c (body_chunk chunks end_stream c)
unfolding body_chunk
body_chunk-ShowsBody chunks end_stream c = (refl, refl, refl, refl, refl, refl, refl)

-- What a callback comes to whose handler runs on a chunk, with the calls made before and the status.
abbrev Called {ℓ} :
    {S : Type ℓ}
    → ResponseHandlerFunc
    → ResponseChunk
    → Filter
    → List HostCall
    → S
    → Result (Filter × List HostCall × S)
    → Type ℓ
Called fn c f before st (panic p) = Unit
Called fn c f before st (ok (f', log, st')) =
    (made : List HostCall) × (log ≡ before ++ made)
    × Ran fn c f f' made
    × (f'.handler ≡ f.handler)
    × (st' ≡ st)

-- The end of `respond`, by the outcome of the handler's calls.
ran-Called {ℓ} :
    {S : Type ℓ} (fn : ResponseHandlerFunc) (c : ResponseChunk) (f : Filter) (w : Writer)
    (r : Result Step) (before : List HostCall) (st : S)
    → f.writer ≡ some w
    → run (fn w c).0 w ≡ r
    → Called fn c f before st
        ((r >>= λ s. ok (left_by f (fn w c).1 s)) >>= λ s. ok (s.0, before ++ s.1, st))
ran-Called fn c f w (panic p) before st e q = tt
ran-Called fn c f w (ok s) before st e q = (s.1, refl, (w, s, e, q, refl, refl, refl), refl, refl)

with_writer-Called {ℓ} :
    {S : Type ℓ} (fn : ResponseHandlerFunc) (c : ResponseChunk) (f : Filter) (w : Option Writer)
    (before : List HostCall) (st : S)
    → f.writer ≡ w
    → Called fn c f before st (
        (deref w >>= λ w. run (fn w c).0 w >>= λ s. ok (left_by f (fn w c).1 s)) >>= λ s.
        ok (s.0, before ++ s.1, st))
with_writer-Called fn c f none before st e = tt
with_writer-Called fn c f (some w) before st e =
    ran-Called fn c f w (run (fn w c).0 w) before st e refl

respond-Called {ℓ} :
    {S : Type ℓ} (fn : ResponseHandlerFunc) (c : ResponseChunk) (f : Filter)
    (before : List HostCall) (st : S)
    → Called fn c f before st (respond fn c f >>= λ s. ok (s.0, before ++ s.1, st))
unfolding respond
respond-Called fn c f before st = with_writer-Called fn c f f.writer before st refl

-- What `OnResponseHeaders` takes away before the handler runs, and what `OnResponseBody` answers.
abbrev pub removed_length : FilterDef → List HostCall
removed_length def =
    if def.mutable_response then HostCall.response_remove (ascii "content-length") ∷ [] else []

abbrev pub body_status : FilterDef → Bool → BodyStatus
body_status def end_stream =
    if def.mutable_response && not end_stream
    then BodyStatus.stop_and_buffer
    else BodyStatus.continue

module _ (f : Filter) (def : FilterDef) (fn : ResponseHandlerFunc) (e : f.handler ≡ some def)
    (r : def.response_fn ≡ some fn) where
  headers_run :
      (hm : HeaderMap)
      → on_response_headers hm f ≡ (
          respond fn (headers_chunk hm f.resp_state.chunk) f >>= λ s.
          ok (s.0, removed_length def ++ s.1, HeadersStatus.continue))
  unfolding on_response_headers
  headers_run hm = ground (arith, e, r)

  body_run :
      (chunks : List Bytes) (end_stream : Bool)
      → on_response_body chunks end_stream f ≡ (
          respond fn (body_chunk chunks end_stream f.resp_state.chunk) f >>= λ s.
          ok (s.0, s.1, body_status def end_stream))
  unfolding on_response_body
  body_run chunks end_stream = ground (arith, e, r)

  headers-Called :
      (hm : HeaderMap)
      → Called fn
          (headers_chunk hm f.resp_state.chunk)
          f
          (removed_length def)
          HeadersStatus.continue
          (on_response_headers hm f)
  headers-Called hm =
      let c = headers_chunk hm f.resp_state.chunk in
      subst (Called fn c f (removed_length def) HeadersStatus.continue) (sym (headers_run hm))
        (respond-Called fn c f (removed_length def) HeadersStatus.continue)

  body-Called :
      (chunks : List Bytes) (end_stream : Bool)
      → Called fn
          (body_chunk chunks end_stream f.resp_state.chunk)
          f
          []
          (body_status def end_stream)
          (on_response_body chunks end_stream f)
  body-Called chunks end_stream =
      let c = body_chunk chunks end_stream f.resp_state.chunk in
      subst (Called fn c f [] (body_status def end_stream)) (sym (body_run chunks end_stream))
        (respond-Called fn c f [] (body_status def end_stream))

-- A response on a filter with a response handler and nothing kept of another response: if its
-- headers and then a body event return, the handler has run once in each. On the headers it is given
-- their status (0 without one), content type and flags, the headers and no data; on the body event
-- it is given the status, content type and flags that it has left in the chunk of the headers call,
-- no headers, the end flag of the event and as data the first of the host's chunks, whatever chunks
-- follow. What it does to the writer and to the chunk is what is kept and what the host gets, after
-- the removal of content-length if the filter may change responses; such a filter alone stops and
-- buffers, before the end.
pub response_chunk :
    (hm : HeaderMap) (chunks : List Bytes) (end_stream : Bool) (f f1 f2 : Filter) (def : FilterDef)
    (fn : ResponseHandlerFunc) (log log' : List HostCall) (st : HeadersStatus) (st' : BodyStatus)
    → f.handler ≡ some def
    → def.response_fn ≡ some fn
    → f.resp_state.chunk ≡ empty_chunk
    → on_response_headers hm f ≡ ok (f1, log, st)
    → on_response_body chunks end_stream f1 ≡ ok (f2, log', st')
    → (given : ResponseChunk) × (given' : ResponseChunk) × (calls : List HostCall) × ShowsHeaders hm
        given
      × Ran fn given f f1 calls
      × (log ≡ removed_length def ++ calls)
      × (st ≡ HeadersStatus.continue)
      × ShowsBody chunks end_stream f1.resp_state.chunk given'
      × Ran fn given' f1 f2 log'
      × (st' ≡ body_status def end_stream)
response_chunk hm chunks end_stream f f1 f2 def fn log log' st st' e r blank run1 run2 =
    let given = headers_chunk hm f.resp_state.chunk in
    let given' = body_chunk chunks end_stream f1.resp_state.chunk in
    let (calls, logged, ran, kept, status) =
      subst (Called fn given f (removed_length def) HeadersStatus.continue) run1
        (headers-Called f def fn e r hm) in
    let (calls', logged', ran', kept', status') =
      subst (Called fn given' f1 [] (body_status def end_stream)) run2
        (body-Called f1 def fn (kept ∙ e) r chunks end_stream) in
    (
      given,
      given',
      calls,
      headers_chunk-ShowsHeaders hm f.resp_state.chunk blank,
      ran,
      logged,
      status,
      body_chunk-ShowsBody chunks end_stream f1.resp_state.chunk,
      subst (Ran fn given' f1 f2) (sym logged') ran',
      status',
    )
