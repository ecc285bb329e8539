-- ===== src/Sahl/Filter/Tests/Response.antt =====
-- A response that a filter taps, and the theorem on its chunks at it.
use luwes.Base.{if◌then◌else◌, ◌≡◌, refl, true, false, none, some, List, [], ◌∷◌, ◌++◌}
use luwes.Base.Bytes.{Bytes, ascii, bytes_eq}
use luwes.Shared.Api.{HeadersStatus, BodyStatus}
use luwes.Sahl.Host.{HostCall, Call}
use luwes.Sahl.Request.{HeaderMap}
use luwes.Sahl.Writer.{CounterMut, ok, run, perform}
use luwes.Sahl.Filter.{ResponseChunk, ResponseHandlerFunc, Filter, FilterDef, empty_chunk}
use luwes.Sahl.Filter.Response.{
  on_response_headers, on_response_body, respond, headers_chunk, body_chunk,
}
use luwes.Sahl.Filter.Response.Chunks.{
  ShowsHeaders, ShowsBody, Ran, removed_length, body_status, response_chunk,
}
use luwes.Sahl.Filter.Tests.{blank_writer, written_filter, def_of}

-- A response with status 503 and two chunks at once: the handler sees the first.
abbrev failing : HeaderMap
failing = record {
  get_one_into = λ key. if bytes_eq key (ascii ":status") then some (ascii "503") else none;
  get_all = (ascii ":status", ascii "503") ∷ [];
}

abbrev two_chunks : List Bytes
two_chunks = ascii "ab" ∷ ascii "cd" ∷ []

-- A handler that counts, and takes the status out of the chunk.
abbrev tap : ResponseHandlerFunc
tap w chunk = (Call.increment_counter 5 1 [] ∷ [], record chunk { status_code = 0 })

abbrev tapper : FilterDef
tapper = record (def_of false []) { response_fn = some tap; mutable_response = true }

abbrev tapped : ResponseChunk
tapped = record empty_chunk { headers = some failing; context = true }

abbrev tapped_body : ResponseChunk
tapped_body = record tapped { headers = none; payload = some (ascii "ab"); end_stream = true }

abbrev one_count : CounterMut
one_count = record { id = 5; n = 1; tags = []; hist = false }

abbrev tapping : List CounterMut → ResponseChunk → Filter
tapping muts c = record (written_filter tapper (record blank_writer { counter_muts = muts })) {
  resp_state = record { chunk = c; ctx = none };
}

headers_tapped :
    on_response_headers failing (tapping [] empty_chunk)
    ≡ ok (
      tapping (one_count ∷ []) tapped,
      HostCall.response_remove (ascii "content-length") ∷ [],
      HeadersStatus.continue,
    )
unfolding on_response_headers respond run perform headers_chunk bytes_eq
headers_tapped = refl

body_tapped :
    on_response_body two_chunks true (tapping (one_count ∷ []) tapped)
    ≡ ok (tapping (one_count ∷ one_count ∷ []) tapped_body, [], BodyStatus.continue)
unfolding on_response_body respond run perform body_chunk
body_tapped = refl

response_chunk_example :
    (given : ResponseChunk) × (given' : ResponseChunk) × (calls : List HostCall) × ShowsHeaders
      failing given
    × Ran tap given (tapping [] empty_chunk) (tapping (one_count ∷ []) tapped) calls
    × (HostCall.response_remove (ascii "content-length") ∷ [] ≡ removed_length tapper ++ calls)
    × (HeadersStatus.continue ≡ HeadersStatus.continue)
    × ShowsBody two_chunks true tapped given'
    × Ran tap given'
        (tapping (one_count ∷ []) tapped)
        (tapping (one_count ∷ one_count ∷ []) tapped_body)
        []
    × (BodyStatus.continue ≡ body_status tapper true)
response_chunk_example =
    response_chunk failing two_chunks true (tapping [] empty_chunk)
      (tapping (one_count ∷ []) tapped) (tapping (one_count ∷ one_count ∷ []) tapped_body) tapper
      tap (HostCall.response_remove (ascii "content-length") ∷ []) [] HeadersStatus.continue
      BodyStatus.continue refl refl refl headers_tapped body_tapped
