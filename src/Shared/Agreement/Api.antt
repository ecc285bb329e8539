-- ===== src/Shared/Agreement/Api.antt =====
-- The constants of shared/api.go against the enumerators of abi/abi.h.
use luwes.Base.{◌≡◌, refl}
use luwes.Abi.Http.{
  OnHttpFilterRequestHeadersStatus as COnHttpFilterRequestHeadersStatus,
  on_http_filter_request_headers_status_code as c_on_http_filter_request_headers_status_code,
  OnHttpFilterResponseHeadersStatus as COnHttpFilterResponseHeadersStatus,
  on_http_filter_response_headers_status_code as c_on_http_filter_response_headers_status_code,
  OnHttpFilterRequestBodyStatus as COnHttpFilterRequestBodyStatus,
  on_http_filter_request_body_status_code as c_on_http_filter_request_body_status_code,
  OnHttpFilterResponseBodyStatus as COnHttpFilterResponseBodyStatus,
  on_http_filter_response_body_status_code as c_on_http_filter_response_body_status_code,
  OnHttpFilterRequestTrailersStatus as COnHttpFilterRequestTrailersStatus,
  on_http_filter_request_trailers_status_code as c_on_http_filter_request_trailers_status_code,
  OnHttpFilterResponseTrailersStatus as COnHttpFilterResponseTrailersStatus,
  on_http_filter_response_trailers_status_code as c_on_http_filter_response_trailers_status_code,
  OnHttpFilterLocalReplyStatus as COnHttpFilterLocalReplyStatus,
  on_http_filter_local_reply_status_code as c_on_http_filter_local_reply_status_code,
}
use luwes.Shared.Api.{
  HeadersStatus, headers_status_code, BodyStatus, body_status_code, TrailersStatus,
  trailers_status_code, LocalReplyStatus, local_reply_status_code,
}

-- The enumerator that a constant stands for, by its name.
abbrev pub headers_status_to_request_headers_status :
    HeadersStatus → COnHttpFilterRequestHeadersStatus
headers_status_to_request_headers_status HeadersStatus.continue =
    COnHttpFilterRequestHeadersStatus.continue
headers_status_to_request_headers_status HeadersStatus.stop =
    COnHttpFilterRequestHeadersStatus.stop_iteration
headers_status_to_request_headers_status HeadersStatus.stop_all_and_buffer =
    COnHttpFilterRequestHeadersStatus.stop_all_iteration_and_buffer
headers_status_to_request_headers_status HeadersStatus.stop_all_and_watermark =
    COnHttpFilterRequestHeadersStatus.stop_all_iteration_and_watermark

pub code-headers_status_to_request_headers_status :
    (v : HeadersStatus)
    → c_on_http_filter_request_headers_status_code (headers_status_to_request_headers_status v)
      ≡ headers_status_code v
unfolding c_on_http_filter_request_headers_status_code headers_status_code
code-headers_status_to_request_headers_status HeadersStatus.continue = refl
code-headers_status_to_request_headers_status _ = refl

-- The enumerator that a constant stands for, by its name.
abbrev pub headers_status_to_response_headers_status :
    HeadersStatus → COnHttpFilterResponseHeadersStatus
headers_status_to_response_headers_status HeadersStatus.continue =
    COnHttpFilterResponseHeadersStatus.continue
headers_status_to_response_headers_status HeadersStatus.stop =
    COnHttpFilterResponseHeadersStatus.stop_iteration
headers_status_to_response_headers_status HeadersStatus.stop_all_and_buffer =
    COnHttpFilterResponseHeadersStatus.stop_all_iteration_and_buffer
headers_status_to_response_headers_status HeadersStatus.stop_all_and_watermark =
    COnHttpFilterResponseHeadersStatus.stop_all_iteration_and_watermark

pub code-headers_status_to_response_headers_status :
    (v : HeadersStatus)
    → c_on_http_filter_response_headers_status_code (headers_status_to_response_headers_status v)
      ≡ headers_status_code v
unfolding c_on_http_filter_response_headers_status_code headers_status_code
code-headers_status_to_response_headers_status HeadersStatus.continue = refl
code-headers_status_to_response_headers_status _ = refl

-- The enumerator that a constant stands for, by its name.
abbrev pub body_status_to_request_body_status : BodyStatus → COnHttpFilterRequestBodyStatus
body_status_to_request_body_status BodyStatus.continue = COnHttpFilterRequestBodyStatus.continue
body_status_to_request_body_status BodyStatus.stop_and_buffer =
    COnHttpFilterRequestBodyStatus.stop_iteration_and_buffer
body_status_to_request_body_status BodyStatus.stop_and_watermark =
    COnHttpFilterRequestBodyStatus.stop_iteration_and_watermark
body_status_to_request_body_status BodyStatus.stop_no_buffer =
    COnHttpFilterRequestBodyStatus.stop_iteration_no_buffer

pub code-body_status_to_request_body_status :
    (v : BodyStatus)
    → c_on_http_filter_request_body_status_code (body_status_to_request_body_status v)
      ≡ body_status_code v
unfolding c_on_http_filter_request_body_status_code body_status_code
code-body_status_to_request_body_status BodyStatus.continue = refl
code-body_status_to_request_body_status _ = refl

-- The enumerator that a constant stands for, by its name.
abbrev pub body_status_to_response_body_status : BodyStatus → COnHttpFilterResponseBodyStatus
body_status_to_response_body_status BodyStatus.continue = COnHttpFilterResponseBodyStatus.continue
body_status_to_response_body_status BodyStatus.stop_and_buffer =
    COnHttpFilterResponseBodyStatus.stop_iteration_and_buffer
body_status_to_response_body_status BodyStatus.stop_and_watermark =
    COnHttpFilterResponseBodyStatus.stop_iteration_and_watermark
body_status_to_response_body_status BodyStatus.stop_no_buffer =
    COnHttpFilterResponseBodyStatus.stop_iteration_no_buffer

pub code-body_status_to_response_body_status :
    (v : BodyStatus)
    → c_on_http_filter_response_body_status_code (body_status_to_response_body_status v)
      ≡ body_status_code v
unfolding c_on_http_filter_response_body_status_code body_status_code
code-body_status_to_response_body_status BodyStatus.continue = refl
code-body_status_to_response_body_status _ = refl

-- The enumerator that a constant stands for, by its name.
abbrev pub trailers_status_to_request_trailers_status :
    TrailersStatus → COnHttpFilterRequestTrailersStatus
trailers_status_to_request_trailers_status TrailersStatus.continue =
    COnHttpFilterRequestTrailersStatus.continue
trailers_status_to_request_trailers_status TrailersStatus.stop =
    COnHttpFilterRequestTrailersStatus.stop_iteration

pub code-trailers_status_to_request_trailers_status :
    (v : TrailersStatus)
    → c_on_http_filter_request_trailers_status_code (trailers_status_to_request_trailers_status v)
      ≡ trailers_status_code v
unfolding c_on_http_filter_request_trailers_status_code trailers_status_code
code-trailers_status_to_request_trailers_status TrailersStatus.continue = refl
code-trailers_status_to_request_trailers_status _ = refl

-- The enumerator that a constant stands for, by its name.
abbrev pub trailers_status_to_response_trailers_status :
    TrailersStatus → COnHttpFilterResponseTrailersStatus
trailers_status_to_response_trailers_status TrailersStatus.continue =
    COnHttpFilterResponseTrailersStatus.continue
trailers_status_to_response_trailers_status TrailersStatus.stop =
    COnHttpFilterResponseTrailersStatus.stop_iteration

pub code-trailers_status_to_response_trailers_status :
    (v : TrailersStatus)
    → c_on_http_filter_response_trailers_status_code (trailers_status_to_response_trailers_status v)
      ≡ trailers_status_code v
unfolding c_on_http_filter_response_trailers_status_code trailers_status_code
code-trailers_status_to_response_trailers_status TrailersStatus.continue = refl
code-trailers_status_to_response_trailers_status _ = refl

-- The enumerator that a constant stands for, by its name.
abbrev pub local_reply_status_to_abi : LocalReplyStatus → COnHttpFilterLocalReplyStatus
local_reply_status_to_abi LocalReplyStatus.continue = COnHttpFilterLocalReplyStatus.continue
local_reply_status_to_abi LocalReplyStatus.continue_and_reset_stream =
    COnHttpFilterLocalReplyStatus.continue_and_reset_stream

pub code-local_reply_status_to_abi :
    (v : LocalReplyStatus)
    → c_on_http_filter_local_reply_status_code (local_reply_status_to_abi v)
      ≡ local_reply_status_code v
unfolding c_on_http_filter_local_reply_status_code local_reply_status_code
code-local_reply_status_to_abi LocalReplyStatus.continue = refl
code-local_reply_status_to_abi _ = refl
