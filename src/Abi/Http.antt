-- ===== src/Abi/Http.antt =====
-- abi/abi.h: the types of the HTTP filter. An enumeration is a data type with the numbers of its enumerators.
use luwes.Base.{ℕ}

pub data HttpBodyType : Type 0 where
  received_request_body buffered_request_body received_response_body buffered_response_body :
      HttpBodyType

unfoldable pub http_body_type_code : HttpBodyType → ℕ
http_body_type_code HttpBodyType.received_request_body = 0
http_body_type_code HttpBodyType.buffered_request_body = 1
http_body_type_code HttpBodyType.received_response_body = 2
http_body_type_code HttpBodyType.buffered_response_body = 3

pub data OnHttpFilterRequestHeadersStatus : Type 0 where
  continue stop_iteration continue_and_dont_end_stream stop_all_iteration_and_buffer :
      OnHttpFilterRequestHeadersStatus
  stop_all_iteration_and_watermark : OnHttpFilterRequestHeadersStatus

unfoldable pub on_http_filter_request_headers_status_code : OnHttpFilterRequestHeadersStatus → ℕ
on_http_filter_request_headers_status_code OnHttpFilterRequestHeadersStatus.continue = 0
on_http_filter_request_headers_status_code OnHttpFilterRequestHeadersStatus.stop_iteration = 1
on_http_filter_request_headers_status_code
      OnHttpFilterRequestHeadersStatus.continue_and_dont_end_stream =
    2
on_http_filter_request_headers_status_code
      OnHttpFilterRequestHeadersStatus.stop_all_iteration_and_buffer =
    3
on_http_filter_request_headers_status_code
      OnHttpFilterRequestHeadersStatus.stop_all_iteration_and_watermark =
    4

pub data OnHttpFilterRequestBodyStatus : Type 0 where
  continue stop_iteration_and_buffer stop_iteration_and_watermark stop_iteration_no_buffer :
      OnHttpFilterRequestBodyStatus

unfoldable pub on_http_filter_request_body_status_code : OnHttpFilterRequestBodyStatus → ℕ
on_http_filter_request_body_status_code OnHttpFilterRequestBodyStatus.continue = 0
on_http_filter_request_body_status_code OnHttpFilterRequestBodyStatus.stop_iteration_and_buffer = 1
on_http_filter_request_body_status_code OnHttpFilterRequestBodyStatus.stop_iteration_and_watermark =
    2
on_http_filter_request_body_status_code OnHttpFilterRequestBodyStatus.stop_iteration_no_buffer = 3

pub data OnHttpFilterRequestTrailersStatus : Type 0 where
  continue stop_iteration : OnHttpFilterRequestTrailersStatus

unfoldable pub on_http_filter_request_trailers_status_code : OnHttpFilterRequestTrailersStatus → ℕ
on_http_filter_request_trailers_status_code OnHttpFilterRequestTrailersStatus.continue = 0
on_http_filter_request_trailers_status_code OnHttpFilterRequestTrailersStatus.stop_iteration = 1

pub data OnHttpFilterResponseHeadersStatus : Type 0 where
  continue stop_iteration continue_and_dont_end_stream stop_all_iteration_and_buffer :
      OnHttpFilterResponseHeadersStatus
  stop_all_iteration_and_watermark : OnHttpFilterResponseHeadersStatus

unfoldable pub on_http_filter_response_headers_status_code : OnHttpFilterResponseHeadersStatus → ℕ
on_http_filter_response_headers_status_code OnHttpFilterResponseHeadersStatus.continue = 0
on_http_filter_response_headers_status_code OnHttpFilterResponseHeadersStatus.stop_iteration = 1
on_http_filter_response_headers_status_code
      OnHttpFilterResponseHeadersStatus.continue_and_dont_end_stream =
    2
on_http_filter_response_headers_status_code
      OnHttpFilterResponseHeadersStatus.stop_all_iteration_and_buffer =
    3
on_http_filter_response_headers_status_code
      OnHttpFilterResponseHeadersStatus.stop_all_iteration_and_watermark =
    4

pub data OnHttpFilterResponseBodyStatus : Type 0 where
  continue stop_iteration_and_buffer stop_iteration_and_watermark stop_iteration_no_buffer :
      OnHttpFilterResponseBodyStatus

unfoldable pub on_http_filter_response_body_status_code : OnHttpFilterResponseBodyStatus → ℕ
on_http_filter_response_body_status_code OnHttpFilterResponseBodyStatus.continue = 0
on_http_filter_response_body_status_code OnHttpFilterResponseBodyStatus.stop_iteration_and_buffer =
    1
on_http_filter_response_body_status_code
      OnHttpFilterResponseBodyStatus.stop_iteration_and_watermark =
    2
on_http_filter_response_body_status_code OnHttpFilterResponseBodyStatus.stop_iteration_no_buffer = 3

pub data OnHttpFilterResponseTrailersStatus : Type 0 where
  continue stop_iteration : OnHttpFilterResponseTrailersStatus

unfoldable pub on_http_filter_response_trailers_status_code : OnHttpFilterResponseTrailersStatus → ℕ
on_http_filter_response_trailers_status_code OnHttpFilterResponseTrailersStatus.continue = 0
on_http_filter_response_trailers_status_code OnHttpFilterResponseTrailersStatus.stop_iteration = 1

pub data OnHttpFilterLocalReplyStatus : Type 0 where
  continue continue_and_reset_stream : OnHttpFilterLocalReplyStatus

unfoldable pub on_http_filter_local_reply_status_code : OnHttpFilterLocalReplyStatus → ℕ
on_http_filter_local_reply_status_code OnHttpFilterLocalReplyStatus.continue = 0
on_http_filter_local_reply_status_code OnHttpFilterLocalReplyStatus.continue_and_reset_stream = 1

pub data HttpFilterStreamResetReason : Type 0 where
  local_reset local_refused_stream_reset : HttpFilterStreamResetReason

unfoldable pub http_filter_stream_reset_reason_code : HttpFilterStreamResetReason → ℕ
http_filter_stream_reset_reason_code HttpFilterStreamResetReason.local_reset = 0
http_filter_stream_reset_reason_code HttpFilterStreamResetReason.local_refused_stream_reset = 1
