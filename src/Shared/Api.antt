-- ===== src/Shared/Api.antt =====
-- shared/api.go: the constants that cross the C interface, with their numbers.
use luwes.Base.{ℕ}

pub data HeadersStatus : Type 0 where
  continue stop stop_all_and_buffer stop_all_and_watermark : HeadersStatus

unfoldable pub headers_status_code : HeadersStatus → ℕ
headers_status_code HeadersStatus.continue = 0
headers_status_code HeadersStatus.stop = 1
headers_status_code HeadersStatus.stop_all_and_buffer = 3
headers_status_code HeadersStatus.stop_all_and_watermark = 4

pub data BodyStatus : Type 0 where
  continue stop_and_buffer stop_and_watermark stop_no_buffer : BodyStatus

unfoldable pub body_status_code : BodyStatus → ℕ
body_status_code BodyStatus.continue = 0
body_status_code BodyStatus.stop_and_buffer = 1
body_status_code BodyStatus.stop_and_watermark = 2
body_status_code BodyStatus.stop_no_buffer = 3

pub data TrailersStatus : Type 0 where
  continue stop : TrailersStatus

unfoldable pub trailers_status_code : TrailersStatus → ℕ
trailers_status_code TrailersStatus.continue = 0
trailers_status_code TrailersStatus.stop = 1

pub data LocalReplyStatus : Type 0 where
  continue continue_and_reset_stream : LocalReplyStatus

unfoldable pub local_reply_status_code : LocalReplyStatus → ℕ
local_reply_status_code LocalReplyStatus.continue = 0
local_reply_status_code LocalReplyStatus.continue_and_reset_stream = 1
