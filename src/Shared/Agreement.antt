-- ===== src/Shared/Agreement.antt =====
-- The Go constants have the numbers of the C enumerators. Values cross the interface by a plain
-- conversion, so this is what makes them mean the same on both sides.
pub mod Base
pub mod Attribute
pub mod Api
pub mod Network
pub mod AccessLog
use luwes.Base.{ℕ, ◌≡◌}
use luwes.Abi.Common.{
  log_level_code as c_log_level_code,
  http_callout_init_result_code as c_http_callout_init_result_code,
  http_callout_result_code as c_http_callout_result_code,
  metadata_source_code as c_metadata_source_code,
  http_stream_reset_reason_code as c_http_stream_reset_reason_code,
  socket_option_state_code as c_socket_option_state_code,
  socket_direction_code as c_socket_direction_code, metrics_result_code as c_metrics_result_code,
  socket_option_value_type_code as c_socket_option_value_type_code,
  http_header_type_code as c_http_header_type_code,
}
use luwes.Abi.Http.{
  http_filter_stream_reset_reason_code as c_http_filter_stream_reset_reason_code,
  on_http_filter_request_headers_status_code as c_on_http_filter_request_headers_status_code,
  on_http_filter_response_headers_status_code as c_on_http_filter_response_headers_status_code,
  on_http_filter_request_body_status_code as c_on_http_filter_request_body_status_code,
  on_http_filter_response_body_status_code as c_on_http_filter_response_body_status_code,
  on_http_filter_request_trailers_status_code as c_on_http_filter_request_trailers_status_code,
  on_http_filter_response_trailers_status_code as c_on_http_filter_response_trailers_status_code,
  on_http_filter_local_reply_status_code as c_on_http_filter_local_reply_status_code,
}
use luwes.Abi.Attribute.{attribute_id_code as c_attribute_id_code}
use luwes.Abi.Network.{
  on_network_filter_data_status_code as c_on_network_filter_data_status_code,
  network_connection_close_type_code as c_network_connection_close_type_code,
  network_connection_event_code as c_network_connection_event_code,
  network_connection_state_code as c_network_connection_state_code,
  network_read_disable_status_code as c_network_read_disable_status_code,
}
use luwes.Abi.AccessLog.{access_log_type_code as c_access_log_type_code}
use luwes.Shared.Base.{
  LogLevel, log_level_code, HttpCalloutInitResult, http_callout_init_result_code, HttpCalloutResult,
  http_callout_result_code, MetadataSourceType, metadata_source_type_code, HttpStreamResetReason,
  http_stream_reset_reason_code, HttpFilterStreamResetReason, http_filter_stream_reset_reason_code,
  SocketOptionState, socket_option_state_code, SocketDirection, socket_direction_code,
  MetricsResult, metrics_result_code,
}
use luwes.Shared.Attribute.{AttributeId, attribute_id_code}
use luwes.Shared.Api.{
  HeadersStatus, headers_status_code, BodyStatus, body_status_code, TrailersStatus,
  trailers_status_code, LocalReplyStatus, local_reply_status_code,
}
use luwes.Shared.Network.{
  SocketOptionValueType, socket_option_value_type_code, NetworkFilterStatus,
  network_filter_status_code, NetworkConnectionCloseType, network_connection_close_type_code,
  NetworkConnectionEvent, network_connection_event_code, NetworkConnectionState,
  network_connection_state_code, NetworkReadDisableStatus, network_read_disable_status_code,
}
use luwes.Shared.AccessLog.{
  AccessLogType, access_log_type_code, HttpHeaderType, http_header_type_code,
}
use Base.{
  log_level_to_abi, code-log_level_to_abi, http_callout_init_result_to_abi,
  code-http_callout_init_result_to_abi, http_callout_result_to_abi, code-http_callout_result_to_abi,
  metadata_source_type_to_abi, code-metadata_source_type_to_abi, http_stream_reset_reason_to_abi,
  code-http_stream_reset_reason_to_abi, http_filter_stream_reset_reason_to_abi,
  code-http_filter_stream_reset_reason_to_abi, socket_option_state_to_abi,
  code-socket_option_state_to_abi, socket_direction_to_abi, code-socket_direction_to_abi,
  metrics_result_to_abi, code-metrics_result_to_abi,
}
use Attribute.{attribute_id_to_abi, code-attribute_id_to_abi}
use Api.{
  headers_status_to_request_headers_status, code-headers_status_to_request_headers_status,
  headers_status_to_response_headers_status, code-headers_status_to_response_headers_status,
  body_status_to_request_body_status, code-body_status_to_request_body_status,
  body_status_to_response_body_status, code-body_status_to_response_body_status,
  trailers_status_to_request_trailers_status, code-trailers_status_to_request_trailers_status,
  trailers_status_to_response_trailers_status, code-trailers_status_to_response_trailers_status,
  local_reply_status_to_abi, code-local_reply_status_to_abi,
}
use Network.{
  socket_option_value_type_to_abi, code-socket_option_value_type_to_abi,
  network_filter_status_to_abi, code-network_filter_status_to_abi,
  network_connection_close_type_to_abi, code-network_connection_close_type_to_abi,
  network_connection_event_to_abi, code-network_connection_event_to_abi,
  network_connection_state_to_abi, code-network_connection_state_to_abi,
  network_read_disable_status_to_abi, code-network_read_disable_status_to_abi,
}
use AccessLog.{
  access_log_type_to_abi, code-access_log_type_to_abi, http_header_type_to_abi,
  code-http_header_type_to_abi,
}

-- A constant of the SDK, under the enumeration of abi.h as which it crosses the interface.
pub data Constant : Type 0 where
  log_level : LogLevel → Constant
  http_callout_init_result : HttpCalloutInitResult → Constant
  http_callout_result : HttpCalloutResult → Constant
  metadata_source : MetadataSourceType → Constant
  http_stream_reset_reason : HttpStreamResetReason → Constant
  http_filter_stream_reset_reason : HttpFilterStreamResetReason → Constant
  socket_option_state : SocketOptionState → Constant
  socket_direction : SocketDirection → Constant
  metrics_result : MetricsResult → Constant
  attribute_id : AttributeId → Constant
  request_headers_status : HeadersStatus → Constant
  response_headers_status : HeadersStatus → Constant
  request_body_status : BodyStatus → Constant
  response_body_status : BodyStatus → Constant
  request_trailers_status : TrailersStatus → Constant
  response_trailers_status : TrailersStatus → Constant
  local_reply_status : LocalReplyStatus → Constant
  socket_option_value_type : SocketOptionValueType → Constant
  network_data_status : NetworkFilterStatus → Constant
  network_connection_close_type : NetworkConnectionCloseType → Constant
  network_connection_event : NetworkConnectionEvent → Constant
  network_connection_state : NetworkConnectionState → Constant
  network_read_disable_status : NetworkReadDisableStatus → Constant
  access_log_type : AccessLogType → Constant
  http_header_type : HttpHeaderType → Constant

-- The number of the constant in Go, and of the enumerator of the same name in C.
abbrev pub go_number : Constant → ℕ
go_number (log_level v) = log_level_code v
go_number (http_callout_init_result v) = http_callout_init_result_code v
go_number (http_callout_result v) = http_callout_result_code v
go_number (metadata_source v) = metadata_source_type_code v
go_number (http_stream_reset_reason v) = http_stream_reset_reason_code v
go_number (http_filter_stream_reset_reason v) = http_filter_stream_reset_reason_code v
go_number (socket_option_state v) = socket_option_state_code v
go_number (socket_direction v) = socket_direction_code v
go_number (metrics_result v) = metrics_result_code v
go_number (attribute_id v) = attribute_id_code v
go_number (request_headers_status v) = headers_status_code v
go_number (response_headers_status v) = headers_status_code v
go_number (request_body_status v) = body_status_code v
go_number (response_body_status v) = body_status_code v
go_number (request_trailers_status v) = trailers_status_code v
go_number (response_trailers_status v) = trailers_status_code v
go_number (local_reply_status v) = local_reply_status_code v
go_number (socket_option_value_type v) = socket_option_value_type_code v
go_number (network_data_status v) = network_filter_status_code v
go_number (network_connection_close_type v) = network_connection_close_type_code v
go_number (network_connection_event v) = network_connection_event_code v
go_number (network_connection_state v) = network_connection_state_code v
go_number (network_read_disable_status v) = network_read_disable_status_code v
go_number (access_log_type v) = access_log_type_code v
go_number (http_header_type v) = http_header_type_code v

abbrev pub abi_number : Constant → ℕ
abi_number (log_level v) = c_log_level_code (log_level_to_abi v)
abi_number (http_callout_init_result v) =
    c_http_callout_init_result_code (http_callout_init_result_to_abi v)
abi_number (http_callout_result v) = c_http_callout_result_code (http_callout_result_to_abi v)
abi_number (metadata_source v) = c_metadata_source_code (metadata_source_type_to_abi v)
abi_number (http_stream_reset_reason v) =
    c_http_stream_reset_reason_code (http_stream_reset_reason_to_abi v)
abi_number (http_filter_stream_reset_reason v) =
    c_http_filter_stream_reset_reason_code (http_filter_stream_reset_reason_to_abi v)
abi_number (socket_option_state v) = c_socket_option_state_code (socket_option_state_to_abi v)
abi_number (socket_direction v) = c_socket_direction_code (socket_direction_to_abi v)
abi_number (metrics_result v) = c_metrics_result_code (metrics_result_to_abi v)
abi_number (attribute_id v) = c_attribute_id_code (attribute_id_to_abi v)
abi_number (request_headers_status v) =
    c_on_http_filter_request_headers_status_code (headers_status_to_request_headers_status v)
abi_number (response_headers_status v) =
    c_on_http_filter_response_headers_status_code (headers_status_to_response_headers_status v)
abi_number (request_body_status v) =
    c_on_http_filter_request_body_status_code (body_status_to_request_body_status v)
abi_number (response_body_status v) =
    c_on_http_filter_response_body_status_code (body_status_to_response_body_status v)
abi_number (request_trailers_status v) =
    c_on_http_filter_request_trailers_status_code (trailers_status_to_request_trailers_status v)
abi_number (response_trailers_status v) =
    c_on_http_filter_response_trailers_status_code (trailers_status_to_response_trailers_status v)
abi_number (local_reply_status v) =
    c_on_http_filter_local_reply_status_code (local_reply_status_to_abi v)
abi_number (socket_option_value_type v) =
    c_socket_option_value_type_code (socket_option_value_type_to_abi v)
abi_number (network_data_status v) =
    c_on_network_filter_data_status_code (network_filter_status_to_abi v)
abi_number (network_connection_close_type v) =
    c_network_connection_close_type_code (network_connection_close_type_to_abi v)
abi_number (network_connection_event v) =
    c_network_connection_event_code (network_connection_event_to_abi v)
abi_number (network_connection_state v) =
    c_network_connection_state_code (network_connection_state_to_abi v)
abi_number (network_read_disable_status v) =
    c_network_read_disable_status_code (network_read_disable_status_to_abi v)
abi_number (access_log_type v) = c_access_log_type_code (access_log_type_to_abi v)
abi_number (http_header_type v) = c_http_header_type_code (http_header_type_to_abi v)

-- Every constant of the SDK that crosses the C interface has the number of the enumerator of
-- abi/abi.h that it is named after.
pub numbers_agree : (c : Constant) → abi_number c ≡ go_number c
numbers_agree (log_level v) = code-log_level_to_abi v
numbers_agree (http_callout_init_result v) = code-http_callout_init_result_to_abi v
numbers_agree (http_callout_result v) = code-http_callout_result_to_abi v
numbers_agree (metadata_source v) = code-metadata_source_type_to_abi v
numbers_agree (http_stream_reset_reason v) = code-http_stream_reset_reason_to_abi v
numbers_agree (http_filter_stream_reset_reason v) = code-http_filter_stream_reset_reason_to_abi v
numbers_agree (socket_option_state v) = code-socket_option_state_to_abi v
numbers_agree (socket_direction v) = code-socket_direction_to_abi v
numbers_agree (metrics_result v) = code-metrics_result_to_abi v
numbers_agree (attribute_id v) = code-attribute_id_to_abi v
numbers_agree (request_headers_status v) = code-headers_status_to_request_headers_status v
numbers_agree (response_headers_status v) = code-headers_status_to_response_headers_status v
numbers_agree (request_body_status v) = code-body_status_to_request_body_status v
numbers_agree (response_body_status v) = code-body_status_to_response_body_status v
numbers_agree (request_trailers_status v) = code-trailers_status_to_request_trailers_status v
numbers_agree (response_trailers_status v) = code-trailers_status_to_response_trailers_status v
numbers_agree (local_reply_status v) = code-local_reply_status_to_abi v
numbers_agree (socket_option_value_type v) = code-socket_option_value_type_to_abi v
numbers_agree (network_data_status v) = code-network_filter_status_to_abi v
numbers_agree (network_connection_close_type v) = code-network_connection_close_type_to_abi v
numbers_agree (network_connection_event v) = code-network_connection_event_to_abi v
numbers_agree (network_connection_state v) = code-network_connection_state_to_abi v
numbers_agree (network_read_disable_status v) = code-network_read_disable_status_to_abi v
numbers_agree (access_log_type v) = code-access_log_type_to_abi v
numbers_agree (http_header_type v) = code-http_header_type_to_abi v
