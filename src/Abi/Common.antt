-- ===== src/Abi/Common.antt =====
-- abi/abi.h: the types that all filters share. An enumeration is a data type with the numbers of its enumerators.
use luwes.Base.{ℕ}

pub data HttpHeaderType : Type 0 where
  request_header request_trailer response_header response_trailer : HttpHeaderType

unfoldable pub http_header_type_code : HttpHeaderType → ℕ
http_header_type_code HttpHeaderType.request_header = 0
http_header_type_code HttpHeaderType.request_trailer = 1
http_header_type_code HttpHeaderType.response_header = 2
http_header_type_code HttpHeaderType.response_trailer = 3

pub data LogLevel : Type 0 where
  trace debug info warn error critical off : LogLevel

unfoldable pub log_level_code : LogLevel → ℕ
log_level_code LogLevel.trace = 0
log_level_code LogLevel.debug = 1
log_level_code LogLevel.info = 2
log_level_code LogLevel.warn = 3
log_level_code LogLevel.error = 4
log_level_code LogLevel.critical = 5
log_level_code LogLevel.off = 6

pub data HttpCalloutInitResult : Type 0 where
  success missing_required_headers cluster_not_found duplicate_callout_id cannot_create_request :
      HttpCalloutInitResult

unfoldable pub http_callout_init_result_code : HttpCalloutInitResult → ℕ
http_callout_init_result_code HttpCalloutInitResult.success = 0
http_callout_init_result_code HttpCalloutInitResult.missing_required_headers = 1
http_callout_init_result_code HttpCalloutInitResult.cluster_not_found = 2
http_callout_init_result_code HttpCalloutInitResult.duplicate_callout_id = 3
http_callout_init_result_code HttpCalloutInitResult.cannot_create_request = 4

pub data HttpCalloutResult : Type 0 where
  success reset exceed_response_buffer_limit : HttpCalloutResult

unfoldable pub http_callout_result_code : HttpCalloutResult → ℕ
http_callout_result_code HttpCalloutResult.success = 0
http_callout_result_code HttpCalloutResult.reset = 1
http_callout_result_code HttpCalloutResult.exceed_response_buffer_limit = 2

pub data HttpStreamResetReason : Type 0 where
  connection_failure connection_termination local_reset local_refused_stream_reset overflow :
      HttpStreamResetReason
  remote_reset remote_refused_stream_reset protocol_error : HttpStreamResetReason

unfoldable pub http_stream_reset_reason_code : HttpStreamResetReason → ℕ
http_stream_reset_reason_code HttpStreamResetReason.connection_failure = 0
http_stream_reset_reason_code HttpStreamResetReason.connection_termination = 1
http_stream_reset_reason_code HttpStreamResetReason.local_reset = 2
http_stream_reset_reason_code HttpStreamResetReason.local_refused_stream_reset = 3
http_stream_reset_reason_code HttpStreamResetReason.overflow = 4
http_stream_reset_reason_code HttpStreamResetReason.remote_reset = 5
http_stream_reset_reason_code HttpStreamResetReason.remote_refused_stream_reset = 6
http_stream_reset_reason_code HttpStreamResetReason.protocol_error = 7

pub data MetricsResult : Type 0 where
  success metric_not_found invalid_labels frozen : MetricsResult

unfoldable pub metrics_result_code : MetricsResult → ℕ
metrics_result_code MetricsResult.success = 0
metrics_result_code MetricsResult.metric_not_found = 1
metrics_result_code MetricsResult.invalid_labels = 2
metrics_result_code MetricsResult.frozen = 3

pub data MetadataSource : Type 0 where
  dynamic route cluster host host_locality : MetadataSource

unfoldable pub metadata_source_code : MetadataSource → ℕ
metadata_source_code MetadataSource.dynamic = 0
metadata_source_code MetadataSource.route = 1
metadata_source_code MetadataSource.cluster = 2
metadata_source_code MetadataSource.host = 3
metadata_source_code MetadataSource.host_locality = 4

pub data SocketOptionState : Type 0 where
  prebind bound listening : SocketOptionState

unfoldable pub socket_option_state_code : SocketOptionState → ℕ
socket_option_state_code SocketOptionState.prebind = 0
socket_option_state_code SocketOptionState.bound = 1
socket_option_state_code SocketOptionState.listening = 2

pub data SocketOptionValueType : Type 0 where
  int bytes : SocketOptionValueType

unfoldable pub socket_option_value_type_code : SocketOptionValueType → ℕ
socket_option_value_type_code SocketOptionValueType.int = 0
socket_option_value_type_code SocketOptionValueType.bytes = 1

pub data AddressType : Type 0 where
  unknown ip pipe envoy_internal : AddressType

unfoldable pub address_type_code : AddressType → ℕ
address_type_code AddressType.unknown = 0
address_type_code AddressType.ip = 1
address_type_code AddressType.pipe = 2
address_type_code AddressType.envoy_internal = 3

pub data SocketDirection : Type 0 where
  upstream downstream : SocketDirection

unfoldable pub socket_direction_code : SocketDirection → ℕ
socket_direction_code SocketDirection.upstream = 0
socket_direction_code SocketDirection.downstream = 1
