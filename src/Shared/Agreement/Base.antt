-- ===== src/Shared/Agreement/Base.antt =====
-- The constants of shared/base.go against the enumerators of abi/abi.h.
use luwes.Base.{◌≡◌, refl}
use luwes.Abi.Common.{
  LogLevel as CLogLevel, log_level_code as c_log_level_code,
  HttpCalloutInitResult as CHttpCalloutInitResult,
  http_callout_init_result_code as c_http_callout_init_result_code,
  HttpCalloutResult as CHttpCalloutResult, http_callout_result_code as c_http_callout_result_code,
  MetadataSource as CMetadataSource, metadata_source_code as c_metadata_source_code,
  HttpStreamResetReason as CHttpStreamResetReason,
  http_stream_reset_reason_code as c_http_stream_reset_reason_code,
  SocketOptionState as CSocketOptionState, socket_option_state_code as c_socket_option_state_code,
  SocketDirection as CSocketDirection, socket_direction_code as c_socket_direction_code,
  MetricsResult as CMetricsResult, metrics_result_code as c_metrics_result_code,
}
use luwes.Abi.Http.{
  HttpFilterStreamResetReason as CHttpFilterStreamResetReason,
  http_filter_stream_reset_reason_code as c_http_filter_stream_reset_reason_code,
}
use luwes.Shared.Base.{
  LogLevel, log_level_code, HttpCalloutInitResult, http_callout_init_result_code, HttpCalloutResult,
  http_callout_result_code, MetadataSourceType, metadata_source_type_code, HttpStreamResetReason,
  http_stream_reset_reason_code, HttpFilterStreamResetReason, http_filter_stream_reset_reason_code,
  SocketOptionState, socket_option_state_code, SocketDirection, socket_direction_code,
  MetricsResult, metrics_result_code,
}

-- The enumerator that a constant stands for, by its name.
abbrev pub log_level_to_abi : LogLevel → CLogLevel
log_level_to_abi LogLevel.trace = CLogLevel.trace
log_level_to_abi LogLevel.debug = CLogLevel.debug
log_level_to_abi LogLevel.info = CLogLevel.info
log_level_to_abi LogLevel.warn = CLogLevel.warn
log_level_to_abi LogLevel.error = CLogLevel.error
log_level_to_abi LogLevel.critical = CLogLevel.critical
log_level_to_abi LogLevel.off = CLogLevel.off

pub code-log_level_to_abi :
    (v : LogLevel) → c_log_level_code (log_level_to_abi v) ≡ log_level_code v
unfolding c_log_level_code log_level_code
code-log_level_to_abi LogLevel.trace = refl
code-log_level_to_abi _ = refl

-- The enumerator that a constant stands for, by its name.
abbrev pub http_callout_init_result_to_abi : HttpCalloutInitResult → CHttpCalloutInitResult
http_callout_init_result_to_abi HttpCalloutInitResult.success = CHttpCalloutInitResult.success
http_callout_init_result_to_abi HttpCalloutInitResult.missing_required_headers =
    CHttpCalloutInitResult.missing_required_headers
http_callout_init_result_to_abi HttpCalloutInitResult.cluster_not_found =
    CHttpCalloutInitResult.cluster_not_found
http_callout_init_result_to_abi HttpCalloutInitResult.duplicate_callout_id =
    CHttpCalloutInitResult.duplicate_callout_id
http_callout_init_result_to_abi HttpCalloutInitResult.cannot_create_request =
    CHttpCalloutInitResult.cannot_create_request

pub code-http_callout_init_result_to_abi :
    (v : HttpCalloutInitResult)
    → c_http_callout_init_result_code (http_callout_init_result_to_abi v)
      ≡ http_callout_init_result_code v
unfolding c_http_callout_init_result_code http_callout_init_result_code
code-http_callout_init_result_to_abi HttpCalloutInitResult.success = refl
code-http_callout_init_result_to_abi _ = refl

-- The enumerator that a constant stands for, by its name.
abbrev pub http_callout_result_to_abi : HttpCalloutResult → CHttpCalloutResult
http_callout_result_to_abi HttpCalloutResult.success = CHttpCalloutResult.success
http_callout_result_to_abi HttpCalloutResult.reset = CHttpCalloutResult.reset
http_callout_result_to_abi HttpCalloutResult.exceed_response_buffer_limit =
    CHttpCalloutResult.exceed_response_buffer_limit

pub code-http_callout_result_to_abi :
    (v : HttpCalloutResult)
    → c_http_callout_result_code (http_callout_result_to_abi v) ≡ http_callout_result_code v
unfolding c_http_callout_result_code http_callout_result_code
code-http_callout_result_to_abi HttpCalloutResult.success = refl
code-http_callout_result_to_abi _ = refl

-- The enumerator that a constant stands for, by its name.
abbrev pub metadata_source_type_to_abi : MetadataSourceType → CMetadataSource
metadata_source_type_to_abi MetadataSourceType.dynamic = CMetadataSource.dynamic
metadata_source_type_to_abi MetadataSourceType.route = CMetadataSource.route
metadata_source_type_to_abi MetadataSourceType.cluster = CMetadataSource.cluster
metadata_source_type_to_abi MetadataSourceType.host = CMetadataSource.host
metadata_source_type_to_abi MetadataSourceType.host_locality = CMetadataSource.host_locality

pub code-metadata_source_type_to_abi :
    (v : MetadataSourceType)
    → c_metadata_source_code (metadata_source_type_to_abi v) ≡ metadata_source_type_code v
unfolding c_metadata_source_code metadata_source_type_code
code-metadata_source_type_to_abi MetadataSourceType.dynamic = refl
code-metadata_source_type_to_abi _ = refl

-- The enumerator that a constant stands for, by its name.
abbrev pub http_stream_reset_reason_to_abi : HttpStreamResetReason → CHttpStreamResetReason
http_stream_reset_reason_to_abi HttpStreamResetReason.connection_failure =
    CHttpStreamResetReason.connection_failure
http_stream_reset_reason_to_abi HttpStreamResetReason.connection_termination =
    CHttpStreamResetReason.connection_termination
http_stream_reset_reason_to_abi HttpStreamResetReason.local_reset =
    CHttpStreamResetReason.local_reset
http_stream_reset_reason_to_abi HttpStreamResetReason.local_refused_stream_reset =
    CHttpStreamResetReason.local_refused_stream_reset
http_stream_reset_reason_to_abi HttpStreamResetReason.overflow = CHttpStreamResetReason.overflow
http_stream_reset_reason_to_abi HttpStreamResetReason.remote_reset =
    CHttpStreamResetReason.remote_reset
http_stream_reset_reason_to_abi HttpStreamResetReason.remote_refused_stream_reset =
    CHttpStreamResetReason.remote_refused_stream_reset
http_stream_reset_reason_to_abi HttpStreamResetReason.protocol_error =
    CHttpStreamResetReason.protocol_error

pub code-http_stream_reset_reason_to_abi :
    (v : HttpStreamResetReason)
    → c_http_stream_reset_reason_code (http_stream_reset_reason_to_abi v)
      ≡ http_stream_reset_reason_code v
unfolding c_http_stream_reset_reason_code http_stream_reset_reason_code
code-http_stream_reset_reason_to_abi HttpStreamResetReason.connection_failure = refl
code-http_stream_reset_reason_to_abi _ = refl

-- The enumerator that a constant stands for, by its name.
abbrev pub http_filter_stream_reset_reason_to_abi :
    HttpFilterStreamResetReason → CHttpFilterStreamResetReason
http_filter_stream_reset_reason_to_abi HttpFilterStreamResetReason.local_reset =
    CHttpFilterStreamResetReason.local_reset
http_filter_stream_reset_reason_to_abi HttpFilterStreamResetReason.local_refused_stream_reset =
    CHttpFilterStreamResetReason.local_refused_stream_reset

pub code-http_filter_stream_reset_reason_to_abi :
    (v : HttpFilterStreamResetReason)
    → c_http_filter_stream_reset_reason_code (http_filter_stream_reset_reason_to_abi v)
      ≡ http_filter_stream_reset_reason_code v
unfolding c_http_filter_stream_reset_reason_code http_filter_stream_reset_reason_code
code-http_filter_stream_reset_reason_to_abi HttpFilterStreamResetReason.local_reset = refl
code-http_filter_stream_reset_reason_to_abi _ = refl

-- The enumerator that a constant stands for, by its name.
abbrev pub socket_option_state_to_abi : SocketOptionState → CSocketOptionState
socket_option_state_to_abi SocketOptionState.prebind = CSocketOptionState.prebind
socket_option_state_to_abi SocketOptionState.bound = CSocketOptionState.bound
socket_option_state_to_abi SocketOptionState.listening = CSocketOptionState.listening

pub code-socket_option_state_to_abi :
    (v : SocketOptionState)
    → c_socket_option_state_code (socket_option_state_to_abi v) ≡ socket_option_state_code v
unfolding c_socket_option_state_code socket_option_state_code
code-socket_option_state_to_abi SocketOptionState.prebind = refl
code-socket_option_state_to_abi _ = refl

-- The enumerator that a constant stands for, by its name.
abbrev pub socket_direction_to_abi : SocketDirection → CSocketDirection
socket_direction_to_abi SocketDirection.upstream = CSocketDirection.upstream
socket_direction_to_abi SocketDirection.downstream = CSocketDirection.downstream

pub code-socket_direction_to_abi :
    (v : SocketDirection)
    → c_socket_direction_code (socket_direction_to_abi v) ≡ socket_direction_code v
unfolding c_socket_direction_code socket_direction_code
code-socket_direction_to_abi SocketDirection.upstream = refl
code-socket_direction_to_abi _ = refl

-- The enumerator that a constant stands for, by its name.
abbrev pub metrics_result_to_abi : MetricsResult → CMetricsResult
metrics_result_to_abi MetricsResult.success = CMetricsResult.success
metrics_result_to_abi MetricsResult.not_found = CMetricsResult.metric_not_found
metrics_result_to_abi MetricsResult.invalid_tags = CMetricsResult.invalid_labels
metrics_result_to_abi MetricsResult.frozen = CMetricsResult.frozen

pub code-metrics_result_to_abi :
    (v : MetricsResult) → c_metrics_result_code (metrics_result_to_abi v) ≡ metrics_result_code v
unfolding c_metrics_result_code metrics_result_code
code-metrics_result_to_abi MetricsResult.success = refl
code-metrics_result_to_abi _ = refl
