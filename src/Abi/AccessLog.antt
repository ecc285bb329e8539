-- ===== src/Abi/AccessLog.antt =====
-- abi/abi.h: the types of the access logger. An enumeration is a data type with the numbers of its enumerators.
use luwes.Base.{ℕ}

pub data AccessLogType : Type 0 where
  not_set tcp_upstream_connected tcp_periodic tcp_connection_end downstream_start : AccessLogType
  downstream_periodic downstream_end upstream_pool_ready upstream_periodic upstream_end :
      AccessLogType
  downstream_tunnel_successfully_established udp_tunnel_upstream_connected udp_periodic :
      AccessLogType
  udp_session_end : AccessLogType

unfoldable pub access_log_type_code : AccessLogType → ℕ
access_log_type_code AccessLogType.not_set = 0
access_log_type_code AccessLogType.tcp_upstream_connected = 1
access_log_type_code AccessLogType.tcp_periodic = 2
access_log_type_code AccessLogType.tcp_connection_end = 3
access_log_type_code AccessLogType.downstream_start = 4
access_log_type_code AccessLogType.downstream_periodic = 5
access_log_type_code AccessLogType.downstream_end = 6
access_log_type_code AccessLogType.upstream_pool_ready = 7
access_log_type_code AccessLogType.upstream_periodic = 8
access_log_type_code AccessLogType.upstream_end = 9
access_log_type_code AccessLogType.downstream_tunnel_successfully_established = 10
access_log_type_code AccessLogType.udp_tunnel_upstream_connected = 11
access_log_type_code AccessLogType.udp_periodic = 12
access_log_type_code AccessLogType.udp_session_end = 13

pub data ResponseFlag : Type 0 where
  failed_local_health_check no_healthy_upstream upstream_request_timeout local_reset : ResponseFlag
  upstream_remote_reset upstream_connection_failure upstream_connection_termination : ResponseFlag
  upstream_overflow no_route_found delay_injected fault_injected rate_limited : ResponseFlag
  unauthorized_external_service rate_limit_service_error downstream_connection_termination :
      ResponseFlag
  upstream_retry_limit_exceeded stream_idle_timeout invalid_envoy_request_headers : ResponseFlag
  downstream_protocol_error upstream_max_stream_duration_reached response_from_cache_filter :
      ResponseFlag
  no_filter_config_found duration_timeout upstream_protocol_error no_cluster_found : ResponseFlag
  overload_manager dns_resolution_failed drop_over_load downstream_remote_reset : ResponseFlag
  unconditional_drop_overload : ResponseFlag

unfoldable pub response_flag_code : ResponseFlag → ℕ
response_flag_code ResponseFlag.failed_local_health_check = 0
response_flag_code ResponseFlag.no_healthy_upstream = 1
response_flag_code ResponseFlag.upstream_request_timeout = 2
response_flag_code ResponseFlag.local_reset = 3
response_flag_code ResponseFlag.upstream_remote_reset = 4
response_flag_code ResponseFlag.upstream_connection_failure = 5
response_flag_code ResponseFlag.upstream_connection_termination = 6
response_flag_code ResponseFlag.upstream_overflow = 7
response_flag_code ResponseFlag.no_route_found = 8
response_flag_code ResponseFlag.delay_injected = 9
response_flag_code ResponseFlag.fault_injected = 10
response_flag_code ResponseFlag.rate_limited = 11
response_flag_code ResponseFlag.unauthorized_external_service = 12
response_flag_code ResponseFlag.rate_limit_service_error = 13
response_flag_code ResponseFlag.downstream_connection_termination = 14
response_flag_code ResponseFlag.upstream_retry_limit_exceeded = 15
response_flag_code ResponseFlag.stream_idle_timeout = 16
response_flag_code ResponseFlag.invalid_envoy_request_headers = 17
response_flag_code ResponseFlag.downstream_protocol_error = 18
response_flag_code ResponseFlag.upstream_max_stream_duration_reached = 19
response_flag_code ResponseFlag.response_from_cache_filter = 20
response_flag_code ResponseFlag.no_filter_config_found = 21
response_flag_code ResponseFlag.duration_timeout = 22
response_flag_code ResponseFlag.upstream_protocol_error = 23
response_flag_code ResponseFlag.no_cluster_found = 24
response_flag_code ResponseFlag.overload_manager = 25
response_flag_code ResponseFlag.dns_resolution_failed = 26
response_flag_code ResponseFlag.drop_over_load = 27
response_flag_code ResponseFlag.downstream_remote_reset = 28
response_flag_code ResponseFlag.unconditional_drop_overload = 29
