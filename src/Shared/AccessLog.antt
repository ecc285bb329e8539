-- ===== src/Shared/AccessLog.antt =====
-- shared/access_logger.go: the constants that cross the C interface, with their numbers.
use luwes.Base.{ℕ}

pub data AccessLogType : Type 0 where
  not_set tcp_upstream_connected tcp_periodic tcp_connection_end downstream_start : AccessLogType
  downstream_periodic downstream_end upstream_pool_ready upstream_periodic upstream_end :
      AccessLogType
  downstream_tunnel_successfully_established udp_tunnel_upstream_connected udp_periodic :
      AccessLogType
  udp_session_end : AccessLogType

unfoldable pub access_log_type_code : AccessLogType → ℕ
access_log_type_code AccessLogType.not_set = 0
access_log_type_code AccessLogType.tcp_upstream_connected = 1
access_log_type_code AccessLogType.tcp_periodic = 2
access_log_type_code AccessLogType.tcp_connection_end = 3
access_log_type_code AccessLogType.downstream_start = 4
access_log_type_code AccessLogType.downstream_periodic = 5
access_log_type_code AccessLogType.downstream_end = 6
access_log_type_code AccessLogType.upstream_pool_ready = 7
access_log_type_code AccessLogType.upstream_periodic = 8
access_log_type_code AccessLogType.upstream_end = 9
access_log_type_code AccessLogType.downstream_tunnel_successfully_established = 10
access_log_type_code AccessLogType.udp_tunnel_upstream_connected = 11
access_log_type_code AccessLogType.udp_periodic = 12
access_log_type_code AccessLogType.udp_session_end = 13

pub data HttpHeaderType : Type 0 where
  request request_trailer response response_trailer : HttpHeaderType

unfoldable pub http_header_type_code : HttpHeaderType → ℕ
http_header_type_code HttpHeaderType.request = 0
http_header_type_code HttpHeaderType.request_trailer = 1
http_header_type_code HttpHeaderType.response = 2
http_header_type_code HttpHeaderType.response_trailer = 3
