-- ===== src/Shared/Agreement/AccessLog.antt =====
-- The constants of shared/access_logger.go against the enumerators of abi/abi.h.
use luwes.Base.{◌≡◌, refl}
use luwes.Abi.AccessLog.{
  AccessLogType as CAccessLogType, access_log_type_code as c_access_log_type_code,
}
use luwes.Abi.Common.{
  HttpHeaderType as CHttpHeaderType, http_header_type_code as c_http_header_type_code,
}
use luwes.Shared.AccessLog.{
  AccessLogType, access_log_type_code, HttpHeaderType, http_header_type_code,
}

-- The enumerator that a constant stands for, by its name.
abbrev pub access_log_type_to_abi : AccessLogType → CAccessLogType
access_log_type_to_abi AccessLogType.not_set = CAccessLogType.not_set
access_log_type_to_abi AccessLogType.tcp_upstream_connected = CAccessLogType.tcp_upstream_connected
access_log_type_to_abi AccessLogType.tcp_periodic = CAccessLogType.tcp_periodic
access_log_type_to_abi AccessLogType.tcp_connection_end = CAccessLogType.tcp_connection_end
access_log_type_to_abi AccessLogType.downstream_start = CAccessLogType.downstream_start
access_log_type_to_abi AccessLogType.downstream_periodic = CAccessLogType.downstream_periodic
access_log_type_to_abi AccessLogType.downstream_end = CAccessLogType.downstream_end
access_log_type_to_abi AccessLogType.upstream_pool_ready = CAccessLogType.upstream_pool_ready
access_log_type_to_abi AccessLogType.upstream_periodic = CAccessLogType.upstream_periodic
access_log_type_to_abi AccessLogType.upstream_end = CAccessLogType.upstream_end
access_log_type_to_abi AccessLogType.downstream_tunnel_successfully_established =
    CAccessLogType.downstream_tunnel_successfully_established
access_log_type_to_abi AccessLogType.udp_tunnel_upstream_connected =
    CAccessLogType.udp_tunnel_upstream_connected
access_log_type_to_abi AccessLogType.udp_periodic = CAccessLogType.udp_periodic
access_log_type_to_abi AccessLogType.udp_session_end = CAccessLogType.udp_session_end

pub code-access_log_type_to_abi :
    (v : AccessLogType) → c_access_log_type_code (access_log_type_to_abi v) ≡ access_log_type_code v
unfolding c_access_log_type_code access_log_type_code
code-access_log_type_to_abi AccessLogType.not_set = refl
code-access_log_type_to_abi _ = refl

-- The enumerator that a constant stands for, by its name.
abbrev pub http_header_type_to_abi : HttpHeaderType → CHttpHeaderType
http_header_type_to_abi HttpHeaderType.request = CHttpHeaderType.request_header
http_header_type_to_abi HttpHeaderType.request_trailer = CHttpHeaderType.request_trailer
http_header_type_to_abi HttpHeaderType.response = CHttpHeaderType.response_header
http_header_type_to_abi HttpHeaderType.response_trailer = CHttpHeaderType.response_trailer

pub code-http_header_type_to_abi :
    (v : HttpHeaderType)
    → c_http_header_type_code (http_header_type_to_abi v) ≡ http_header_type_code v
unfolding c_http_header_type_code http_header_type_code
code-http_header_type_to_abi HttpHeaderType.request = refl
code-http_header_type_to_abi _ = refl
