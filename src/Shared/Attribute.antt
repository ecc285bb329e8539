-- ===== src/Shared/Attribute.antt =====
-- shared/base.go: the constants that cross the C interface, with their numbers.
use luwes.Base.{ℕ}

pub data AttributeId : Type 0 where
  request_path request_url_path request_host request_scheme request_method request_headers :
      AttributeId
  request_referer request_user_agent request_time request_id request_protocol request_query :
      AttributeId
  request_duration request_size request_total_size response_code response_code_details : AttributeId
  response_flags response_grpc_status response_headers response_trailers response_size : AttributeId
  response_total_size response_backend_latency source_address source_port destination_address :
      AttributeId
  destination_port connection_id connection_mtls connection_requested_server_name : AttributeId
  connection_tls_version connection_subject_local_certificate : AttributeId
  connection_subject_peer_certificate connection_dns_san_local_certificate : AttributeId
  connection_dns_san_peer_certificate connection_uri_san_local_certificate : AttributeId
  connection_uri_san_peer_certificate connection_sha256_peer_certificate_digest : AttributeId
  connection_transport_failure_reason connection_termination_details upstream_address : AttributeId
  upstream_port upstream_tls_version upstream_subject_local_certificate : AttributeId
  upstream_subject_peer_certificate upstream_dns_san_local_certificate : AttributeId
  upstream_dns_san_peer_certificate upstream_uri_san_local_certificate : AttributeId
  upstream_uri_san_peer_certificate upstream_sha256_peer_certificate_digest : AttributeId
  upstream_local_address upstream_transport_failure_reason upstream_request_attempt_count :
      AttributeId
  upstream_cx_pool_ready_duration upstream_locality xds_node xds_cluster_name : AttributeId
  xds_cluster_metadata xds_listener_direction xds_listener_metadata xds_route_name : AttributeId
  xds_route_metadata xds_virtual_host_name xds_virtual_host_metadata xds_upstream_host_metadata :
      AttributeId
  xds_filter_chain_name health_check : AttributeId

unfoldable pub attribute_id_code : AttributeId → ℕ
attribute_id_code AttributeId.request_path = 0
attribute_id_code AttributeId.request_url_path = 1
attribute_id_code AttributeId.request_host = 2
attribute_id_code AttributeId.request_scheme = 3
attribute_id_code AttributeId.request_method = 4
attribute_id_code AttributeId.request_headers = 5
attribute_id_code AttributeId.request_referer = 6
attribute_id_code AttributeId.request_user_agent = 7
attribute_id_code AttributeId.request_time = 8
attribute_id_code AttributeId.request_id = 9
attribute_id_code AttributeId.request_protocol = 10
attribute_id_code AttributeId.request_query = 11
attribute_id_code AttributeId.request_duration = 12
attribute_id_code AttributeId.request_size = 13
attribute_id_code AttributeId.request_total_size = 14
attribute_id_code AttributeId.response_code = 15
attribute_id_code AttributeId.response_code_details = 16
attribute_id_code AttributeId.response_flags = 17
attribute_id_code AttributeId.response_grpc_status = 18
attribute_id_code AttributeId.response_headers = 19
attribute_id_code AttributeId.response_trailers = 20
attribute_id_code AttributeId.response_size = 21
attribute_id_code AttributeId.response_total_size = 22
attribute_id_code AttributeId.response_backend_latency = 23
attribute_id_code AttributeId.source_address = 24
attribute_id_code AttributeId.source_port = 25
attribute_id_code AttributeId.destination_address = 26
attribute_id_code AttributeId.destination_port = 27
attribute_id_code AttributeId.connection_id = 28
attribute_id_code AttributeId.connection_mtls = 29
attribute_id_code AttributeId.connection_requested_server_name = 30
attribute_id_code AttributeId.connection_tls_version = 31
attribute_id_code AttributeId.connection_subject_local_certificate = 32
attribute_id_code AttributeId.connection_subject_peer_certificate = 33
attribute_id_code AttributeId.connection_dns_san_local_certificate = 34
attribute_id_code AttributeId.connection_dns_san_peer_certificate = 35
attribute_id_code AttributeId.connection_uri_san_local_certificate = 36
attribute_id_code AttributeId.connection_uri_san_peer_certificate = 37
attribute_id_code AttributeId.connection_sha256_peer_certificate_digest = 38
attribute_id_code AttributeId.connection_transport_failure_reason = 39
attribute_id_code AttributeId.connection_termination_details = 40
attribute_id_code AttributeId.upstream_address = 41
attribute_id_code AttributeId.upstream_port = 42
attribute_id_code AttributeId.upstream_tls_version = 43
attribute_id_code AttributeId.upstream_subject_local_certificate = 44
attribute_id_code AttributeId.upstream_subject_peer_certificate = 45
attribute_id_code AttributeId.upstream_dns_san_local_certificate = 46
attribute_id_code AttributeId.upstream_dns_san_peer_certificate = 47
attribute_id_code AttributeId.upstream_uri_san_local_certificate = 48
attribute_id_code AttributeId.upstream_uri_san_peer_certificate = 49
attribute_id_code AttributeId.upstream_sha256_peer_certificate_digest = 50
attribute_id_code AttributeId.upstream_local_address = 51
attribute_id_code AttributeId.upstream_transport_failure_reason = 52
attribute_id_code AttributeId.upstream_request_attempt_count = 53
attribute_id_code AttributeId.upstream_cx_pool_ready_duration = 54
attribute_id_code AttributeId.upstream_locality = 55
attribute_id_code AttributeId.xds_node = 56
attribute_id_code AttributeId.xds_cluster_name = 57
attribute_id_code AttributeId.xds_cluster_metadata = 58
attribute_id_code AttributeId.xds_listener_direction = 59
attribute_id_code AttributeId.xds_listener_metadata = 60
attribute_id_code AttributeId.xds_route_name = 61
attribute_id_code AttributeId.xds_route_metadata = 62
attribute_id_code AttributeId.xds_virtual_host_name = 63
attribute_id_code AttributeId.xds_virtual_host_metadata = 64
attribute_id_code AttributeId.xds_upstream_host_metadata = 65
attribute_id_code AttributeId.xds_filter_chain_name = 66
attribute_id_code AttributeId.health_check = 67
