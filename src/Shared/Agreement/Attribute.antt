-- ===== src/Shared/Agreement/Attribute.antt =====
-- The constants of shared/base.go against the enumerators of abi/abi.h.
use luwes.Base.{◌≡◌, refl}
use luwes.Abi.Attribute.{AttributeId as CAttributeId, attribute_id_code as c_attribute_id_code}
use luwes.Shared.Attribute.{AttributeId, attribute_id_code}

-- The enumerator that a constant stands for, by its name.
abbrev pub attribute_id_to_abi : AttributeId → CAttributeId
attribute_id_to_abi AttributeId.request_path = CAttributeId.request_path
attribute_id_to_abi AttributeId.request_url_path = CAttributeId.request_url_path
attribute_id_to_abi AttributeId.request_host = CAttributeId.request_host
attribute_id_to_abi AttributeId.request_scheme = CAttributeId.request_scheme
attribute_id_to_abi AttributeId.request_method = CAttributeId.request_method
attribute_id_to_abi AttributeId.request_headers = CAttributeId.request_headers
attribute_id_to_abi AttributeId.request_referer = CAttributeId.request_referer
attribute_id_to_abi AttributeId.request_user_agent = CAttributeId.request_user_agent
attribute_id_to_abi AttributeId.request_time = CAttributeId.request_time
attribute_id_to_abi AttributeId.request_id = CAttributeId.request_id
attribute_id_to_abi AttributeId.request_protocol = CAttributeId.request_protocol
attribute_id_to_abi AttributeId.request_query = CAttributeId.request_query
attribute_id_to_abi AttributeId.request_duration = CAttributeId.request_duration
attribute_id_to_abi AttributeId.request_size = CAttributeId.request_size
attribute_id_to_abi AttributeId.request_total_size = CAttributeId.request_total_size
attribute_id_to_abi AttributeId.response_code = CAttributeId.response_code
attribute_id_to_abi AttributeId.response_code_details = CAttributeId.response_code_details
attribute_id_to_abi AttributeId.response_flags = CAttributeId.response_flags
attribute_id_to_abi AttributeId.response_grpc_status = CAttributeId.response_grpc_status
attribute_id_to_abi AttributeId.response_headers = CAttributeId.response_headers
attribute_id_to_abi AttributeId.response_trailers = CAttributeId.response_trailers
attribute_id_to_abi AttributeId.response_size = CAttributeId.response_size
attribute_id_to_abi AttributeId.response_total_size = CAttributeId.response_total_size
attribute_id_to_abi AttributeId.response_backend_latency = CAttributeId.response_backend_latency
attribute_id_to_abi AttributeId.source_address = CAttributeId.source_address
attribute_id_to_abi AttributeId.source_port = CAttributeId.source_port
attribute_id_to_abi AttributeId.destination_address = CAttributeId.destination_address
attribute_id_to_abi AttributeId.destination_port = CAttributeId.destination_port
attribute_id_to_abi AttributeId.connection_id = CAttributeId.connection_id
attribute_id_to_abi AttributeId.connection_mtls = CAttributeId.connection_mtls
attribute_id_to_abi AttributeId.connection_requested_server_name =
    CAttributeId.connection_requested_server_name
attribute_id_to_abi AttributeId.connection_tls_version = CAttributeId.connection_tls_version
attribute_id_to_abi AttributeId.connection_subject_local_certificate =
    CAttributeId.connection_subject_local_certificate
attribute_id_to_abi AttributeId.connection_subject_peer_certificate =
    CAttributeId.connection_subject_peer_certificate
attribute_id_to_abi AttributeId.connection_dns_san_local_certificate =
    CAttributeId.connection_dns_san_local_certificate
attribute_id_to_abi AttributeId.connection_dns_san_peer_certificate =
    CAttributeId.connection_dns_san_peer_certificate
attribute_id_to_abi AttributeId.connection_uri_san_local_certificate =
    CAttributeId.connection_uri_san_local_certificate
attribute_id_to_abi AttributeId.connection_uri_san_peer_certificate =
    CAttributeId.connection_uri_san_peer_certificate
attribute_id_to_abi AttributeId.connection_sha256_peer_certificate_digest =
    CAttributeId.connection_sha256_peer_certificate_digest
attribute_id_to_abi AttributeId.connection_transport_failure_reason =
    CAttributeId.connection_transport_failure_reason
attribute_id_to_abi AttributeId.connection_termination_details =
    CAttributeId.connection_termination_details
attribute_id_to_abi AttributeId.upstream_address = CAttributeId.upstream_address
attribute_id_to_abi AttributeId.upstream_port = CAttributeId.upstream_port
attribute_id_to_abi AttributeId.upstream_tls_version = CAttributeId.upstream_tls_version
attribute_id_to_abi AttributeId.upstream_subject_local_certificate =
    CAttributeId.upstream_subject_local_certificate
attribute_id_to_abi AttributeId.upstream_subject_peer_certificate =
    CAttributeId.upstream_subject_peer_certificate
attribute_id_to_abi AttributeId.upstream_dns_san_local_certificate =
    CAttributeId.upstream_dns_san_local_certificate
attribute_id_to_abi AttributeId.upstream_dns_san_peer_certificate =
    CAttributeId.upstream_dns_san_peer_certificate
attribute_id_to_abi AttributeId.upstream_uri_san_local_certificate =
    CAttributeId.upstream_uri_san_local_certificate
attribute_id_to_abi AttributeId.upstream_uri_san_peer_certificate =
    CAttributeId.upstream_uri_san_peer_certificate
attribute_id_to_abi AttributeId.upstream_sha256_peer_certificate_digest =
    CAttributeId.upstream_sha256_peer_certificate_digest
attribute_id_to_abi AttributeId.upstream_local_address = CAttributeId.upstream_local_address
attribute_id_to_abi AttributeId.upstream_transport_failure_reason =
    CAttributeId.upstream_transport_failure_reason
attribute_id_to_abi AttributeId.upstream_request_attempt_count =
    CAttributeId.upstream_request_attempt_count
attribute_id_to_abi AttributeId.upstream_cx_pool_ready_duration =
    CAttributeId.upstream_cx_pool_ready_duration
attribute_id_to_abi AttributeId.upstream_locality = CAttributeId.upstream_locality
attribute_id_to_abi AttributeId.xds_node = CAttributeId.xds_node
attribute_id_to_abi AttributeId.xds_cluster_name = CAttributeId.xds_cluster_name
attribute_id_to_abi AttributeId.xds_cluster_metadata = CAttributeId.xds_cluster_metadata
attribute_id_to_abi AttributeId.xds_listener_direction = CAttributeId.xds_listener_direction
attribute_id_to_abi AttributeId.xds_listener_metadata = CAttributeId.xds_listener_metadata
attribute_id_to_abi AttributeId.xds_route_name = CAttributeId.xds_route_name
attribute_id_to_abi AttributeId.xds_route_metadata = CAttributeId.xds_route_metadata
attribute_id_to_abi AttributeId.xds_virtual_host_name = CAttributeId.xds_virtual_host_name
attribute_id_to_abi AttributeId.xds_virtual_host_metadata = CAttributeId.xds_virtual_host_metadata
attribute_id_to_abi AttributeId.xds_upstream_host_metadata = CAttributeId.xds_upstream_host_metadata
attribute_id_to_abi AttributeId.xds_filter_chain_name = CAttributeId.xds_filter_chain_name
attribute_id_to_abi AttributeId.health_check = CAttributeId.health_check

pub code-attribute_id_to_abi :
    (v : AttributeId) → c_attribute_id_code (attribute_id_to_abi v) ≡ attribute_id_code v
unfolding c_attribute_id_code attribute_id_code
code-attribute_id_to_abi AttributeId.request_path = refl
code-attribute_id_to_abi _ = refl
