-- ===== src/Shared/Agreement/Network.antt =====
-- The constants of shared/network_base.go against the enumerators of abi/abi.h.
use luwes.Base.{◌≡◌, refl}
use luwes.Abi.Common.{
  SocketOptionValueType as CSocketOptionValueType,
  socket_option_value_type_code as c_socket_option_value_type_code,
}
use luwes.Abi.Network.{
  OnNetworkFilterDataStatus as COnNetworkFilterDataStatus,
  on_network_filter_data_status_code as c_on_network_filter_data_status_code,
  NetworkConnectionCloseType as CNetworkConnectionCloseType,
  network_connection_close_type_code as c_network_connection_close_type_code,
  NetworkConnectionEvent as CNetworkConnectionEvent,
  network_connection_event_code as c_network_connection_event_code,
  NetworkConnectionState as CNetworkConnectionState,
  network_connection_state_code as c_network_connection_state_code,
  NetworkReadDisableStatus as CNetworkReadDisableStatus,
  network_read_disable_status_code as c_network_read_disable_status_code,
}
use luwes.Shared.Network.{
  SocketOptionValueType, socket_option_value_type_code, NetworkFilterStatus,
  network_filter_status_code, NetworkConnectionCloseType, network_connection_close_type_code,
  NetworkConnectionEvent, network_connection_event_code, NetworkConnectionState,
  network_connection_state_code, NetworkReadDisableStatus, network_read_disable_status_code,
}

-- The enumerator that a constant stands for, by its name.
abbrev pub socket_option_value_type_to_abi : SocketOptionValueType → CSocketOptionValueType
socket_option_value_type_to_abi SocketOptionValueType.int = CSocketOptionValueType.int
socket_option_value_type_to_abi SocketOptionValueType.bytes = CSocketOptionValueType.bytes

pub code-socket_option_value_type_to_abi :
    (v : SocketOptionValueType)
    → c_socket_option_value_type_code (socket_option_value_type_to_abi v)
      ≡ socket_option_value_type_code v
unfolding c_socket_option_value_type_code socket_option_value_type_code
code-socket_option_value_type_to_abi SocketOptionValueType.int = refl
code-socket_option_value_type_to_abi _ = refl

-- The enumerator that a constant stands for, by its name.
abbrev pub network_filter_status_to_abi : NetworkFilterStatus → COnNetworkFilterDataStatus
network_filter_status_to_abi NetworkFilterStatus.continue = COnNetworkFilterDataStatus.continue
network_filter_status_to_abi NetworkFilterStatus.stop = COnNetworkFilterDataStatus.stop_iteration

pub code-network_filter_status_to_abi :
    (v : NetworkFilterStatus)
    → c_on_network_filter_data_status_code (network_filter_status_to_abi v)
      ≡ network_filter_status_code v
unfolding c_on_network_filter_data_status_code network_filter_status_code
code-network_filter_status_to_abi NetworkFilterStatus.continue = refl
code-network_filter_status_to_abi _ = refl

-- The enumerator that a constant stands for, by its name.
abbrev pub network_connection_close_type_to_abi :
    NetworkConnectionCloseType → CNetworkConnectionCloseType
network_connection_close_type_to_abi NetworkConnectionCloseType.flush_write =
    CNetworkConnectionCloseType.flush_write
network_connection_close_type_to_abi NetworkConnectionCloseType.no_flush =
    CNetworkConnectionCloseType.no_flush
network_connection_close_type_to_abi NetworkConnectionCloseType.flush_write_and_delay =
    CNetworkConnectionCloseType.flush_write_and_delay
network_connection_close_type_to_abi NetworkConnectionCloseType.abort =
    CNetworkConnectionCloseType.abort
network_connection_close_type_to_abi NetworkConnectionCloseType.abort_reset =
    CNetworkConnectionCloseType.abort_reset

pub code-network_connection_close_type_to_abi :
    (v : NetworkConnectionCloseType)
    → c_network_connection_close_type_code (network_connection_close_type_to_abi v)
      ≡ network_connection_close_type_code v
unfolding c_network_connection_close_type_code network_connection_close_type_code
code-network_connection_close_type_to_abi NetworkConnectionCloseType.flush_write = refl
code-network_connection_close_type_to_abi _ = refl

-- The enumerator that a constant stands for, by its name.
abbrev pub network_connection_event_to_abi : NetworkConnectionEvent → CNetworkConnectionEvent
network_connection_event_to_abi NetworkConnectionEvent.remote_close =
    CNetworkConnectionEvent.remote_close
network_connection_event_to_abi NetworkConnectionEvent.local_close =
    CNetworkConnectionEvent.local_close
network_connection_event_to_abi NetworkConnectionEvent.connected = CNetworkConnectionEvent.connected
network_connection_event_to_abi NetworkConnectionEvent.connected_zero_rtt =
    CNetworkConnectionEvent.connected_zero_rtt

pub code-network_connection_event_to_abi :
    (v : NetworkConnectionEvent)
    → c_network_connection_event_code (network_connection_event_to_abi v)
      ≡ network_connection_event_code v
unfolding c_network_connection_event_code network_connection_event_code
code-network_connection_event_to_abi NetworkConnectionEvent.remote_close = refl
code-network_connection_event_to_abi _ = refl

-- The enumerator that a constant stands for, by its name.
abbrev pub network_connection_state_to_abi : NetworkConnectionState → CNetworkConnectionState
network_connection_state_to_abi NetworkConnectionState.is_open = CNetworkConnectionState.is_open
network_connection_state_to_abi NetworkConnectionState.closing = CNetworkConnectionState.closing
network_connection_state_to_abi NetworkConnectionState.closed = CNetworkConnectionState.closed

pub code-network_connection_state_to_abi :
    (v : NetworkConnectionState)
    → c_network_connection_state_code (network_connection_state_to_abi v)
      ≡ network_connection_state_code v
unfolding c_network_connection_state_code network_connection_state_code
code-network_connection_state_to_abi NetworkConnectionState.is_open = refl
code-network_connection_state_to_abi _ = refl

-- The enumerator that a constant stands for, by its name.
abbrev pub network_read_disable_status_to_abi : NetworkReadDisableStatus → CNetworkReadDisableStatus
network_read_disable_status_to_abi NetworkReadDisableStatus.no_transition =
    CNetworkReadDisableStatus.no_transition
network_read_disable_status_to_abi NetworkReadDisableStatus.still_read_disabled =
    CNetworkReadDisableStatus.still_read_disabled
network_read_disable_status_to_abi NetworkReadDisableStatus.transitioned_to_read_enabled =
    CNetworkReadDisableStatus.transitioned_to_read_enabled
network_read_disable_status_to_abi NetworkReadDisableStatus.transitioned_to_read_disabled =
    CNetworkReadDisableStatus.transitioned_to_read_disabled

pub code-network_read_disable_status_to_abi :
    (v : NetworkReadDisableStatus)
    → c_network_read_disable_status_code (network_read_disable_status_to_abi v)
      ≡ network_read_disable_status_code v
unfolding c_network_read_disable_status_code network_read_disable_status_code
code-network_read_disable_status_to_abi NetworkReadDisableStatus.no_transition = refl
code-network_read_disable_status_to_abi _ = refl
