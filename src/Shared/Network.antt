-- ===== src/Shared/Network.antt =====
-- shared/network_base.go: the constants that cross the C interface, with their numbers.
use luwes.Base.{ℕ}

pub data SocketOptionValueType : Type 0 where
  int bytes : SocketOptionValueType

unfoldable pub socket_option_value_type_code : SocketOptionValueType → ℕ
socket_option_value_type_code SocketOptionValueType.int = 0
socket_option_value_type_code SocketOptionValueType.bytes = 1

pub data NetworkFilterStatus : Type 0 where
  continue stop : NetworkFilterStatus

unfoldable pub network_filter_status_code : NetworkFilterStatus → ℕ
network_filter_status_code NetworkFilterStatus.continue = 0
network_filter_status_code NetworkFilterStatus.stop = 1

pub data NetworkConnectionCloseType : Type 0 where
  flush_write no_flush flush_write_and_delay abort abort_reset : NetworkConnectionCloseType

unfoldable pub network_connection_close_type_code : NetworkConnectionCloseType → ℕ
network_connection_close_type_code NetworkConnectionCloseType.flush_write = 0
network_connection_close_type_code NetworkConnectionCloseType.no_flush = 1
network_connection_close_type_code NetworkConnectionCloseType.flush_write_and_delay = 2
network_connection_close_type_code NetworkConnectionCloseType.abort = 3
network_connection_close_type_code NetworkConnectionCloseType.abort_reset = 4

pub data NetworkConnectionEvent : Type 0 where
  remote_close local_close connected connected_zero_rtt : NetworkConnectionEvent

unfoldable pub network_connection_event_code : NetworkConnectionEvent → ℕ
network_connection_event_code NetworkConnectionEvent.remote_close = 0
network_connection_event_code NetworkConnectionEvent.local_close = 1
network_connection_event_code NetworkConnectionEvent.connected = 2
network_connection_event_code NetworkConnectionEvent.connected_zero_rtt = 3

pub data NetworkConnectionState : Type 0 where
  is_open closing closed : NetworkConnectionState

unfoldable pub network_connection_state_code : NetworkConnectionState → ℕ
network_connection_state_code NetworkConnectionState.is_open = 0
network_connection_state_code NetworkConnectionState.closing = 1
network_connection_state_code NetworkConnectionState.closed = 2

pub data NetworkReadDisableStatus : Type 0 where
  no_transition still_read_disabled transitioned_to_read_enabled transitioned_to_read_disabled :
      NetworkReadDisableStatus

unfoldable pub network_read_disable_status_code : NetworkReadDisableStatus → ℕ
network_read_disable_status_code NetworkReadDisableStatus.no_transition = 0
network_read_disable_status_code NetworkReadDisableStatus.still_read_disabled = 1
network_read_disable_status_code NetworkReadDisableStatus.transitioned_to_read_enabled = 2
network_read_disable_status_code NetworkReadDisableStatus.transitioned_to_read_disabled = 3
