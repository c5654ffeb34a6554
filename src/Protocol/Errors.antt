-- ===== src/Protocol/Errors.antt =====
-- src/protocol/error_protocol.rs, events_protocol.rs.
use p2p_network_implementati.Network.Errors.{IoError, ErrorCreateVersionMessage}
use p2p_network_implementati.Network.Types.{PeerId, MessagePayload}

pub data ErrorHandleMessage : Type 0 where
  error_channel_thread_protocol_closed : ErrorHandleMessage
  error_channel_peer_manager_closed : ErrorHandleMessage

pub data ErrorThreadProtocol (JoinError : Type 0) : Type 0 where
  error_input_output : IoError → ErrorThreadProtocol JoinError
  error_handle_message : ErrorHandleMessage → ErrorThreadProtocol JoinError
  error_join_handle_handle_message : JoinError → ErrorThreadProtocol JoinError

pub data ErrorHandle : Type 0 where
  peer_manager_closed : ErrorHandle
  error_create_version_message : ErrorCreateVersionMessage → ErrorHandle
  error_invalid_version_message : ErrorHandle
  error_invalid_state_version : ErrorHandle
  error_invalid_state_verack : ErrorHandle
  error_invalid_state_handshake : ErrorHandle

pub data EventsThreadProtocol : Type 0 where
  shutdown : EventsThreadProtocol

pub data EventsHandleMessage : Type 0 where
  ready_message : PeerId → MessagePayload → EventsHandleMessage
  incidet_violent_complited_peer : PeerId → EventsHandleMessage
