-- ===== src/Network/Types.antt =====
-- src/network/ttype.rs and events_network.rs: the messages and the events that the parts of the
-- node send one another. A `TcpStream` is what the operating system answers about it.
use p2p_network_implementati.Prelude.{ℕ, Result}
use p2p_network_implementati.Network.Errors.{IoError}
use p2p_network_implementati.Network.Wire.{VersionMessage, VerackMessage, SocketAddr}

abbrev pub PeerId : Type 0
PeerId = ℕ

pub data TypeCommandMessage : Type 0 where
  version_message verack_message uncertain_message : TypeCommandMessage

pub data MessagePayload : Type 0 where
  version : VersionMessage → MessagePayload
  verack : VerackMessage → MessagePayload

pub data TypeConnection : Type 0 where
  incoming_connection outgoing_connection : TypeConnection

pub record StructContextConnection : Type 0 where
  pub peerid : PeerId
  pub type_connection : TypeConnection
  pub nonce : ℕ
  pub local_address : SocketAddr
  pub remove_address : SocketAddr

-- `TcpStream`, by the answers of `peer_addr()` and `local_addr()`.
pub record TcpStream : Type 0 where
  pub peer_addr : Result IoError SocketAddr
  pub local_addr : Result IoError SocketAddr

pub data EventsThreadNetwork : Type 0 where
  outgoing_connection : SocketAddr → EventsThreadNetwork
  shutdown : EventsThreadNetwork

pub data EventsPeerManager : Type 0 where
  ready_message : PeerId → MessagePayload → EventsPeerManager
  ready_low_message : MessagePayload → EventsPeerManager
  shutdown : EventsPeerManager
  incident_new_connection : StructContextConnection → EventsPeerManager
  incident_completed_peer : PeerId → EventsPeerManager
  incident_completed_all_peer : EventsPeerManager

pub data EventsLoopListen : Type 0 where
  incoming_connection : TcpStream → SocketAddr → EventsLoopListen

pub data EventsPeer : Type 0 where
  shutdown : EventsPeer
  ready_low_message : PeerId → MessagePayload → EventsPeer
  low_level_message : MessagePayload → EventsPeer

pub data EventsTaskRead : Type 0 where
  low_raw_message : MessagePayload → EventsTaskRead

pub data EventsThreadNetworkProtocol : Type 0 where
  exit_completion_thread_network exit_completion_thread_protocol : EventsThreadNetworkProtocol
