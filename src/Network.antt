-- ===== src/Network.antt =====
-- The network side of the node (src/network): the wire format, the tasks of one connection, the
-- peer that owns them, the peer manager, the listener and the thread that runs them.
pub mod Errors
pub mod Wire
pub mod Types
pub mod TaskWrite
pub mod TaskRead
pub mod Peer
pub mod PeerEnd
pub mod PeerManager
pub mod LoopListen
pub mod Thread
