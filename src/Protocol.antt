-- ===== src/Protocol.antt =====
-- The protocol side of the node (src/protocol): the handshake with each peer, and its thread.
pub mod Errors
pub mod Handshake
pub mod HandleMessage
pub mod Thread
