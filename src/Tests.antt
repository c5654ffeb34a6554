-- ===== src/Tests.antt =====
-- The theorems at concrete inputs, one module for each side of the node.
mod Data
mod Wire
mod Reading
mod Peers
mod Manager
mod Protocol
mod Threads
