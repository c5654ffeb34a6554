-- ===== src/Lib.antt =====
-- A peer-to-peer node that speaks the version and verack messages of Bitcoin: the initial thread
-- (src/main.rs) starts a network thread (src/network) and a protocol thread (src/protocol), which
-- talk over tokio channels. The network thread runs the peer manager and the listener; the manager
-- runs one peer actor for each connection, and a peer runs a task that reads its socket and one
-- that writes it. The protocol thread runs the message handler, which takes each peer through its
-- handshake.
--
-- Modules and the code that each models:
--   Network.Wire           src/network/wire.rs: the messages, their bytes, the checksum
--   Network.TaskWrite      src/network/task_write.rs: create_header_message, start_task_write
--   Network.TaskRead       src/network/task_read.rs: raw_byte_processing, start_task_read
--   Network.Peer, PeerEnd  src/network/peer.rs: Peer::create, the loop of Peer::spawn, its end
--   Network.PeerManager    src/network/peermanager.rs: create, the loop of run; Ending: its end
--   Network.LoopListen     src/network/looplisten.rs: run
--   Network.Thread         src/network/thread_network.rs: the loop of the thread and its end
--   Network.Types, Errors  src/network/ttype.rs, events_network.rs, error_network.rs,
--                          success_network.rs
--   Protocol.Handshake     src/protocol/handlemessage.rs: handle_msg and the state of a peer
--   Protocol.HandleMessage src/protocol/handlemessage.rs: HandleMessage::create and run
--   Protocol.Thread        src/protocol/thread_protocol.rs
--   Protocol.Errors        src/protocol/error_protocol.rs, events_protocol.rs
--   Init                   src/main.rs, error_init.rs, events_init.rs
-- Prelude, Bytes and Channel hold what the components share: results that may also panic, lists
-- and maps measured by native numbers, event loops, byte strings and the sending half of a channel.
-- The modules below a component hold its theorems, named for what they are about; Tests applies
-- them to concrete inputs.
--
-- Each actor is a record of its fields and of the sending ends of its channels, a step function for
-- one turn of its loop, whose arms are those of the `select!` and the `match` behind it, and a run
-- over the list of incidents that the loop takes up, in any order that the environment chooses. A
-- run over a list stops with the list, so no fuel is needed: a theorem about a run is about every
-- finite prefix of what the actor does. A step continues, returns or panics. Errors are the enums
-- of the source; `?` is the bind of Outcome, and an index out of range is its panic.
--
-- Numbers are natural numbers; the widths of the source are hypotheses (IsVersionMessage) or written
-- out (`% 2 ^ 32` for a length, `% 2 ^ 64` for the counter of the peers, which wraps as in a release
-- build; one with overflow checks panics there). A String is its bytes.
--
-- Parameters: `digest` is SHA-256 (crate sha2), of which only the size of the result is used;
-- `JoinError` and `error_id` are tokio's error of a task and the id in it; `Panic` is what a thread
-- panicked with. The clock, the random nonce, the ids of tasks and the answers of sockets are
-- arguments or parts of an incident; a read may bring any number of bytes, while the source asks for
-- at most 4096. A channel has a number of sends that its receiver outlives; a
-- full channel makes the sender wait, which is no step. An actor to which nothing was sent waits: the
-- run over no incidents continues.
--
-- Not modelled: the starting of threads, runtimes and tasks, the log, and the module declarations.
pub mod Prelude
pub mod Bytes
pub mod Channel
pub mod Network
pub mod Protocol
pub mod Init
pub mod Tests
