-- ===== src/Network.antt =====
-- network/network.go: a node, the messages that it sends and handles, and mining out of the memory
-- pool. Handlers run one after another: the goroutines of the source, which share the node's
-- variables without a lock, are not interleaved within a handler.
pub mod State
pub mod Send
pub mod Mine
pub mod Handle
pub mod Serve
pub mod Sent
pub mod Pool
pub mod Rounds
pub mod Handled
pub mod Handshake
pub mod Alone
pub mod Sync
pub mod Copied
pub mod Joined
pub mod Steps
