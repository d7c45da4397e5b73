-- ===== src/PubSub.antt =====
-- facade/pubsub.rs: the subscription state, the messages and the supervisor that owns a pubsub
-- connection.
pub mod State
pub mod Sets
pub mod Handle
pub mod Reconnect
pub mod Supervisor
pub mod Replay
pub mod View
