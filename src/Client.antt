-- ===== src/Client.antt =====
-- The two client classes: `Redis` of facade/sync.rs and `AsyncRedis` of facade/asyncio_mod.rs, with the
-- command methods of commands/ that both of them have.
pub mod Driver
pub mod Decode
pub mod SortedScan
pub mod SortedWalks
pub mod Raw
pub mod Scan
pub mod Ops
pub mod Replies
pub mod Arguments
pub mod SortedSets
pub mod SortedReplies
pub mod Scripts
pub mod Forms
pub mod Sync
pub mod Async
pub mod Agree
pub mod Calls
pub mod Differ
pub mod SetGrammar
pub mod Decoded
pub mod Cursor
