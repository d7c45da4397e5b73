-- ===== src/Client/Async.antt =====
-- The methods of `AsyncRedis` in commands/, by family.
pub mod Strings
pub mod Keys
pub mod Lists
pub mod Blocking
pub mod Hashes
pub mod HashExpiry
pub mod Sets
pub mod SortedSets
pub mod SortedQueries
pub mod SortedWalks
pub mod Scripts
