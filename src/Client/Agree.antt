-- ===== src/Client/Agree.antt =====
-- commands/: the same method of the two clients gives the same outcome.
pub mod Shapes
pub mod Plain
pub mod Values
pub mod Kinds
pub mod Quiet
pub mod Strings
pub mod Keys
pub mod Lists
pub mod Blocking
pub mod Hashes
pub mod HashExpiry
pub mod Sets
pub mod Sorted
pub mod SortedSets
pub mod SortedQueries
pub mod SortedWalks
pub mod Scripted
pub mod Scripts
