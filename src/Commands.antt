-- ===== src/Commands.antt =====
-- connection.rs: the commands that the driver builds.
pub mod Args
pub mod Strings
pub mod Lists
pub mod Hashes
pub mod Sets
pub mod Direct
