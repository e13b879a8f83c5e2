-- ===== src/Check.antt =====
-- src/check.rs: what `check` reports of an archive.
pub mod Defs
pub mod Hashes
pub mod Records
pub mod Packed
pub mod Whole
pub mod Clean
pub mod Distinct
pub mod Accepted
pub mod Sent
pub mod Archive
pub mod Written
pub mod Diff
