-- ===== src/Unpack.antt =====
-- src/unpack.rs: what is written for one record.
mod Defs
pub mod Chunks
pub mod Records
pub mod Whole
pub mod Archive
unfoldable pub use Defs.*
