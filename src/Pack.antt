-- ===== src/Pack.antt =====
-- src/pack.rs: making a pak file.
mod Defs
pub mod PathSpec
pub mod Worker
pub mod Archive
pub mod Entries
pub mod Footers
pub mod Opening
pub mod Reopen
pub mod Layouts
pub mod Chunks
pub mod Sent
pub mod SentBlocks
pub mod Works
pub mod Placed
pub mod Received
pub mod Unpacked
pub mod Whole
unfoldable pub use Defs.*
