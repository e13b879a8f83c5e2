-- ===== src/Pak.antt =====
-- src/pak.rs: the footer of a pak file, the detection of its version, and `Pak::from_reader`.
mod Defs
pub mod Decode
pub mod Open
pub mod Sizes
unfoldable pub use Defs.*
