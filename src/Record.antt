-- ===== src/Record.antt =====
-- src/record.rs: the records of a pak index, and the four layouts that hold them in a file.
mod Defs
pub mod Read
pub mod Write
pub mod Entry
pub mod Fields
pub mod RoundTrip
pub mod Inline
pub mod Layouts
unfoldable pub use Defs.*
