-- ===== src/Filter.antt =====
-- src/filter.rs: the tree of the paths that a command is limited to.
mod Defs
pub mod Laws
pub mod Visits
pub mod Selected
unfoldable pub use Defs.*
