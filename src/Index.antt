-- ===== src/Index.antt =====
-- src/index.rs: the index of a pak, in the layout before version 10 and since.
pub mod Secondary
pub mod Legacy
pub mod Read
pub mod Names
