-- ===== src/Tests.antt =====
-- A toy of each third-party crate, and examples of the theorems on it.
pub mod Toy
pub mod Exchange
pub mod Files
pub mod Joining
pub mod Nodes
pub mod Stores
pub mod Transfers
pub mod Sessions
pub mod Texts
