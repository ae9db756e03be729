-- ===== src/Tests.antt =====
-- Concrete runs: the theorems at inputs where their conditions hold.
pub mod Instances
pub mod Stores
pub mod Signatures
pub mod Sets
pub mod Serving
pub mod Caps
pub mod Pixels
pub mod Limits
pub mod Locks
pub mod Drains
pub mod Startup
pub mod Seeds
