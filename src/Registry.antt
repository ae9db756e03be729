-- ===== src/Registry.antt =====
-- server/internal/registry: the in-memory snapshot of active ads, the sets it indexes them by, and
-- the refresher that keeps it current.
pub mod Bitset
pub mod Snapshot
pub mod Loader
pub mod Load
pub mod Refresher
