-- ===== src/Worker.antt =====
-- server/internal/worker: the lock of the replicas, the drain of the counters, and the tick.
pub mod Lock
pub mod Drain
pub mod Reconcile
pub mod Tick
