-- ===== src/Capping.antt =====
-- server/internal/capping: the counters in Redis that gate the delivery of an ad.
pub mod Budget
pub mod Frequency
