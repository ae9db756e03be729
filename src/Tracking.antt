-- ===== src/Tracking.antt =====
-- server/internal/tracking: the events, the signatures on their URLs, and the /track endpoint.
pub mod Events
pub mod Sign
pub mod Expiry
pub mod Track
pub mod User
pub mod Query
