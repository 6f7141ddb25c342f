-- ===== src/Shares.antt =====
-- Shares: apps/api/src/share-capability.ts and apps/api/src/shares.ts.
pub mod Capability
pub mod Access
pub mod Download
pub mod Promise
pub mod Update
pub mod Quota
