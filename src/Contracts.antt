-- ===== src/Contracts.antt =====
-- The status that a contract shows, what its workspace page says of its processing, and the
-- notifications and buckets that follow from its end date (src/domain/contracts, src/domain/notifications,
-- src/domain/analytics/date-buckets.ts).
pub mod Status
pub mod Buckets
pub mod Timeline
pub mod Notifications
pub mod Processing
pub mod Tests
