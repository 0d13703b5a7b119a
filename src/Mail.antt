-- ===== src/Mail.antt =====
-- The table of mail deliveries and what moves a delivery on: src/domain/email,
-- src/server/repositories/mail-delivery-repository.ts, src/server/services/email/send-tracked-mail.ts and
-- src/features/mail/server.
mod Policies
mod Repository
pub mod Process
pub mod Validity
pub mod Runs
pub mod Sound
pub mod Invariant
pub mod Follows
pub mod Attempts
pub mod Turns
pub mod Tests
unfoldable pub use Policies.*
unfoldable pub use Repository.*
