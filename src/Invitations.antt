-- ===== src/Invitations.antt =====
-- Invitations to an organization: src/domain/invitations, src/server/repositories/invitation-repository.ts,
-- create-, resend- and revoke-invitation.ts of src/features/members/server, and accept-invitation.ts and
-- register-and-accept-invitation.ts of src/features/invitations/server. A request reads the database
-- first and writes it in a transaction later: `seen` is the database at the reads, `db` that of the
-- transaction, and the two may differ in any way.
mod Repository
pub mod Requests
pub mod Acceptance
pub mod Runs
pub mod Events
pub mod Steps
pub mod Once
pub mod Settled
pub mod Accepts
pub mod Tests
unfoldable pub use Repository.*
