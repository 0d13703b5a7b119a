-- ===== src/Extraction.antt =====
-- The jobs that extract a contract's data from its file: the rows (prisma/schema.prisma,
-- ContractExtractionJob), src/server/repositories/extraction-job-repository.ts, and the policies of
-- src/domain/extraction. The table is the map from the primary key to the row. An operation of the
-- database runs by itself, and an instant is milliseconds since the epoch.
mod Policies
mod Repository
pub mod Process
pub mod Requests
pub mod Table
pub mod Claims
pub mod Outcomes
pub mod Validity
pub mod Recovery
pub mod Stale
pub mod Lifecycle
pub mod Runs
pub mod Apply
pub mod Tests
unfoldable pub use Policies.*
unfoldable pub use Repository.*
