-- ===== src/Models.antt =====
-- The tables of backend/signage/models.py, as records: the columns that the code under study reads
-- or writes. A UUID, a foreign key and a hash are numbers, times are microseconds, an enumeration of
-- choices is a data type.
mod PlaylistRows
mod MediaRows
mod DeviceRows
mod EnrollmentRows
mod EvidenceRows
mod AuditRows
pub use PlaylistRows.*
pub use MediaRows.*
pub use DeviceRows.*
pub use EnrollmentRows.*
pub use EvidenceRows.*
pub use AuditRows.*
