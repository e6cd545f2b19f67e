-- ===== src/Audit.antt =====
-- internal/audit: the append-only operation log.
pub mod Entry
pub mod Store
pub mod Reader
mod Tests
