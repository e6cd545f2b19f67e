-- ===== src/Http.antt =====
-- internal/httpapi: the bounded state that the dashboard's server keeps.
pub mod Jobs
pub mod RateLimit
pub mod Gate
mod Tests
