-- ===== src/Api/Plans.antt =====
-- panel-core/internal/api/hostingplans.go.
pub mod Slug
pub mod Data
pub mod Quotas
pub mod Handlers
pub mod RoundTrip
pub mod Assignment
pub mod Tests
