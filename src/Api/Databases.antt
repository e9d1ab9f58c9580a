-- ===== src/Api/Databases.antt =====
-- panel-core/internal/api/databases.go.
pub mod Data
pub mod Handlers
pub mod Tenants
pub mod Creation
pub mod Tests
