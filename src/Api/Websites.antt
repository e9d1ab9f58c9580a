-- ===== src/Api/Websites.antt =====
-- panel-core/internal/api/websites.go.
pub mod Data
pub mod Objects
pub mod Specs
pub mod Checks
pub mod Handlers
pub mod Routes
pub mod Tenants
pub mod Domains
pub mod RoundTrip
pub mod Creation
pub mod Uids
pub mod Aliases
pub mod Tests
