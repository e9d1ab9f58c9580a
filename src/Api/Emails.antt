-- ===== src/Api/Emails.antt =====
-- panel-core/internal/api/emails.go.
pub mod Data
pub mod Objects
pub mod Create
pub mod Handlers
pub mod Tenants
pub mod Creation
pub mod Keycloak
pub mod RoundTrip
pub mod Tests
