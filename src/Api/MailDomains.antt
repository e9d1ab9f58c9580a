-- ===== src/Api/MailDomains.antt =====
-- panel-core/internal/api/email_domains.go.
pub mod Data
pub mod Handlers
pub mod Tenants
pub mod Cascade
pub mod Tests
