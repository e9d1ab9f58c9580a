-- ===== src/Api/Dns.antt =====
-- panel-core/internal/api/dns.go: DNS zones and records.
pub mod Data
pub mod Names
pub mod Content
pub mod Access
pub mod Defaults
pub mod Handlers
mod Tests
