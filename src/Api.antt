-- ===== src/Api.antt =====
-- panel-core/internal/api: the panel's REST API.
pub mod Dns
pub mod Files
pub mod Import
pub mod Crd
pub mod Websites
pub mod Databases
pub mod Plans
pub mod Emails
pub mod MailDomains
