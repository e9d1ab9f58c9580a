-- ===== src/Operator/Website.antt =====
-- hosting-operator/internal/controller/website_controller.go: the reconciler of websites.
pub mod Desired
pub mod Steps
pub mod Dns
pub mod Status
pub mod Reconcile
pub mod Allowed
pub mod Kept
pub mod Provision
pub mod Lifecycle
pub mod Phases
