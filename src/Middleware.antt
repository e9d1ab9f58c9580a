-- ===== src/Middleware.antt =====
-- panel-core/internal/middleware: role and ownership checks (rbac.go), authentication (auth.go).
pub mod Rbac
pub mod Oidc
pub mod Sample
mod Tests
