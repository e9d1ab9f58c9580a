-- ===== src/Http.antt =====
-- Requests and responses of the panel's HTTP API (net/http, chi), as far as the handlers read and
-- write them: panel-core/internal/api/errors.go, and `writeJSON` of api/users.go.
mod Errors
mod Serving
pub use Errors.*
pub use Serving.*
