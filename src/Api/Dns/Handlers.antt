-- ===== src/Api/Dns/Handlers.antt =====
-- The handlers of dns.go. An early return is a failure with its response; a request's body is `none`
-- if the JSON decoder refused it.
pub mod Load
mod Zones
mod Records
mod Secondary
pub mod Routes
pub mod Isolation
pub mod Tenants
pub mod Guarded
pub mod Merging
pub mod Listing
pub mod Replacing
unfoldable pub use Zones.*
unfoldable pub use Records.*
unfoldable pub use Secondary.*
