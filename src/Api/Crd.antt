-- ===== src/Api/Crd.antt =====
-- The custom resources as panel-core/internal/api handles them, through client-go's dynamic client.
pub mod Values
pub mod Client
pub mod Owned
pub mod Quota
pub mod Sample
