-- ===== src/Api/Files.antt =====
-- panel-core/internal/api/filemanager.go: files of a website, by commands in its pod.
pub mod Paths
pub mod Listing
pub mod Pods
pub mod Handlers
pub mod Confined
pub mod Owned
pub mod Container
mod Tests
