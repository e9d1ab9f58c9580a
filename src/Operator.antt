-- ===== src/Operator.antt =====
-- hosting-operator: the reconciler of websites, the volumes of the users and the SFTP server's mounts.
pub mod Data
pub mod Kube
pub mod Volumes
pub mod Users
pub mod Sftp
pub mod Website
mod Tests
