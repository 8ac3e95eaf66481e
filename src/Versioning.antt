-- ===== src/Versioning.antt =====
-- pkg/mysqlversioning: the profiles of the server lines, the resolution of versions and images, and
-- the check of an upgrade path.
pub mod Profiles
pub mod Resolution
pub mod Images
pub mod UpgradePath
pub mod Replication
