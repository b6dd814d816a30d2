-- ===== src/Resin.antt =====
-- The registry resin, which keeps the images of the host: names of repositories and lists of tags.
pub mod Digests
pub mod Blobs
pub mod Registries
pub mod Uploads
pub mod TagStore
pub mod Names
pub mod Repositories
pub mod Tags
