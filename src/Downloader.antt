-- ===== src/Downloader.antt =====
-- internal/controller/downloader/downloader.go: released versions and manifests from the network,
-- and the resources that they describe.
pub mod Versions
pub mod Apply
pub mod Delete
pub mod Ready
pub mod Content
