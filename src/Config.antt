-- ===== src/Config.antt =====
-- internal/controller/config: the host's configuration file and its mapping to the resource.
pub mod Types
pub mod Parser
pub mod Writer
pub mod Convert
pub mod RoundTrip
pub mod Files
pub mod Atomic
pub mod Reload
