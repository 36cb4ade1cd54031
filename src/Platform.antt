-- ===== src/Platform.antt =====
-- internal/platform: the release history of an app, and its environment and custom domains.
pub mod Releases
pub mod AppConfig
