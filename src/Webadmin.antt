-- ===== src/Webadmin.antt =====
-- webadmin/api: the administration of server and client over HTTP.
pub mod Auth
pub mod Config
pub mod Files
pub mod Proxies
pub mod Stored
pub mod Service
