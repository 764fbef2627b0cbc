-- ===== src/Access.antt =====
-- access.py: `AccessControl`, the port whitelist and the address lists, with the port check of
-- webadmin/api/config_manager.py.
pub mod Ports
pub mod Networks
pub mod Control
mod Tests
