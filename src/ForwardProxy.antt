-- ===== src/ForwardProxy.antt =====
-- forward_proxy.py: the proxy for browsers, which connects to the targets of their requests.
pub mod Headers
pub mod Body
pub mod Request
pub mod Credentials
pub mod Tunnel
mod Tests
