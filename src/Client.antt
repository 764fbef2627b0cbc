-- ===== src/Client.antt =====
-- frpc.py: `FRPClient`.
pub mod Backoff
pub mod State
pub mod Handlers
pub mod Relay
pub mod Session
pub mod Invariant
pub mod Delivery
pub mod Forwarding
pub mod Remote
mod Tests
