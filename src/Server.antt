-- ===== src/Server.antt =====
-- frps.py: `FRPServer`. A stream writer stands by a number, and what is written to one is a log
-- of messages; which writes raise is a parameter.
pub mod State
pub mod Stcp
pub mod Registry
pub mod Http
pub mod Handlers
pub mod Cleanup
pub mod Ftp
pub mod Tcp
pub mod DataChannel
pub mod Messages
pub mod Control
pub mod Remote
mod Tests
