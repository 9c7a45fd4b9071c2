-- ===== src/Communication.antt =====
-- The peer-to-peer part of the library: src/astreum/communication.
pub mod MessagePow
pub mod Route
pub mod IncomingQueue
