-- ===== src/Buffer.antt =====
-- src/ESPAsyncTCPBuffer.cpp and .h: a stream on top of a client, with a queue of bytes to send, a
-- ring of received bytes, and requests to read from it.
pub mod Cbuf
pub mod Outlet
pub mod State
pub mod Transmit
pub mod Receive
pub mod Packet
pub mod Lifecycle
pub mod Overloads
pub mod OnClient
pub mod Deleted
