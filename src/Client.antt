-- ===== src/Client.antt =====
-- src/ESPAsyncTCPClient.cpp and .h, built with ASYNC_TCP_SSL_ENABLED: one client, its lwIP
-- callbacks and the calls that an application makes on it.
pub mod State
pub mod Status
pub mod Teardown
pub mod Upcalls
pub mod Transmit
pub mod Receive
pub mod Poll
pub mod Connect
pub mod Entry
pub mod Create
pub mod Config
pub mod Access
pub mod Links
pub mod OverGlue
pub mod Names
pub mod Timing
pub mod Outcomes
pub mod Acknowledged
pub mod Accounted
pub mod Deletion
pub mod Secured
pub mod AbortContract
