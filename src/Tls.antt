-- ===== src/Tls.antt =====
-- src/tcp_bearssl.cpp: the glue between lwIP and the BearSSL engine.
pub mod State
pub mod Registry
pub mod X509
pub mod Pem
pub mod ServerContext
pub mod Process
pub mod Io
pub mod Suites
pub mod Progress
pub mod Writing
pub mod Delivery
pub mod Freed
pub mod Plaintext
pub mod Ciphertext
