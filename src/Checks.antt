-- ===== src/Checks.antt =====
-- The theorems at concrete inputs, and runs of the definitions.
mod Samples
mod Rings
mod OnTracker
mod OnClient
mod OnConnect
mod OnTransfer
mod OnServer
mod OnTls
mod OnBuffer
mod OnFlush
mod OnCertificates
mod OnLinks
mod Relay
mod OnPlaintext
mod OnOverGlue
mod OnSuites
mod OnCiphertext
