-- ===== src/Tests.antt =====
-- The theorems at concrete inputs.
mod Values
mod Serving
mod Tunnelling
mod Streams
mod Pooling
mod Sharing
mod Relays
mod Handling
mod Upgrades
mod Connecting
