-- ===== src/Transport.antt =====
-- goproxy/transport: the connection-caching client transport.
pub mod Pool
pub mod Method
pub mod Connection
pub mod Dialling
pub mod Environment
pub mod BodySignal
