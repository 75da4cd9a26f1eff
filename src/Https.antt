-- ===== src/Https.antt =====
-- goproxy/https.go.
pub mod Address
pub mod Tunnels
pub mod Answer
pub mod Mitm
pub mod Connect
pub mod Upstream
