-- ===== src/Proxy.antt =====
-- goproxy/proxy.go and the parts of the package that it calls while it serves a request.
pub mod Headers
pub mod Filters
pub mod Network
pub mod Serve
