-- ===== src/Websocket.antt =====
-- goproxy/websocket.go: recognising an upgrade request, and serving it.
pub mod Upgrade
pub mod Serve
