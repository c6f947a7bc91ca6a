-- ===== src/WaGateway.antt =====
-- wa-gateway/: the WhatsApp gateway service.
pub mod Text
pub mod Session
pub mod Server
