-- ===== src/Smtp.antt =====
-- internal/smtp: outbound delivery, its signing, message building, and the relay.
pub mod Sender
pub mod Dkim
pub mod Message
pub mod Relay
