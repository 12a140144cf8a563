-- ===== src/Rtsp.antt =====
-- src/stream/proto/rtsp: the encryption of its messages.
pub mod Encryption
mod Examples
