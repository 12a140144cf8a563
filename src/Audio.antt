-- ===== src/Audio.antt =====
-- src/stream/proto/audio: Opus frames as RTP packets, and back.
pub mod Packet
pub mod Payloader
pub mod Depayloader
pub mod Examples
