-- ===== src/Control.antt =====
-- src/stream/proto/control: the control stream between client and host.
pub mod Config
pub mod Packet
pub mod Encryption
mod Examples
