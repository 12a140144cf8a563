-- ===== src/Video.antt =====
-- src/stream/proto/video: packets of the video stream, how a host makes them from a frame and how a
-- client puts the frame together again.
pub mod Packet
pub mod Nal
pub mod Payloader
pub mod Depayloader
pub mod Examples
