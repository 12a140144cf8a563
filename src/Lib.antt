-- ===== src/Lib.antt =====
-- moonlight-common-rust: the packet processing of the game-streaming protocol, without I/O.
--
-- The code (src/stream/proto) turns encoded frames into UDP packets on the host and packets into frames
-- on the client. A payloader keeps a queue of packets and numbers them; a depayloader keeps a map
-- of received packets and builds frames from them, with Reed-Solomon parity where packets are lost. The
-- client's input events go through a batcher that merges pointer motion and keeps track of keys and
-- controllers, and a ping sender keeps the UDP ports open. Control packets are turned into bytes by the
-- numbers of the server's generation and encrypted under an IV of their sequence number and direction; RTSP
-- messages are encrypted in the same way. A frame that is put together is cut into NAL units for a decoder.
--
-- Files and what they model:
--   Common          lists, words, maps and results that all parts share
--   ReedSolomon     the interface of the crate fec_rs, which is not part of the repository
--   Crypto          src/stream/proto/crypto/mod.rs: the trait CryptoBackend as a record, buffer lengths
--   Version         ServerVersion of src/lib.rs
--   Video/Packet    src/stream/proto/video/packet.rs: `deserialize` and `serialize` of each header as
--                   functions on byte lists, the FEC percentage
--   Video/Payloader src/stream/proto/video/payloader.rs: push_frame, generate_fec_block, poll_packet
--   Video/Depayloader  src/stream/proto/video/depayloader.rs: the state and its queries; in Construct
--                   try_construct_fec_block, in Handle handle_packet
--   Video/Nal       src/stream/proto/video/nal: parse_nalus of mod.rs and parse_frame of video/frame.rs; in
--                   Headers the NAL headers of h264.rs and h265.rs
--   Audio/Packet    src/stream/proto/audio/packet.rs
--   Audio/Payloader src/stream/proto/audio/payloader.rs: push_frame, poll_packet
--   Audio/Depayloader  src/stream/proto/audio/depayloader.rs: poll_frame, try_skip_samples; in Reconstruct
--                   try_reconstruct_fec_block, in Receive handle_packet
--   Input           src/stream/control.rs: CompactKeyStates, ActiveGamepads; in Input/Batch
--                   src/stream/proto/control/input_batcher.rs
--   Control/Config  the packet numbers in src/stream/proto/control/packet.rs
--   Control/Packet  ControlPacket of the same file: `serialize` in Serialize, arm by arm in Serialize/Parts,
--                   `deserialize` in Deserialize, its arms in Deserialize/Parts and Deserialize/Input; in Channel `channel`
--   Control/Encryption  src/stream/proto/control/encryption.rs
--   Rtsp/Encryption src/stream/proto/rtsp/encryption.rs and rtsp/packet.rs
--   Microphone      src/stream/proto/microphone/foundation: packet.rs, payloader.rs and the stream of mod.rs
--   Ping            src/stream/proto/ping.rs and the packet of src/stream/proto/packet.rs
-- The modules below these hold the proofs; those named Examples hold concrete runs.
--
-- How the state and the operations correspond: a struct is a record with the struct's fields, a BTreeMap
-- an association list in key order, a VecDeque a list. A `&mut self` method takes the state and returns
-- the state it leaves; a `&mut [u8]` to write to is an argument, and its new bytes a result. A result is an Outcome: a value, an error (with the state that is left, where an
-- operation changes state before it fails), or a panic, which is a failing index, slice, division or `unwrap`.
-- Headers are read from arrays of their own size, where an index cannot fail.
-- Numbers are natural numbers, with the wrap-around of u16 and u32 written out. The model is that of a
-- release build: `debug_assert` and logging are left out.
--
-- Bounds: a loop that is not over a list runs on fuel. The payloader's data loop has one round more than
-- the bytes of a block, since each round takes a byte at least; the block loop of the video
-- depayloader has 256 rounds, and a block index has two bits; poll_frame of the audio depayloader has
-- 131074 rounds, two turns of the 16-bit sequence number. That this is enough is proved.
--
-- Not modelled: the HTTP client and pairing, RTSP and SDP text, the state of the control stream and its
-- peer, which drive the crate for ENet, sockets, threads and timers, the bindings of
-- moonlight-common-c, and the crypto and FEC libraries themselves, which are parameters. In packet.rs,
-- ControlHeaderV2 and the constructor functions are left out.
pub mod Common
pub mod ReedSolomon
pub mod Version
pub mod Video
pub mod Crypto
pub mod Audio
pub mod Ping
pub mod Input
pub mod Control
pub mod Rtsp
pub mod Microphone
