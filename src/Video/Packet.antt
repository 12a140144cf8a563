-- ===== src/Video/Packet.antt =====
-- src/stream/proto/video/packet.rs: the headers of a video packet and the FEC percentage. The
-- enum ServerFrameType is that of src/stream/video.rs. A `[u8; N]` buffer is a list of bytes;
-- `serialize` writes every byte of its buffer, so its model returns the written buffer.
pub mod RoundTrip
pub mod Fec
use Prim.Native.Nat.{bit_or}
use moonlight_common_rust.Common.{
  ℕ, suc, ◌+◌, ◌-◌, ◌*◌, ◌/◌, ◌%◌, ◌^◌, ◌<◌, Bool, true, false, ◌&&◌, List, [], ◌∷◌, ◌++◌, Bytes,
  byte, u16_to_be, u16_to_le, u32_to_be, u32_to_le, u16_from_be, u16_from_le, u32_from_be,
  u32_from_le, div_ceil, ◌==◌, if◌then◌else◌, slice,
}

abbrev pub max_video_shards_per_fec_block : ℕ
max_video_shards_per_fec_block = 255

abbrev pub max_video_fec_blocks : ℕ
max_video_fec_blocks = 4

-- The encryption header in front of an encrypted packet.
pub record EncryptedVideoHeader : Type 0 where
  pub iv : Bytes
  pub frame_number : ℕ
  pub tag : Bytes

unfoldable pub deserialize_encrypted_header : Bytes → EncryptedVideoHeader
deserialize_encrypted_header buffer = record {
  iv = slice 0 12 buffer;
  frame_number = u32_from_le (byte buffer 12) (byte buffer 13) (byte buffer 14) (byte buffer 15);
  tag = slice 16 32 buffer;
}

abbrev pub video_flag_extension : ℕ
video_flag_extension = 0x10

pub record RtpVideoHeader : Type 0 where
  pub header : ℕ
  pub packet_type : ℕ
  pub sequence_number : ℕ
  pub timestamp : ℕ
  pub ssrc : ℕ
  pub reserved : Bytes

abbrev pub rtp_video_header_size : ℕ
rtp_video_header_size = 16

unfoldable pub deserialize_rtp : Bytes → RtpVideoHeader
deserialize_rtp buffer = record {
  header = byte buffer 0;
  packet_type = byte buffer 1;
  sequence_number = u16_from_be (byte buffer 2) (byte buffer 3);
  timestamp = u32_from_be (byte buffer 4) (byte buffer 5) (byte buffer 6) (byte buffer 7);
  ssrc = u32_from_be (byte buffer 8) (byte buffer 9) (byte buffer 10) (byte buffer 11);
  reserved = byte buffer 12 ∷ byte buffer 13 ∷ byte buffer 14 ∷ byte buffer 15 ∷ [];
}

unfoldable pub serialize_rtp : RtpVideoHeader → Bytes
serialize_rtp h =
    h.header
    ∷ h.packet_type
    ∷ (u16_to_be h.sequence_number ++ (u32_to_be h.timestamp ++ (u32_to_be h.ssrc ++ h.reserved)))

-- VideoHeaderFlags, as its bits.
abbrev pub contains_video_data : ℕ
contains_video_data = 0x01

abbrev pub end_of_file : ℕ
end_of_file = 0x02

abbrev pub start_of_file : ℕ
start_of_file = 0x04

unfoldable pub flags_from_index : ℕ → ℕ → Bool → ℕ → ℕ → ℕ
flags_from_index index total_size has_data current_block last_block =
    let data_flag : ℕ = if has_data then contains_video_data else 0 in
    let start_flag : ℕ = if index == 0 && current_block == 0 then start_of_file else 0 in
    let end_flag : ℕ =
      if index == total_size - 1 && current_block == last_block then end_of_file else 0 in
    bit_or (bit_or data_flag start_flag) end_flag

pub record VideoMultiFecBlocks : Type 0 where
  pub last_block_index : ℕ
  pub current_block : ℕ
  pub unused : ℕ

unfoldable pub deserialize_blocks : ℕ → VideoMultiFecBlocks
deserialize_blocks value = record {
  last_block_index = value / 2 ^ 6 % 2 ^ 2;
  current_block = value / 2 ^ 4 % 2 ^ 2;
  unused = value % 2 ^ 4;
}

-- The masked fields do not overlap, so `|` is a sum.
unfoldable pub serialize_blocks : VideoMultiFecBlocks → ℕ
serialize_blocks b =
    b.last_block_index % 2 ^ 2 * 2 ^ 6 + b.current_block % 2 ^ 2 * 2 ^ 4 + b.unused % 2 ^ 4

pub record VideoFecInfo : Type 0 where
  pub data_shards_total : ℕ
  pub shard_index : ℕ
  pub fec_percentage : ℕ
  pub unused : ℕ

unfoldable pub deserialize_fec_info : ℕ → VideoFecInfo
deserialize_fec_info value = record {
  data_shards_total = value / 2 ^ 22 % 2 ^ 10;
  shard_index = value / 2 ^ 12 % 2 ^ 10;
  fec_percentage = value / 2 ^ 4 % 2 ^ 8;
  unused = value % 2 ^ 4;
}

unfoldable pub serialize_fec_info : VideoFecInfo → ℕ
serialize_fec_info f =
    f.data_shards_total % 2 ^ 10 * 2 ^ 22
    + f.shard_index % 2 ^ 10 * 2 ^ 12
    + f.fec_percentage % 2 ^ 8 * 2 ^ 4
    + f.unused % 2 ^ 4

pub record VideoHeader : Type 0 where
  pub stream_packet_index : ℕ
  pub frame_index : ℕ
  pub flags : ℕ
  pub extra_flags : ℕ
  pub multi_fec_flags : ℕ
  pub multi_fec_blocks : VideoMultiFecBlocks
  pub fec_info : VideoFecInfo

abbrev pub video_header_size : ℕ
video_header_size = 16

unfoldable pub deserialize_video : Bytes → VideoHeader
deserialize_video buffer = record {
  stream_packet_index = u32_from_le (byte buffer 0) (byte buffer 1) (byte buffer 2) (byte buffer 3);
  frame_index = u32_from_le (byte buffer 4) (byte buffer 5) (byte buffer 6) (byte buffer 7);
  flags = byte buffer 8;
  extra_flags = byte buffer 9;
  multi_fec_flags = byte buffer 10;
  multi_fec_blocks = deserialize_blocks (byte buffer 11);
  fec_info =
      deserialize_fec_info
        (u32_from_le (byte buffer 12) (byte buffer 13) (byte buffer 14) (byte buffer 15));
}

unfoldable pub serialize_video : VideoHeader → Bytes
serialize_video h =
    u32_to_le h.stream_packet_index
    ++ (u32_to_le h.frame_index
        ++ (h.flags
            ∷ h.extra_flags
            ∷ h.multi_fec_flags
            ∷ serialize_blocks h.multi_fec_blocks
            ∷ u32_to_le (serialize_fec_info h.fec_info)))

unfoldable pub fec_percentage_to_parity_shards : ℕ → ℕ → ℕ
fec_percentage_to_parity_shards data_shards fec_percentage =
    div_ceil (data_shards * fec_percentage) 100

-- No caller passes 0 data shards; the source would panic on that division.
unfoldable pub fec_percentage_from : ℕ → ℕ → ℕ
fec_percentage_from data_shards parity_shards = 100 * parity_shards / data_shards

pub data ServerFrameType : Type 0 where
  p_frame idr p_frame_intra p_frame_reference_invalidation : ServerFrameType
  other : ℕ → ServerFrameType

unfoldable pub serialize_frame_type : ServerFrameType → ℕ
serialize_frame_type p_frame = 1
serialize_frame_type idr = 2
serialize_frame_type p_frame_intra = 4
serialize_frame_type p_frame_reference_invalidation = 5
serialize_frame_type (other value) = value

unfoldable pub deserialize_frame_type : ℕ → ServerFrameType
deserialize_frame_type value =
    if value == 1
    then p_frame
    else if value == 2
    then idr
    else if value == 4
    then p_frame_intra
    else if value == 5
    then p_frame_reference_invalidation
    else other value

pub record VideoFrameHeader : Type 0 where
  pub header_type : ℕ
  pub host_processing_latency : ℕ
  pub frame_type : ServerFrameType
  pub last_payload_len : ℕ
  pub reserved : Bytes

abbrev pub video_frame_header_size : ℕ
video_frame_header_size = 8

unfoldable pub deserialize_frame_header : Bytes → VideoFrameHeader
deserialize_frame_header buffer = record {
  header_type = byte buffer 0;
  host_processing_latency = u16_from_le (byte buffer 1) (byte buffer 2);
  frame_type = deserialize_frame_type (byte buffer 3);
  last_payload_len = u16_from_le (byte buffer 4) (byte buffer 5);
  reserved = byte buffer 6 ∷ byte buffer 7 ∷ [];
}

unfoldable pub serialize_frame_header : VideoFrameHeader → Bytes
serialize_frame_header h =
    h.header_type
    ∷ (u16_to_le h.host_processing_latency
        ++ (serialize_frame_type h.frame_type ∷ (u16_to_le h.last_payload_len ++ h.reserved)))
