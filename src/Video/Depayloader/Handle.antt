-- ===== src/Video/Depayloader/Handle.antt =====
-- `handle_packet` of src/stream/proto/video/depayloader.rs.
use moonlight_common_rust.Common.{
  ℕ, zero, suc, ◌+◌, ◌%◌, true, false, none, some, Bytes, length, drop, slice, min, leb, ◌==◌,
  if◌then◌else◌, Outcome, ok, err, out_of_fuel, ◌>>=◌, ◌>>◌, assert, saturating_add_u8,
}
use moonlight_common_rust.Common.Map.{get, insert}
use moonlight_common_rust.ReedSolomon.{ReedSolomon}
use moonlight_common_rust.Video.Packet.{
  deserialize_rtp, deserialize_video, rtp_video_header_size, video_header_size, RtpVideoHeader,
  VideoHeader,
}
use moonlight_common_rust.Video.Depayloader.{packet_invalid_size, VideoDepayloader}
use moonlight_common_rust.Video.Depayloader.Construct.{Failure, try_construct_fec_block}

abbrev pub rtp_header_of : Bytes → RtpVideoHeader
rtp_header_of packet = deserialize_rtp (slice 0 rtp_video_header_size packet)

abbrev pub video_header_of : Bytes → VideoHeader
video_header_of packet =
    deserialize_video
      (slice rtp_video_header_size (rtp_video_header_size + video_header_size) packet)

-- Each block that is finished uses up one index, and a block index has two bits.
abbrev pub max_rounds : ℕ
max_rounds = 256

-- A packet is stored under its sequence number.
unfoldable pub store_packet : VideoDepayloader → Bytes → VideoDepayloader
store_packet d packet = record d {
  packets =
      insert (rtp_header_of packet).sequence_number
        (record {
          rtp_header = rtp_header_of packet;
          video_header = video_header_of packet;
          content = drop (rtp_video_header_size + video_header_size) packet;
        })
        d.packets;
}

-- The block to try first: that of the packet, or an earlier one that the frame waits for.
unfoldable pub first_block : VideoDepayloader → ℕ → ℕ → ℕ
first_block d frame_index block_index = elim (get frame_index d.frames) [
  | none ↦ block_index
  | some f ↦ min block_index f.current_block
]

module _ (rs : ReedSolomon) where
  -- `while self.try_construct_fec_block(..)? { .. }`
  unfoldable pub construct_blocks : ℕ → VideoDepayloader → ℕ → ℕ → Outcome Failure VideoDepayloader
  construct_blocks zero d frame_index block_index = out_of_fuel
  construct_blocks (suc fuel) d frame_index block_index =
      try_construct_fec_block rs d frame_index block_index >>= λ r. elim r.1 [
        | false ↦ ok r.0
        | true ↦ construct_blocks fuel r.0 frame_index (saturating_add_u8 block_index 1)
      ]

  unfoldable pub construct_stored : VideoDepayloader → Bytes → Outcome Failure VideoDepayloader
  construct_stored d packet =
      let header = video_header_of packet in
      let stored = store_packet d packet in
      construct_blocks max_rounds stored header.frame_index
        (first_block stored header.frame_index header.multi_fec_blocks.current_block)

  -- An error or a success, each with the state that is left.
  unfoldable pub handle_packet : VideoDepayloader → Bytes → Outcome Failure VideoDepayloader
  handle_packet d packet =
      if length packet == rtp_video_header_size + d.config.packet_size
      then assert (leb (rtp_video_header_size + video_header_size) (length packet))
        >> (if (video_header_of packet).flags % 2 == 1 then construct_stored d packet else ok d)
      else err (packet_invalid_size, d)
