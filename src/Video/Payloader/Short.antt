-- ===== src/Video/Payloader/Short.antt =====
-- `push_frame` on a frame that leaves room in its only payload.
use moonlight_common_rust.Common.{
  ℕ, zero, suc, ◌+◌, ◌-◌, ◌*◌, ◌≤◌, ◌<◌, ◌≡◌, refl, ◌∙◌, ap, length-drop, [], ◌∷◌, ◌++◌, Option,
  some, none, Bytes, length, take, drop, slice, min, ok, arith, take_all, div_ceil, div_ceil_unique,
  wrapping_add_u16, wrapping_add_u32, lt→ltb, append-nil,
}
use moonlight_common_rust.ReedSolomon.{ReedSolomon}
use moonlight_common_rust.Video.Packet.{
  ServerFrameType, VideoFrameHeader, VideoFecInfo, serialize_frame_header, deserialize_video,
  serialize_video, serialize_rtp, serialize_fec_info, deserialize_fec_info,
}
use moonlight_common_rust.Video.Payloader.{
  VideoPayloader, Block, pad, packet_headers, data_packet, data_packets, payload_at, fec_shards,
  header_size, push_frame, frame_header, parity_packets, parity_shards, generate_fec_block,
}
use moonlight_common_rust.Video.Payloader.Carry.{pushed}
use moonlight_common_rust.Video.Payloader.PushBlocks.{place, push_blocks_step, push_blocks_none}
use moonlight_common_rust.Video.Payloader.Shards.{
  shards, packets_of, data_packets_tail, payload-data_packet,
}

-- The FEC information that a packet announces.
pub fec_info_of : Bytes → VideoFecInfo
fec_info_of packet = (deserialize_video (slice 16 32 packet)).fec_info

fec_info_of-data_packet :
    (b : Block) (timestamp sequence_number shard_index : ℕ) (payload : Bytes)
    → b.data_shards ≡ 1
    → shard_index < 1024
    → ((fec_info_of (data_packet b timestamp sequence_number shard_index payload)).data_shards_total
        ≡ 1)
      × ((fec_info_of (data_packet b timestamp sequence_number shard_index payload)).shard_index
          ≡ shard_index)
unfolding fec_info_of data_packet packet_headers serialize_rtp serialize_video deserialize_video
    serialize_fec_info deserialize_fec_info
fec_info_of-data_packet b timestamp sn i payload e h = omega arith

short_packets :
    (b : Block) (timestamp sequence_number fuel : ℕ) (header : VideoFrameHeader) (frame : Bytes)
    → 0 < length frame
    → length frame + 8 ≤ b.payload_len
    → length frame + 8 < fuel
    → data_packets fuel b timestamp (some header) frame 0 sequence_number 0
      ≡ ok (
          data_packet b timestamp sequence_number 0
            (pad b.payload_len (serialize_frame_header header ++ take (length frame - 8) frame))
          ∷ data_packet b timestamp
              (wrapping_add_u16 sequence_number 1)
              1
              (pad b.payload_len (take b.payload_len (drop (length frame - 8) frame)))
          ∷ [])
unfolding data_packets payload_at packets_of shards
short_packets b timestamp sn zero header frame h0 h8 hf = absurd (omega arith)
short_packets b timestamp sn (suc fuel) header frame h0 h8 hf =
    let go : 0 < length frame + 8 = omega arith in
    let m : min b.payload_len (length frame) - 8 ≡ length frame - 8 = omega arith in
    let z : length frame - 8 - 0 ≡ length frame - 8 = omega arith in
    let tail =
      data_packets_tail 1 fuel b timestamp (length frame - 8) (wrapping_add_u16 sn 1) 1
        (some header) frame (omega arith) (omega arith) (omega arith) (omega arith) in
    rw (lt→ltb _ _ go, data_packets, m, z, tail) refl

abbrev short_block : VideoPayloader → Block
short_block p = record {
  payload_len = p.payload_len;
  frame_index = p.frame_index;
  blocks = place 1 0;
  data_shards = 1;
  fec_percentage = 0;
}

abbrev first_packet : VideoPayloader → ℕ → VideoFrameHeader → Bytes → Bytes
first_packet p timestamp header frame =
    data_packet (short_block p) timestamp p.sequence_number 0
      (pad p.payload_len (serialize_frame_header header ++ take (length frame - 8) frame))

abbrev second_packet : VideoPayloader → ℕ → Bytes → Bytes
second_packet p timestamp frame =
    data_packet (short_block p) timestamp (wrapping_add_u16 p.sequence_number 1) 1
      (pad p.payload_len (take p.payload_len (drop (length frame - 8) frame)))

generate_short :
    (rs : ReedSolomon) (p : VideoPayloader) (timestamp : ℕ) (header : VideoFrameHeader)
    (frame : Bytes)
    → p.fec_config ≡ none
    → 0 < length frame
    → length frame + 8 ≤ p.payload_len
    → generate_fec_block rs p p.sequence_number (some header) (place 1 0) timestamp frame
      ≡ ok (
        record p {
          packet_queue =
              p.packet_queue
              ++ first_packet p timestamp header frame ∷ second_packet p timestamp frame ∷ [];
        },
        2,
      )
unfolding generate_fec_block fec_shards parity_shards parity_packets
generate_short rs p timestamp header frame nofec h0 h8 =
    let one : div_ceil (length frame + 8) p.payload_len ≡ 1 =
      div_ceil_unique (length frame + 8) p.payload_len 1 (omega arith) (omega arith)
        (omega arith) in
    rw
      (
        nofec,
        one,
        short_packets (short_block p) timestamp p.sequence_number (suc (length frame + 8)) header
            frame h0 h8 (omega arith),
      )
      (rw append-nil refl)

-- Without FEC, a frame that is not empty and that fits in one payload with its header is sent in two
-- packets that both announce one data shard: the first carries the header and the frame without its
-- last 8 bytes (or without any, if it has no more), with zeros up to a full payload, and the second, with
-- shard index 1, carries those bytes, with zeros behind them, too.
pub push_frame_short :
    (rs : ReedSolomon) (p : VideoPayloader) (timestamp : ℕ) (latency : Option ℕ)
    (frame_type : ServerFrameType) (frame : Bytes)
    → p.fec_config ≡ none
    → 1 ≤ p.max_data_shards_per_block
    → 0 < length frame
    → length frame + 8 ≤ p.payload_len
    → (p' : VideoPayloader) × (first second : Bytes) × (push_frame rs p timestamp latency frame_type
          frame
        ≡ ok p')
      × (p'.packet_queue ≡ p.packet_queue ++ first ∷ second ∷ [])
      × ((fec_info_of first).data_shards_total ≡ 1)
      × ((fec_info_of second).data_shards_total ≡ 1)
      × ((fec_info_of second).shard_index ≡ 1)
      × (drop header_size first
          ≡ pad p.payload_len (
              serialize_frame_header (frame_header p latency frame_type frame)
              ++ take (length frame - 8) frame))
      × (drop header_size second ≡ pad p.payload_len (drop (length frame - 8) frame))
unfolding push_frame
push_frame_short rs p timestamp latency frame_type frame nofec h1 h0 h8 =
    let header = frame_header p latency frame_type frame in
    let one : div_ceil (8 + length frame) p.payload_len ≡ 1 =
      div_ceil_unique (8 + length frame) p.payload_len 1 (omega arith) (omega arith)
        (omega arith) in
    let one' : div_ceil 1 p.max_data_shards_per_block ≡ 1 =
      div_ceil_unique 1 p.max_data_shards_per_block 1 (omega arith) (omega arith) (omega arith) in
    let first = first_packet p timestamp header frame in
    let second = second_packet p timestamp frame in
    let room : p.payload_len ≤ p.payload_len * p.max_data_shards_per_block = grind arith in
    let all : slice 0 (length frame) frame ≡ frame =
      take_all (length frame - 0) frame (omega arith) in
    let step =
      push_blocks_step rs zero 1 0 0 (length frame) timestamp header frame p (some header)
        (first ∷ second ∷ []) refl (omega arith) (omega arith)
        (rw all (generate_short rs p timestamp header frame nofec h0 h8)) in
    let done =
      step
      ∙ push_blocks_none rs 1 (0 + 1) (length frame) timestamp header frame
          (pushed p (first ∷ second ∷ [])) in
    (
      record p {
        packet_queue = p.packet_queue ++ first ∷ second ∷ [];
        sequence_number = wrapping_add_u16 p.sequence_number 2;
        frame_index = wrapping_add_u32 p.frame_index 1;
      },
      first,
      second,
      rw (one, one', done) refl,
      refl,
      (fec_info_of-data_packet (short_block p) timestamp p.sequence_number 0 _ refl
          (omega arith)).0,
      (fec_info_of-data_packet (short_block p) timestamp (wrapping_add_u16 p.sequence_number 1) 1 _
          refl (omega arith)).0,
      (fec_info_of-data_packet (short_block p) timestamp (wrapping_add_u16 p.sequence_number 1) 1 _
          refl (omega arith)).1,
      payload-data_packet (short_block p) timestamp p.sequence_number 0 _,
      payload-data_packet (short_block p) timestamp (wrapping_add_u16 p.sequence_number 1) 1 _
          ∙ ap (pad p.payload_len) (
              take_all p.payload_len (drop (length frame - 8) frame)
                (omega (arith, length-drop (length frame - 8) frame))),
    )
