-- ===== src/Video/Payloader/Frame.antt =====
-- `push_frame` without FEC: the payloads of the packets, put together, are the frame header and the
-- frame, and the packets are numbered in a row.
use moonlight_common_rust.Common.{
  ℕ, ◌+◌, ◌-◌, ◌*◌, ◌%◌, ◌^◌, ◌≤◌, ◌≡◌, refl, List, ◌++◌, map, Option, none, Bytes, IsU16, length,
  drop, replicate, ok, arith, length-append, div_ceil, wrapping_add_u32,
}
use moonlight_common_rust.ReedSolomon.{ReedSolomon}
use moonlight_common_rust.Video.Packet.{ServerFrameType, VideoFrameHeader, serialize_frame_header}
use moonlight_common_rust.Video.Payloader.{VideoPayloader, header_size, push_frame, frame_header}
use moonlight_common_rust.Video.Payloader.Shards.{concat, serialize_frame_header_len}
use moonlight_common_rust.Video.Payloader.Carry.{Numbered, Carries}
use moonlight_common_rust.Video.Payloader.PushBlocks.{push_blocks_lem, blocks_bounds}

-- What `push_frame` leaves: the packets behind the queue carry the header, the frame and zeros up to
-- a full payload; there are as many as that takes, with consecutive sequence numbers.
pub record Sends (p : VideoPayloader) (header : VideoFrameHeader) (frame : Bytes)
    (p' : VideoPayloader) (packets : List Bytes) : Type 0 where
  pub queued : p'.packet_queue ≡ p.packet_queue ++ packets
  pub content :
      concat (map (drop header_size) packets)
      ≡ (serialize_frame_header header ++ frame)
        ++ replicate (length packets * p.payload_len - (8 + length frame)) 0
  pub counted : length packets ≡ div_ceil (8 + length frame) p.payload_len
  pub numbered : Numbered p.sequence_number packets
  pub next_number : p'.sequence_number ≡ (p.sequence_number + length packets) % 2 ^ 16
  pub next_frame : p'.frame_index ≡ wrapping_add_u32 p.frame_index 1

Sends-Carries :
    (p p' : VideoPayloader) (header : VideoFrameHeader) (frame : Bytes) (packets : List Bytes)
    → length header.reserved ≡ 2
    → Carries p p' (serialize_frame_header header ++ frame) packets
    → Sends p header frame (record p' { frame_index = wrapping_add_u32 p'.frame_index 1 }) packets
Sends-Carries p p' header frame packets two c =
    let len : length (serialize_frame_header header ++ frame) ≡ 8 + length frame = omega (
      arith,
      length-append (serialize_frame_header header) frame,
      serialize_frame_header_len header two,
    ) in
    record {
      queued = c.queued;
      content = rw len at c.content;
      counted = rw len at c.counted;
      numbered = c.numbered;
      next_number = c.next_number;
      next_frame = rw c.same_frame refl;
    }

frame_header-reserved :
    (p : VideoPayloader) (latency : Option ℕ) (frame_type : ServerFrameType) (frame : Bytes)
    → length (frame_header p latency frame_type frame).reserved ≡ 2
unfolding frame_header
frame_header-reserved p latency frame_type frame = refl

-- Without FEC, for payloads of 8 bytes at least, blocks of 2 shards at least and a 16-bit sequence
-- number, `push_frame` returns on every frame that is at least as long as a payload and that takes no more than
-- the four blocks whose indices have two bits: it appends packets whose payloads, put
-- together, are the frame header, the frame, and zeros up to a full payload. There are as many as
-- the length asks for, their sequence numbers follow one another modulo 2^16 from the payloader's
-- on, and the sequence number and the frame index for the next frame are advanced.
pub push_frame-Sends :
    (rs : ReedSolomon) (p : VideoPayloader) (timestamp : ℕ) (latency : Option ℕ)
    (frame_type : ServerFrameType) (frame : Bytes)
    → p.fec_config ≡ none
    → 8 ≤ p.payload_len
    → 2 ≤ p.max_data_shards_per_block
    → IsU16 p.sequence_number
    → p.payload_len ≤ length frame
    → div_ceil (div_ceil (8 + length frame) p.payload_len) p.max_data_shards_per_block ≤ 4
    → (p' : VideoPayloader) × (packets : List Bytes) × (push_frame rs p timestamp latency frame_type
          frame
        ≡ ok p')
      × Sends p (frame_header p latency frame_type frame) frame p' packets
unfolding push_frame
push_frame-Sends rs p timestamp latency frame_type frame nofec h8 h2 hs long four =
    let blocks = div_ceil (div_ceil (8 + length frame) p.payload_len) p.max_data_shards_per_block in
    let (lo, hi) =
      blocks_bounds (8 + length frame) p.payload_len p.max_data_shards_per_block (omega arith)
        (omega arith) in
    let header = frame_header p latency frame_type frame in
    let two = frame_header-reserved p latency frame_type frame in
    let (p', packets, ran, c) =
      push_blocks_lem blocks blocks timestamp rs header frame p nofec h8 h2 hs two long
        (omega arith) (omega arith) in
    (
      record p' { frame_index = wrapping_add_u32 p'.frame_index 1 },
      packets,
      rw ran refl,
      Sends-Carries p p' header frame packets two c,
    )
