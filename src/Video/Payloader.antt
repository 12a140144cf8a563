-- ===== src/Video/Payloader.antt =====
-- src/stream/proto/video/payloader.rs: a frame becomes a queue of video packets. Logging is left
-- out; a write into a zeroed packet is the written bytes with zeros behind them.
pub mod Shards
pub mod FecBlock
pub mod Carry
pub mod PushBlocks
pub mod Frame
pub mod Short
use moonlight_common_rust.Common.{
  ℕ, zero, suc, ◌+◌, ◌-◌, ◌*◌, ◌/◌, ◌%◌, ◌^◌, Bool, true, false, ◌&&◌, ◌||◌, not, List, [], ◌∷◌,
  ◌++◌, map, Option, none, some, Bytes, length, take, drop, slice, replicate, min, max, ltb, leb,
  ◌==◌, if◌then◌else◌, div_ceil, wrapping_add_u16, wrapping_add_u32, Outcome, ok, panic,
  out_of_fuel, ◌>>=◌, ◌>>◌, assert,
}
use moonlight_common_rust.ReedSolomon.{ReedSolomon}
use moonlight_common_rust.Video.Packet.{
  RtpVideoHeader, VideoHeader, VideoMultiFecBlocks, VideoFrameHeader, ServerFrameType,
  serialize_rtp, serialize_video, serialize_frame_header, flags_from_index, contains_video_data,
  rtp_video_header_size, video_header_size, video_frame_header_size, video_flag_extension,
  max_video_shards_per_fec_block, fec_percentage_to_parity_shards, fec_percentage_from,
}

pub record VideoPayloaderFecConfig : Type 0 where
  pub min_required_fec_packets : ℕ
  pub fec_percentage : ℕ

pub record VideoPayloaderConfig : Type 0 where
  pub packet_size : ℕ
  pub max_data_shards_per_block : ℕ
  pub fec : Option VideoPayloaderFecConfig

pub record VideoPayloader : Type 0 where
  pub payload_len : ℕ
  pub max_data_shards_per_block : ℕ
  pub fec_config : Option VideoPayloaderFecConfig
  pub sequence_number : ℕ
  pub frame_index : ℕ
  pub packet_queue : List Bytes

abbrev pub header_size : ℕ
header_size = rtp_video_header_size + video_header_size

unfoldable pub new : VideoPayloaderConfig → Outcome ⊥ VideoPayloader
new config = do
  assert (ltb video_header_size config.packet_size)
  let payload_len = config.packet_size - video_header_size
  assert (leb 8 payload_len)
  ok (record {
    payload_len = payload_len;
    max_data_shards_per_block = min (max config.max_data_shards_per_block 1) 100;
    fec_config = config.fec;
    sequence_number = 0;
    frame_index = 1;
    packet_queue = [];
  })

unfoldable pub set_fec_config : VideoPayloader → Option VideoPayloaderFecConfig → VideoPayloader
set_fec_config p config = record p { fec_config = config }

unfoldable pub poll_packet : VideoPayloader → VideoPayloader × Option Bytes
poll_packet p = elim p.packet_queue [
  | [] ↦ (p, none)
  | packet ∷ rest ↦ (record p { packet_queue = rest }, some packet)
]

-- `copy_from_slice` of `xs` to the front of a zeroed buffer of `n` bytes.
abbrev pub pad : ℕ → Bytes → Bytes
pad n xs = xs ++ replicate (n - length xs) 0

-- What all packets of one FEC block share.
pub record Block : Type 0 where
  pub payload_len : ℕ
  pub frame_index : ℕ
  pub blocks : VideoMultiFecBlocks
  pub data_shards : ℕ
  pub fec_percentage : ℕ

unfoldable pub packet_headers : Block → ℕ → ℕ → ℕ → ℕ → Bytes
packet_headers b timestamp flags sequence_number shard_index =
    serialize_rtp (record {
      header = 0x80 + video_flag_extension;
      packet_type = 0;
      sequence_number = sequence_number;
      timestamp = timestamp;
      ssrc = 0;
      reserved = replicate 4 0;
    })
    ++ serialize_video (record {
      stream_packet_index = sequence_number * 2 ^ 8;
      frame_index = b.frame_index;
      flags = flags;
      extra_flags = 0;
      multi_fec_flags = 0x10;
      multi_fec_blocks = b.blocks;
      fec_info = record {
        data_shards_total = b.data_shards % 2 ^ 32;
        shard_index = shard_index % 2 ^ 32;
        fec_percentage = b.fec_percentage % 2 ^ 32;
        unused = 0;
      };
    })

unfoldable pub data_packet : Block → ℕ → ℕ → ℕ → Bytes → Bytes
data_packet b timestamp sequence_number shard_index payload =
    packet_headers b timestamp
      (flags_from_index shard_index b.data_shards true b.blocks.current_block
        b.blocks.last_block_index)
      sequence_number shard_index
    ++ payload

unfoldable pub parity_packet : Block → ℕ → ℕ → Bytes → Bytes
parity_packet b sequence_number shard_index shard =
    packet_headers b 0 contains_video_data sequence_number shard_index ++ shard

-- The payload of the packet at `position` of the block, and the position behind it.
unfoldable pub payload_at : ℕ → Option VideoFrameHeader → Bytes → ℕ → Bytes × ℕ
payload_at payload_len (some header) block_data zero =
    let frame_end = min payload_len (length block_data) - video_frame_header_size in
    (
      pad payload_len (serialize_frame_header header ++ slice 0 frame_end block_data),
      video_frame_header_size + frame_end,
    )
payload_at payload_len (some header) block_data (suc n) =
    let frame_start = suc n - video_frame_header_size in
    let frame_end = min (frame_start + payload_len) (length block_data) in
    (pad payload_len (slice frame_start frame_end block_data), suc n + (frame_end - frame_start))
payload_at payload_len none block_data position =
    let frame_end = min (position + payload_len) (length block_data) in
    (pad payload_len (slice position frame_end block_data), position + (frame_end - position))

abbrev pub frame_header_opt : Option VideoFrameHeader → ℕ
frame_header_opt none = 0
frame_header_opt (some header) = video_frame_header_size

-- The packets of the data shards, from `position` on: the `while` loop of `generate_fec_block`.
unfoldable pub data_packets :
    ℕ → Block → ℕ → Option VideoFrameHeader → Bytes → ℕ → ℕ → ℕ → Outcome ⊥ (List Bytes)
data_packets zero b timestamp header block_data position sequence_number count = out_of_fuel
data_packets (suc fuel) b timestamp header block_data position sequence_number count =
    elim (ltb position (length block_data + frame_header_opt header)) [
      | false ↦ ok []
      | true ↦
          let (payload, next) = payload_at b.payload_len header block_data position in
          data_packets fuel b timestamp header block_data next (wrapping_add_u16 sequence_number 1)
            (count + 1)
          >>= λ rest. ok (data_packet b timestamp sequence_number count payload ∷ rest)
    ]

unfoldable pub parity_packets : Block → List Bytes → ℕ → ℕ → List Bytes
parity_packets b [] sequence_number count = []
parity_packets b (shard ∷ shards) sequence_number count =
    parity_packet b sequence_number count shard
    ∷ parity_packets b shards (wrapping_add_u16 sequence_number 1) (count + 1)

-- The parity shards of a block, and the percentage that is sent.
unfoldable pub fec_shards : Option VideoPayloaderFecConfig → ℕ → Outcome ⊥ (ℕ × ℕ)
fec_shards none data_shards = ok (0, 0)
fec_shards (some config) data_shards =
    let parity = fec_percentage_to_parity_shards data_shards config.fec_percentage in
    if ltb 0 config.fec_percentage || ltb 0 config.min_required_fec_packets
    then if ltb parity config.min_required_fec_packets
      then assert (ltb 0 data_shards)
        >> ok (
          config.min_required_fec_packets,
          fec_percentage_from data_shards config.min_required_fec_packets,
        )
      else ok (parity, config.fec_percentage)
    else ok (0, 0)

-- The payloads of the last `data_shards` packets of the queue.
abbrev pub encoded_shards : ℕ → List Bytes → List Bytes
encoded_shards data_shards queue = map (drop header_size) (drop (length queue - data_shards) queue)

abbrev pub or_panic : Option (List Bytes) → Outcome ⊥ (List Bytes)
or_panic none = panic
or_panic (some a) = ok a

-- The header that `push_frame` makes. The latency is in microseconds.
unfoldable pub frame_header : VideoPayloader → Option ℕ → ServerFrameType → Bytes → VideoFrameHeader
frame_header p latency frame_type frame =
    let full_frame_len = video_frame_header_size + length frame in
    let last_payload_len =
      if full_frame_len % p.payload_len == 0
      then p.payload_len
      else full_frame_len % p.payload_len in
    record {
      header_type = 0x01;
      host_processing_latency = elim latency [ none ↦ 0 | some micros ↦ micros / 100 % 2 ^ 16 ];
      frame_type = frame_type;
      last_payload_len = last_payload_len % 2 ^ 16;
      reserved = replicate 2 0;
    }

module _ (rs : ReedSolomon) where
  unfoldable pub parity_shards : ℕ → ℕ → ℕ → List Bytes → Outcome ⊥ (List Bytes)
  parity_shards payload_len data_shards zero queue = ok []
  parity_shards payload_len data_shards (suc parity) queue = do
    assert (rs.new data_shards (suc parity))
    assert (leb data_shards (length queue) && leb data_shards max_video_shards_per_fec_block)
    assert (leb (suc parity) max_video_shards_per_fec_block)
    or_panic (rs.encode_sep data_shards (suc parity) payload_len (encoded_shards data_shards queue))

  -- The result is the new payloader and the number of packets produced.
  unfoldable pub generate_fec_block :
      VideoPayloader
      → ℕ
      → Option VideoFrameHeader
      → VideoMultiFecBlocks
      → ℕ
      → Bytes
      → Outcome ⊥ (VideoPayloader × ℕ)
  generate_fec_block p sequence_number header blocks timestamp block_data = do
    let full_frame_len = length block_data + frame_header_opt header
    let data_shards = div_ceil full_frame_len p.payload_len
    (parity, percentage) ← fec_shards p.fec_config data_shards
    let b : Block = record {
      payload_len = p.payload_len;
      frame_index = p.frame_index;
      blocks = blocks;
      data_shards = data_shards;
      fec_percentage = percentage;
    }
    packets ← data_packets (suc full_frame_len) b timestamp header block_data 0 sequence_number 0
    let queue = p.packet_queue ++ packets
    shards ← parity_shards p.payload_len data_shards parity queue
    let fec_packets =
        parity_packets b shards (wrapping_add_u16 sequence_number (length packets)) (length packets)
    ok (record p { packet_queue = queue ++ fec_packets }, length packets + length fec_packets)

  -- `for block in 0..blocks`, with `rounds` blocks left.
  unfoldable pub push_blocks :
      ℕ → ℕ → ℕ → ℕ → ℕ → VideoFrameHeader → Bytes → VideoPayloader → Outcome ⊥ VideoPayloader
  push_blocks zero blocks block start timestamp header frame p = ok p
  push_blocks (suc rounds) blocks block start timestamp header frame p = do
    let block_len = p.payload_len * p.max_data_shards_per_block
    let first : Bool = block == 0
    let end =
        min (if first then start + block_len - video_frame_header_size else start + block_len)
          (length frame)
    assert (leb start end)
    (p', packets) ←
        generate_fec_block p p.sequence_number (if first then some header else none)
          (record {
            last_block_index = (blocks - 1) % 2 ^ 8;
            current_block = block % 2 ^ 8;
            unused = 0;
          })
          timestamp (slice start end frame)
    push_blocks rounds blocks (block + 1) end timestamp header frame
        (record p' { sequence_number = wrapping_add_u16 p'.sequence_number (packets % 2 ^ 16) })

  unfoldable pub push_frame :
      VideoPayloader → ℕ → Option ℕ → ServerFrameType → Bytes → Outcome ⊥ VideoPayloader
  push_frame p timestamp latency frame_type frame = do
    let full_frame_len = video_frame_header_size + length frame
    let data_shards = div_ceil full_frame_len p.payload_len
    let blocks = div_ceil data_shards p.max_data_shards_per_block
    p' ← push_blocks blocks blocks 0 0 timestamp (frame_header p latency frame_type frame) frame p
    ok (record p' { frame_index = wrapping_add_u32 p'.frame_index 1 })
