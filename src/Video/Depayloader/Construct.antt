-- ===== src/Video/Depayloader/Construct.antt =====
-- `try_construct_fec_block` of src/stream/proto/video/depayloader.rs. An error keeps the state that
-- the call has left behind.
use moonlight_common_rust.Common.{
  ℕ, zero, suc, ◌+◌, ◌-◌, ◌*◌, Bool, true, false, not, ◌&&◌, List, [], ◌∷◌, ◌++◌, none, some, Bytes,
  length, take, drop, set, find?, replicate, retain, ltb, leb, ◌==◌, if◌then◌else◌, Outcome, ok,
  err, panic, out_of_fuel, ◌>>=◌, ◌>>◌, assert,
}
use moonlight_common_rust.Common.Map.{Map, get, insert, update}
use moonlight_common_rust.ReedSolomon.{ReedSolomon, Shard}
use moonlight_common_rust.Video.Packet.{
  max_video_shards_per_fec_block, max_video_fec_blocks, fec_percentage_to_parity_shards,
}
use moonlight_common_rust.Video.Depayloader.{
  VideoDepayloaderError, reed_solomon, Packet, Frame, VideoDepayloader, payload_len, is_complete,
  is_of_frame, frame_of,
}

abbrev pub no_shards : List Bool
no_shards = replicate max_video_shards_per_fec_block false

-- The frame as it is made for the first packet that is known of it.
unfoldable pub new_frame : Packet → Frame
new_frame p = record {
  current_block = 0;
  buffer_offset = 0;
  available_shards = no_shards;
  total_data_shards = none;
  fec_percentage = none;
  last_block_index = p.video_header.multi_fec_blocks.last_block_index;
  timestamp = p.rtp_header.timestamp;
  buffer = [];
}

-- `buffer.resize(len, 0)` where the buffer is shorter.
abbrev pub grow : ℕ → Bytes → Bytes
grow len buffer = buffer ++ replicate (len - length buffer) 0

-- `buffer[start..start + content.len()].copy_from_slice(content)`
abbrev pub write_at : ℕ → Bytes → Bytes → Bytes
write_at start content buffer =
    take start buffer ++ (content ++ drop (start + length content) buffer)

abbrev pub shard_index_of : Packet → ℕ
shard_index_of p = p.video_header.fec_info.shard_index

abbrev pub is_of_block : ℕ → ℕ → Packet → Bool
is_of_block frame_index block_index p =
    p.video_header.frame_index == frame_index
    && p.video_header.multi_fec_blocks.current_block == block_index

-- A packet of the block marks its shard, and the first one tells how many shards there are.
unfoldable pub mark_shard : Frame → Packet → Frame
mark_shard f p =
    let marked = set f.available_shards (shard_index_of p) true in
    elim f.total_data_shards [
      | some total ↦ record f { available_shards = marked }
      | none ↦ record f {
        available_shards = marked;
        total_data_shards = some p.video_header.fec_info.data_shards_total;
        fec_percentage = some p.video_header.fec_info.fec_percentage;
      }
    ]

unfoldable pub copy_shard : ℕ → Frame → Packet → Frame
copy_shard len f p =
    let start = f.buffer_offset + len * shard_index_of p in
    record f { buffer = write_at start p.content (grow (start + len) f.buffer) }

-- One call of the closure of `retain`: the frame, and whether the packet is kept.
abbrev pub Failure : Type 0
Failure = VideoDepayloaderError × VideoDepayloader

unfoldable pub absorb_packet : ℕ → ℕ → ℕ → Frame → Packet → Outcome Failure (Frame × Bool)
absorb_packet len frame_index block_index f p =
    if not (is_of_block frame_index block_index p)
    then ok (f, true)
    else if leb max_video_fec_blocks p.video_header.multi_fec_blocks.last_block_index
    then ok (f, false)
    else if leb max_video_shards_per_fec_block (shard_index_of p)
    then ok (f, false)
    else if leb p.video_header.fec_info.data_shards_total (shard_index_of p)
    then ok (mark_shard f p, true)
    else assert (length p.content == len) >> ok (copy_shard len (mark_shard f p) p, false)

-- `self.packets.retain(..)`, in key order.
unfoldable pub absorb : ℕ → ℕ → ℕ → Frame → Map Packet → Outcome Failure (Frame × Map Packet)
absorb len frame_index block_index f [] = ok (f, [])
absorb len frame_index block_index f ((k, p) ∷ packets) = do
  (g, keep) ← absorb_packet len frame_index block_index f p
  (h, rest) ← absorb len frame_index block_index g packets
  ok (h, if keep then (k, p) ∷ rest else rest)

-- The data and the parity shards that are there, counted until they suffice.
unfoldable pub count_shards : ℕ → List Bool → ℕ → ℕ → ℕ → ℕ × ℕ
count_shards total [] index found parity = (found, parity)
count_shards total (false ∷ rest) index found parity =
    count_shards total rest (suc index) found parity
count_shards total (true ∷ rest) index found parity =
    let found' = if ltb index total then found + 1 else found in
    let parity' = if ltb index total then parity else parity + 1 in
    elim (leb total (found' + parity')) [
      | true ↦ (found', parity')
      | false ↦ count_shards total rest (suc index) found' parity'
    ]

-- `chunks_mut(len)` of the buffer, zipped with the flags of the data shards.
unfoldable pub data_chunks : ℕ → ℕ → List Bool → Bytes → List Shard
data_chunks zero len available bytes = []
data_chunks (suc n) len [] bytes = []
data_chunks (suc n) len (present ∷ rest) [] = []
data_chunks (suc n) len (present ∷ rest) (b ∷ bytes) =
    record { present = present; content = take len (b ∷ bytes) }
    ∷ data_chunks n len rest (drop len (b ∷ bytes))

abbrev pub no_shard : Shard
no_shard = record { present = false; content = [] }

-- The array of 255 shards, with the data shards at its front.
abbrev pub shard_array : List Shard → List Shard
shard_array chunks = chunks ++ replicate (max_video_shards_per_fec_block - length chunks) no_shard

unfoldable pub fill_parity : ℕ → ℕ → Map Packet → List Shard → Outcome Failure (List Shard)
fill_parity frame_index block_index [] shards = ok shards
fill_parity frame_index block_index ((k, p) ∷ packets) shards =
    let mine = is_of_block frame_index block_index p in
    let shard : Shard = record { present = true; content = p.content } in
    let filled = if mine then set shards (shard_index_of p) shard else shards in
    let inside = if mine then ltb (shard_index_of p) max_video_shards_per_fec_block else true in
    assert inside >> fill_parity frame_index block_index packets filled

unfoldable pub concat_shards : List Bytes → Bytes
concat_shards [] = []
concat_shards (x ∷ xs) = x ++ concat_shards xs

-- The block is done: on to the next one.
unfoldable pub next_block : ℕ → ℕ → Frame → Frame
next_block len total f = record f {
  current_block = f.current_block + 1;
  available_shards = no_shards;
  total_data_shards = none;
  buffer_offset = f.buffer_offset + total * len;
}

-- A complete frame gives up its packets, and is parsed once for the log.
unfoldable pub commit :
    VideoDepayloader
    → ℕ
    → Frame
    → Frame
    → Map Packet
    → Bool
    → Outcome Failure (VideoDepayloader × Bool)
commit d frame_index h g packets false =
    err (reed_solomon, record d { frames = update frame_index g d.frames; packets = packets })
commit d frame_index h g packets true = elim (is_complete h) [
  | false ↦ ok (record d { frames = update frame_index h d.frames; packets = packets }, true)
  | true ↦ elim (frame_of d frame_index h) [
    | ok r ↦ ok (
      record d {
        frames = update frame_index h d.frames;
        packets = retain (λ entry. not (is_of_frame frame_index entry)) packets;
      },
      true,
    )
    | err e ↦ absurd e
    | panic ↦ panic
    | out_of_fuel ↦ out_of_fuel
  ]
]

module _ (rs : ReedSolomon) where
  -- The codec fills in the data shards, which lie in the buffer.
  unfoldable pub run_codec : ℕ → ℕ → Frame → List Shard → Outcome Failure (Frame × Bool)
  run_codec total parity_total f shards = do
    assert (rs.new total parity_total)
    assert (leb (total + parity_total) max_video_shards_per_fec_block)
    let result : List Bytes × Bool =
        rs.reconstruct_data total parity_total (take (total + parity_total) shards)
    ok (record f { buffer = write_at f.buffer_offset (concat_shards result.0) f.buffer }, result.1)

  -- The buffer after recovery, and whether recovery succeeded.
  unfoldable pub recover : ℕ → ℕ → ℕ → ℕ → ℕ → Frame → Map Packet → Outcome Failure (Frame × Bool)
  recover len frame_index block_index total parity_total f packets = do
    let grown : Bytes = grow (f.buffer_offset + total * len) f.buffer
    let chunks : List Shard = data_chunks total len f.available_shards (drop f.buffer_offset grown)
    assert (ltb 0 len)
    shards ← fill_parity frame_index block_index packets (shard_array chunks)
    run_codec total parity_total (record f { buffer = grown }) shards

  unfoldable pub recover_if :
      Bool → ℕ → ℕ → ℕ → ℕ → ℕ → Frame → Map Packet → Outcome Failure (Frame × Bool)
  recover_if true len frame_index block_index total parity_total f packets =
      recover len frame_index block_index total parity_total f packets
  recover_if false len frame_index block_index total parity_total f packets = ok (f, true)

  -- With enough shards: recover what is missing, and go on to the next block.
  unfoldable pub finish_block :
      VideoDepayloader
      → ℕ
      → ℕ
      → Frame
      → Map Packet
      → ℕ
      → ℕ
      → ℕ
      → Outcome Failure (VideoDepayloader × Bool)
  finish_block d frame_index block_index f packets total percentage parity = do
    let parity_total = fec_percentage_to_parity_shards total percentage
    (g, success) ←
        recover_if (ltb 0 parity) (payload_len d) frame_index block_index total parity_total f
          packets
    commit d frame_index (next_block (payload_len d) total g) g packets success

  -- With the packets of the block taken in: is it complete?
  unfoldable pub try_finish :
      VideoDepayloader → ℕ → ℕ → Frame → Map Packet → Outcome Failure (VideoDepayloader × Bool)
  try_finish d frame_index block_index f packets =
      let waiting = record d { frames = update frame_index f d.frames; packets = packets } in
      elim f.total_data_shards [
        | none ↦ ok (waiting, false)
        | some total ↦ elim f.fec_percentage [
          | none ↦ panic
          | some percentage ↦
              let counted = count_shards total f.available_shards 0 0 0 in
              if ltb (counted.0 + counted.1) total
              then ok (waiting, false)
              else finish_block d frame_index block_index f packets total percentage counted.1
        ]
      ]

  -- For a frame that is in the map.
  unfoldable pub construct_in :
      VideoDepayloader → ℕ → ℕ → Frame → Outcome Failure (VideoDepayloader × Bool)
  construct_in d frame_index block_index frame =
      if ltb frame.last_block_index block_index
      then ok (d, false)
      else if not (block_index == frame.current_block)
      then ok (d, false)
      else do
        (f, packets) ← absorb (payload_len d) frame_index block_index frame d.packets
        try_finish d frame_index block_index f packets

  unfoldable pub try_construct_fec_block :
      VideoDepayloader → ℕ → ℕ → Outcome Failure (VideoDepayloader × Bool)
  try_construct_fec_block d frame_index block_index = elim (get frame_index d.frames) [
    | some f ↦ construct_in d frame_index block_index f
    | none ↦ elim (find? (is_of_frame frame_index) d.packets) [
      | none ↦ ok (d, false)
      | some entry ↦
          construct_in (record d { frames = insert frame_index (new_frame entry.1) d.frames })
            frame_index block_index (new_frame entry.1)
    ]
  ]
