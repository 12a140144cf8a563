-- ===== src/Video/Payloader/PushBlocks.antt =====
-- The loop of `push_frame` over the blocks of a frame, without FEC.
use moonlight_common_rust.Common.{
  ℕ, zero, suc, ◌+◌, ◌-◌, ◌*◌, ◌%◌, ◌^◌, ◌≤◌, ◌<◌, ◌≡◌, refl, ap, ◌∙◌, true, false, List, ◌++◌,
  Option, some, none, Bytes, IsU16, length, take, drop, slice, min, leb, ◌==◌, if◌then◌else◌, ok,
  arith, length-append, length-take, length-drop, take-append-drop, take_all, drop-drop, div_ceil,
  div_ceil_bounds, div_ceil_unique, append_assoc,
}
use moonlight_common_rust.ReedSolomon.{ReedSolomon}
use moonlight_common_rust.Video.Packet.{
  VideoMultiFecBlocks, VideoFrameHeader, serialize_frame_header,
}
use moonlight_common_rust.Video.Payloader.{VideoPayloader, push_blocks, generate_fec_block}
use moonlight_common_rust.Video.Payloader.Shards.{block_bytes, serialize_frame_header_len}
use moonlight_common_rust.Video.Payloader.Carry.{Carries, pushed, block-Carries, Carries-append}

-- A block of the largest size has no shard to fill up.
full_block :
    (payload_len max_shards len count : ℕ)
    → 0 < payload_len
    → len ≡ payload_len * max_shards
    → count ≡ div_ceil len payload_len
    → len ≡ count * payload_len
full_block payload_len max_shards len count h e c =
    let u = div_ceil_unique len payload_len max_shards h (omega arith) (omega arith) in
    let k : count ≡ max_shards = c ∙ u in omega (arith, ap (λ (t : ℕ). t * payload_len) k)

abbrev pub place : ℕ → ℕ → VideoMultiFecBlocks
place blocks block = record {
  last_block_index = (blocks - 1) % 2 ^ 8;
  current_block = block % 2 ^ 8;
  unused = 0;
}

-- One round of the `for` loop.
pub push_blocks_step :
    (rs : ReedSolomon) (rounds blocks block start end timestamp : ℕ) (header : VideoFrameHeader)
    (frame : Bytes) (p : VideoPayloader) (first : Option VideoFrameHeader) (packets : List Bytes)
    → (if block == 0 then some header else none) ≡ first
    → min
        (if block == 0
          then start + p.payload_len * p.max_data_shards_per_block - 8
          else start + p.payload_len * p.max_data_shards_per_block)
        (length frame)
      ≡ end
    → start ≤ end
    → generate_fec_block rs p p.sequence_number first
        (place blocks block)
        timestamp
        (slice start end frame)
      ≡ ok (record p { packet_queue = p.packet_queue ++ packets }, length packets)
    → push_blocks rs (suc rounds) blocks block start timestamp header frame p
      ≡ push_blocks rs rounds blocks (block + 1) end timestamp header frame (pushed p packets)
unfolding push_blocks
push_blocks_step rs rounds blocks block start end ts header frame p first packets e1 e2 h made =
    let inside : leb start end ≡ true = ground arith in rw (e1, e2, inside, made) refl

pub push_blocks_none :
    (rs : ReedSolomon) (blocks block start timestamp : ℕ) (header : VideoFrameHeader)
    (frame : Bytes) (p : VideoPayloader)
    → push_blocks rs zero blocks block start timestamp header frame p ≡ ok p
unfolding push_blocks
push_blocks_none rs blocks block start ts header frame p = refl

-- The blocks behind the first one: they take the frame from `start` on.
push_blocks_tail :
    (rounds blocks block start timestamp : ℕ) (rs : ReedSolomon) (header : VideoFrameHeader)
    (frame : Bytes) (p : VideoPayloader)
    → p.fec_config ≡ none
    → 8 ≤ p.payload_len
    → 1 ≤ p.max_data_shards_per_block
    → IsU16 p.sequence_number
    → 0 < block
    → start < length frame
    → length frame - start ≤ rounds * (p.payload_len * p.max_data_shards_per_block)
    → rounds * (p.payload_len * p.max_data_shards_per_block)
      < length frame - start + p.payload_len * p.max_data_shards_per_block
    → (p' : VideoPayloader) × (packets : List Bytes) × (push_blocks rs rounds blocks block start
          timestamp header frame p
        ≡ ok p')
      × Carries p p' (drop start frame) packets
unfolding block_bytes
push_blocks_tail zero blocks block start ts rs header frame p nofec h8 h1 hs hb hl lo hi =
    absurd (omega arith)
push_blocks_tail (suc zero) blocks block start ts rs header frame p nofec h8 h1 hs hb hl lo hi =
    let first : (block == 0) ≡ false = ground arith in
    let rest : slice start (length frame) frame ≡ drop start frame =
      take_all (length frame - start) (drop start frame) (omega (arith, length-drop start frame)) in
    let (packets, made, carries) =
      block-Carries rs p none (place blocks block) ts (drop start frame) nofec h8 hs tt in
    let step =
      push_blocks_step rs zero blocks block start (length frame) ts header frame p none packets
        (rw first refl) (rw first (omega arith)) (omega arith) (rw rest made) in
    (
      pushed p packets,
      packets,
      step
          ∙ push_blocks_none rs blocks (block + 1) (length frame) ts header frame
              (pushed p packets),
      carries,
    )
push_blocks_tail (suc (suc rounds)) blocks block start ts rs header frame p nofec h8 h1 hs hb hl lo
      hi =
    let size = p.payload_len * p.max_data_shards_per_block in
    let first : (block == 0) ≡ false = ground arith in
    let span : start + size - start ≡ size = omega arith in
    let w1 = take size (drop start frame) in
    let len1 : length w1 ≡ size =
      omega (arith, length-take size (drop start frame), length-drop start frame) in
    let (packets, made, carries) =
      block-Carries rs p none (place blocks block) ts w1 nofec h8 hs tt in
    let full =
      full_block p.payload_len p.max_data_shards_per_block (length w1) (length packets)
        (omega arith) len1 carries.counted in
    let (p', rest, ran, carries') =
      push_blocks_tail (suc rounds) blocks (block + 1) (start + size) ts rs header frame
        (pushed p packets) nofec h8 h1 (omega arith) (omega arith) (omega arith) (omega arith)
        (omega arith) in
    let joined : w1 ++ drop (start + size) frame ≡ drop start frame =
      rw (← drop-drop size start frame) (take-append-drop size (drop start frame)) in
    let step =
      push_blocks_step rs (suc rounds) blocks block start (start + size) ts header frame p none
        packets (rw first refl) (rw first (omega arith)) (omega arith) (rw span made) in
    (
      p',
      packets ++ rest,
      step ∙ ran,
      rw joined at (
          Carries-append p (pushed p packets) p' w1 (drop (start + size) frame) packets rest refl h8
            hs full carries carries'),
    )

-- The whole frame, the first block with the frame header in front.
pub push_blocks_lem :
    (rounds blocks timestamp : ℕ) (rs : ReedSolomon) (header : VideoFrameHeader) (frame : Bytes)
    (p : VideoPayloader)
    → p.fec_config ≡ none
    → 8 ≤ p.payload_len
    → 2 ≤ p.max_data_shards_per_block
    → IsU16 p.sequence_number
    → length header.reserved ≡ 2
    → p.payload_len ≤ length frame
    → length frame + 8 ≤ rounds * (p.payload_len * p.max_data_shards_per_block)
    → rounds * (p.payload_len * p.max_data_shards_per_block)
      < length frame + 8 + p.payload_len * p.max_data_shards_per_block
    → (p' : VideoPayloader) × (packets : List Bytes) × (push_blocks rs rounds blocks 0 0 timestamp
          header frame p
        ≡ ok p')
      × Carries p p' (serialize_frame_header header ++ frame) packets
unfolding block_bytes
push_blocks_lem zero blocks ts rs header frame p nofec h8 h2 hs two long lo hi =
    absurd (omega arith)
push_blocks_lem (suc zero) blocks ts rs header frame p nofec h8 h2 hs two long lo hi =
    let rest : slice 0 (length frame) frame ≡ frame =
      take_all (length frame - 0) frame (omega arith) in
    let (packets, made, carries) =
      block-Carries rs p (some header) (place blocks 0) ts frame nofec h8 hs (two, long) in
    let step =
      push_blocks_step rs zero blocks 0 0 (length frame) ts header frame p (some header) packets
        refl (omega arith) (omega arith) (rw rest made) in
    (
      pushed p packets,
      packets,
      step ∙ push_blocks_none rs blocks (0 + 1) (length frame) ts header frame (pushed p packets),
      carries,
    )
push_blocks_lem (suc (suc rounds)) blocks ts rs header frame p nofec h8 h2 hs two long lo hi =
    let size = p.payload_len * p.max_data_shards_per_block in
    let wide : 2 * p.payload_len ≤ size = grind arith in
    let w1 = take (size - 8 - 0) frame in
    let len1 : length w1 ≡ size - 8 = omega (arith, length-take (size - 8 - 0) frame) in
    let span : size - 8 - 0 ≡ size - 8 = omega arith in
    let (packets, made, carries) =
      block-Carries rs p (some header) (place blocks 0) ts w1 nofec h8 hs (two, omega arith) in
    let h1 = serialize_frame_header_len header two in
    let lenw : length (serialize_frame_header header ++ w1) ≡ size =
      omega (arith, length-append (serialize_frame_header header) w1) in
    let full =
      full_block p.payload_len p.max_data_shards_per_block
        (length (serialize_frame_header header ++ w1)) (length packets) (omega arith) lenw
        carries.counted in
    let (p', rest, ran, carries') =
      push_blocks_tail (suc rounds) blocks (0 + 1) (size - 8) ts rs header frame (pushed p packets)
        nofec h8 (omega arith) (omega arith) (omega arith) (omega arith) (omega arith)
        (omega arith) in
    let joined : (serialize_frame_header header ++ w1) ++ drop (size - 8) frame
        ≡ serialize_frame_header header ++ frame =
      rw (append_assoc, span, take-append-drop (size - 8) frame) refl in
    let step =
      push_blocks_step rs (suc rounds) blocks 0 0 (size - 8) ts header frame p (some header) packets
        refl (omega arith) (omega arith) made in
    (
      p',
      packets ++ rest,
      step ∙ ran,
      rw joined at (
          Carries-append p (pushed p packets) p' (serialize_frame_header header ++ w1)
            (drop (size - 8) frame) packets rest refl h8 hs full carries carries'),
    )

mul_mono : (a b c : ℕ) → a < b + 1 → a * c ≤ b * c
mul_mono a b c h = grind arith

blocks_bounds_of :
    (len pl m d n : ℕ)
    → len ≤ d * pl
    → d * pl < len + pl
    → d ≤ n * m
    → n * m < d + m
    → (len ≤ n * (pl * m)) × (n * (pl * m) < len + pl * m)
blocks_bounds_of len pl m d n a b e f =
    let up : d * pl ≤ n * m * pl = mul_mono d (n * m) pl (omega arith) in
    let down : (n * m + 1) * pl ≤ (d + m) * pl = mul_mono (n * m + 1) (d + m) pl (omega arith) in
    (omega arith, omega arith)

-- The blocks of the largest size that the frame takes.
pub blocks_bounds :
    (len payload_len max_shards : ℕ)
    → 0 < payload_len
    → 0 < max_shards
    → (len ≤ div_ceil (div_ceil len payload_len) max_shards * (payload_len * max_shards))
      × (div_ceil (div_ceil len payload_len) max_shards * (payload_len * max_shards)
          < len + payload_len * max_shards)
blocks_bounds len payload_len max_shards hp hm =
    let d = div_ceil len payload_len in
    let n = div_ceil d max_shards in
    let (a, b) = div_ceil_bounds len payload_len hp in
    let (e, f) = div_ceil_bounds d max_shards hm in
    blocks_bounds_of len payload_len max_shards d n a b e f
