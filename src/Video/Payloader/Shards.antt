-- ===== src/Video/Payloader/Shards.antt =====
-- The `while` loop of `generate_fec_block`: its packets carry the block, cut into shards.
use moonlight_common_rust.Common.{
  ℕ, zero, suc, ◌+◌, ◌-◌, ◌*◌, ◌≤◌, ◌<◌, ◌≡◌, refl, sym, ap, ◌∙◌, List, [], ◌∷◌, ◌++◌, map, Option,
  none, some, Bytes, length, take, drop, slice, min, ok, wrapping_add_u16, arith, length-append,
  length-take, length-drop, take-min, drop-min, drop-drop, take-append_beyond, drop-append_beyond,
  div_ceil, div_ceil_bounds, drop-append, replicate, length-replicate, All, take_all, append-nil,
  append_assoc, take-append-drop, lt→ltb,
}
use moonlight_common_rust.Video.Packet.{
  VideoFrameHeader, serialize_frame_header, serialize_rtp, serialize_video,
}
use moonlight_common_rust.Video.Payloader.{
  Block, pad, packet_headers, data_packet, payload_at, frame_header_opt, data_packets, header_size,
}
use mathlib.Core.Path.{ap₂}

-- The first `n` shards of a block's bytes, the last one filled up with zeros.
unfoldable pub shards : ℕ → ℕ → Bytes → List Bytes
shards zero payload_len bytes = []
shards (suc n) payload_len bytes =
    pad payload_len (take payload_len bytes) ∷ shards n payload_len (drop payload_len bytes)

-- Data packets with consecutive sequence numbers and shard indices.
unfoldable pub packets_of : Block → ℕ → List Bytes → ℕ → ℕ → List Bytes
packets_of b timestamp [] sequence_number count = []
packets_of b timestamp (payload ∷ payloads) sequence_number count =
    data_packet b timestamp sequence_number count payload
    ∷ packets_of b timestamp payloads (wrapping_add_u16 sequence_number 1) (count + 1)

-- The bytes of a block, with the frame header that stands in front of the first one.
unfoldable pub block_bytes : Option VideoFrameHeader → Bytes → Bytes
block_bytes none block_data = block_data
block_bytes (some header) block_data = serialize_frame_header header ++ block_data

-- A block that begins with the frame header has at least the bytes of one payload.
abbrev pub HeaderFits : ℕ → Option VideoFrameHeader → Bytes → Type 0
HeaderFits payload_len none block_data = Unit {0}
HeaderFits payload_len (some header) block_data =
    (length header.reserved ≡ 2) × (payload_len ≤ length block_data)

slice_shard :
    (payload_len q : ℕ) (bytes : Bytes)
    → q ≤ length bytes
    → slice q (min (q + payload_len) (length bytes)) bytes ≡ take payload_len (drop q bytes)
slice_shard payload_len q bytes h =
    let e : min (q + payload_len) (length bytes) - q ≡ min payload_len (length (drop q bytes)) =
      omega (arith, length-drop q bytes) in
    rw e (take-min payload_len (drop q bytes))

-- Behind the frame header a round takes the next payload of the block.
payload_at_tail :
    (payload_len q : ℕ) (header : Option VideoFrameHeader) (block_data : Bytes)
    → q ≤ length block_data
    → payload_at payload_len header block_data (frame_header_opt header + q) ≡ (
      pad payload_len (take payload_len (drop q block_data)),
      frame_header_opt header + (q + min payload_len (length block_data - q)),
    )
unfolding payload_at
payload_at_tail payload_len q none block_data h =
    let z : 0 + q ≡ q = omega arith in
    rw (z, slice_shard payload_len q block_data h)
      (ap (λ (n : ℕ). (pad payload_len (take payload_len (drop q block_data)), n)) (omega arith))
payload_at_tail payload_len q (some header) block_data h =
    let e : 8 + q ≡ suc (7 + q) = omega arith in
    let back : suc (7 + q) - 8 ≡ q = omega arith in
    rw (e, back, slice_shard payload_len q block_data h)
      (ap (λ (n : ℕ). (pad payload_len (take payload_len (drop q block_data)), n)) (omega arith))

-- From position `q` of the block on, `n` rounds take what is left.
pub data_packets_tail :
    (n fuel : ℕ) (b : Block) (timestamp q sequence_number count : ℕ)
    (header : Option VideoFrameHeader) (block_data : Bytes)
    → q ≤ length block_data
    → length block_data - q < fuel
    → length block_data - q ≤ n * b.payload_len
    → n * b.payload_len < length block_data - q + b.payload_len
    → data_packets fuel b timestamp header block_data
        (frame_header_opt header + q)
        sequence_number
        count
      ≡ ok (
          packets_of b timestamp (shards n b.payload_len (drop q block_data)) sequence_number count)
unfolding data_packets packets_of shards
data_packets_tail n zero b timestamp q sn count header block_data hq hf lo hi = absurd (omega arith)
data_packets_tail zero (suc fuel) b timestamp q sn count header block_data hq hf lo hi =
    ground arith
data_packets_tail (suc n) (suc fuel) b timestamp q sn count header block_data hq hf lo hi =
    let len = length block_data in
    let next = q + min b.payload_len (len - q) in
    let go : frame_header_opt header + q < len + frame_header_opt header = omega arith in
    let rest : drop next block_data ≡ drop b.payload_len (drop q block_data) =
      sym (drop-drop (min b.payload_len (len - q)) q block_data)
      ∙ rw (← length-drop q block_data) (drop-min b.payload_len (drop q block_data)) in
    rw (lt→ltb _ _ go, data_packets, payload_at_tail b.payload_len q header block_data hq)
      (rw
        (
          data_packets_tail n fuel b timestamp next (wrapping_add_u16 sn 1) (count + 1) header
              block_data (omega arith) (omega arith) (omega arith) (omega arith),
          rest,
        )
        refl)

pub serialize_frame_header_len :
    (h : VideoFrameHeader) → length h.reserved ≡ 2 → length (serialize_frame_header h) ≡ 8
unfolding serialize_frame_header
serialize_frame_header_len h e = omega (arith, ap suc e)

-- The payload with the frame header in it.
payload_at_head :
    (payload_len : ℕ) (header : VideoFrameHeader) (block_data : Bytes)
    → 8 ≤ payload_len
    → length header.reserved ≡ 2
    → payload_len ≤ length block_data
    → payload_at payload_len (some header) block_data 0 ≡ (
      pad payload_len (take payload_len (serialize_frame_header header ++ block_data)),
      payload_len,
    )
unfolding payload_at
payload_at_head payload_len header block_data h8 two long =
    let m : min payload_len (length block_data) ≡ payload_len = omega arith in
    let z : payload_len - 8 - 0 ≡ payload_len - 8 = omega arith in
    let t : take payload_len (serialize_frame_header header ++ block_data)
        ≡ serialize_frame_header header ++ take (payload_len - 8) block_data =
      take-append_beyond (serialize_frame_header header) block_data payload_len (payload_len - 8)
        (omega (arith, serialize_frame_header_len header two)) in
    rw (m, z, t)
      (ap
        (λ (n : ℕ).
          (pad payload_len (serialize_frame_header header ++ take (payload_len - 8) block_data), n))
        (omega arith))

data_packets_from :
    (n fuel : ℕ) (b : Block) (timestamp sequence_number : ℕ) (header : Option VideoFrameHeader)
    (block_data : Bytes)
    → 8 ≤ b.payload_len
    → HeaderFits b.payload_len header block_data
    → length block_data + frame_header_opt header < fuel
    → length block_data + frame_header_opt header ≤ n * b.payload_len
    → n * b.payload_len < length block_data + frame_header_opt header + b.payload_len
    → data_packets fuel b timestamp header block_data 0 sequence_number 0
      ≡ ok (
          packets_of b timestamp
            (shards n b.payload_len (block_bytes header block_data))
            sequence_number
            0)
unfolding block_bytes data_packets packets_of shards
data_packets_from n fuel b timestamp sn none block_data h8 fits hf lo hi =
    data_packets_tail n fuel b timestamp 0 sn 0 none block_data (omega arith) (omega arith)
      (omega arith) (omega arith)
data_packets_from n zero b timestamp sn (some header) block_data h8 (two, long) hf lo hi =
    absurd (omega arith)
data_packets_from zero (suc fuel) b timestamp sn (some header) block_data h8 (two, long) hf lo hi =
    absurd (omega arith)
data_packets_from (suc n) (suc fuel) b timestamp sn (some header) block_data h8 (two, long) hf lo
      hi =
    let len = length block_data in
    let go : 0 < len + 8 = omega arith in
    let pl = b.payload_len in
    let back : 8 + (pl - 8) ≡ pl = omega arith in
    let cut : drop pl (serialize_frame_header header ++ block_data) ≡ drop (pl - 8) block_data =
      drop-append_beyond (serialize_frame_header header) block_data pl (pl - 8)
        (omega (arith, serialize_frame_header_len header two)) in
    let tail =
      data_packets_tail n fuel b timestamp (pl - 8) (wrapping_add_u16 sn 1) 1 (some header)
        block_data (omega arith) (omega arith) (omega arith) (omega arith) in
    rw (lt→ltb _ _ go, data_packets, payload_at_head pl header block_data h8 two long)
      (rw (rw back at tail, cut) refl)

-- The loop produces the block's bytes in shards and nothing else, and it ends within its fuel.
pub data_packets_lem :
    (b : Block) (timestamp sequence_number : ℕ) (header : Option VideoFrameHeader)
    (block_data : Bytes)
    → 8 ≤ b.payload_len
    → HeaderFits b.payload_len header block_data
    → data_packets
        (suc (length block_data + frame_header_opt header))
        b
        timestamp
        header
        block_data
        0
        sequence_number
        0
      ≡ ok (
          packets_of b timestamp
            (shards
              (div_ceil (length block_data + frame_header_opt header) b.payload_len)
              b.payload_len
              (block_bytes header block_data))
            sequence_number
            0)
data_packets_lem b timestamp sn header block_data h8 fits =
    let (lo, hi) =
      div_ceil_bounds (length block_data + frame_header_opt header) b.payload_len (omega arith) in
    data_packets_from _ _ b timestamp sn header block_data h8 fits (omega arith) lo hi

pub length-shards : (n payload_len : ℕ) (bytes : Bytes) → length (shards n payload_len bytes) ≡ n
unfolding shards
length-shards zero payload_len bytes = refl
length-shards (suc n) payload_len bytes =
    ap suc (length-shards n payload_len (drop payload_len bytes))

pub length-packets_of :
    (b : Block) (timestamp : ℕ) (payloads : List Bytes) (sequence_number count : ℕ)
    → length (packets_of b timestamp payloads sequence_number count) ≡ length payloads
unfolding packets_of
length-packets_of b timestamp [] sn count = refl
length-packets_of b timestamp (x ∷ xs) sn count =
    ap suc (length-packets_of b timestamp xs (wrapping_add_u16 sn 1) (count + 1))

length-packet_headers :
    (b : Block) (timestamp flags sequence_number shard_index : ℕ)
    → length (packet_headers b timestamp flags sequence_number shard_index) ≡ header_size
unfolding packet_headers serialize_rtp serialize_video
length-packet_headers b timestamp flags sn i = refl

-- Behind its headers a packet has its payload.
pub payload-data_packet :
    (b : Block) (timestamp sequence_number shard_index : ℕ) (payload : Bytes)
    → drop header_size (data_packet b timestamp sequence_number shard_index payload) ≡ payload
unfolding data_packet
payload-data_packet b timestamp sn i payload =
    drop-append _ payload header_size (length-packet_headers b timestamp _ sn i)

pub payloads-packets_of :
    (b : Block) (timestamp : ℕ) (payloads : List Bytes) (sequence_number count : ℕ)
    → map (drop header_size) (packets_of b timestamp payloads sequence_number count) ≡ payloads
unfolding packets_of
payloads-packets_of b timestamp [] sn count = refl
payloads-packets_of b timestamp (x ∷ xs) sn count =
    ap₂ ◌∷◌ (payload-data_packet b timestamp sn count x)
      (payloads-packets_of b timestamp xs (wrapping_add_u16 sn 1) (count + 1))

pub payload_len-shards :
    (n payload_len : ℕ) (bytes : Bytes)
    → All (λ s. length s ≡ payload_len) (shards n payload_len bytes)
unfolding shards
payload_len-shards zero payload_len bytes = tt
payload_len-shards (suc n) payload_len bytes = (
  omega (
    arith,
    length-append (take payload_len bytes)
        (replicate (payload_len - length (take payload_len bytes)) 0),
    length-take payload_len bytes,
    length-replicate {A = ℕ} (payload_len - length (take payload_len bytes)) 0,
  ),
  payload_len-shards n payload_len (drop payload_len bytes),
)

unfoldable pub concat : List Bytes → Bytes
concat [] = []
concat (x ∷ xs) = x ++ concat xs

pub pad_none : (n : ℕ) (xs : Bytes) → n ≤ 0 → xs ++ replicate n 0 ≡ xs
pad_none zero xs h = append-nil xs
pad_none (suc n) xs h = absurd (omega arith)

-- Only the last shard is filled up.
pub concat-shards :
    (n payload_len : ℕ) (bytes : Bytes)
    → length bytes ≤ n * payload_len
    → n * payload_len < length bytes + payload_len
    → concat (shards n payload_len bytes) ≡ bytes ++ replicate (n * payload_len - length bytes) 0
unfolding shards concat
concat-shards zero payload_len [] lo hi = let e : 0 * payload_len - 0 ≡ 0 = omega arith in rw e refl
concat-shards zero payload_len (x ∷ xs) lo hi = absurd (omega arith)
concat-shards (suc zero) payload_len bytes lo hi =
    let e : suc zero * payload_len ≡ payload_len = omega arith in
    rw (take_all payload_len bytes (omega arith), e) (append-nil _)
concat-shards (suc (suc n)) payload_len bytes lo hi =
    let rest = drop payload_len bytes in
    let full =
      pad_none (payload_len - length (take payload_len bytes)) (take payload_len bytes)
        (omega (arith, length-take payload_len bytes)) in
    let ih =
      concat-shards (suc n) payload_len rest (omega (arith, length-drop payload_len bytes))
        (omega (arith, length-drop payload_len bytes)) in
    let e : suc n * payload_len - length rest ≡ suc (suc n) * payload_len - length bytes =
      omega (arith, length-drop payload_len bytes) in
    rw
      (
        full,
        ih,
        e,
        ← append_assoc (take payload_len bytes) rest,
        take-append-drop payload_len bytes,
      )
      refl
