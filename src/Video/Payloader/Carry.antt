-- ===== src/Video/Payloader/Carry.antt =====
-- What the packets of a block carry without FEC, and how blocks are joined.
use moonlight_common_rust.Common.{
  ℕ, zero, suc, ◌+◌, ◌-◌, ◌*◌, ◌%◌, ◌^◌, ◌≤◌, ◌≡◌, refl, sym, ap, ◌∙◌, List, [], ◌∷◌, ◌++◌, map,
  Option, some, none, Bytes, IsU16, length, take, drop, replicate, ok, arith, length-append,
  div_ceil, div_ceil_bounds, div_ceil_unique, wrapping_add_u16, append_assoc, append-nil,
}
use moonlight_common_rust.ReedSolomon.{ReedSolomon}
use moonlight_common_rust.Video.Packet.{
  VideoMultiFecBlocks, VideoFrameHeader, serialize_frame_header, deserialize_rtp, serialize_rtp,
}
use moonlight_common_rust.Video.Payloader.{
  VideoPayloader, Block, packet_headers, data_packet, fec_shards, header_size, parity_packets,
  generate_fec_block, frame_header_opt,
}
use moonlight_common_rust.Video.Payloader.Shards.{
  packets_of, block_bytes, length-shards, length-packets_of, payloads-packets_of, concat,
  concat-shards, pad_none, serialize_frame_header_len, HeaderFits,
}
use moonlight_common_rust.Video.Payloader.FecBlock.{
  block_packets, generate_fec_block_lem, shard_count, block_of, payloads,
}
use mathlib.Core.List.{map-append}

-- The packets carry the sequence numbers from `sequence_number` on.
pub Numbered : ℕ → List Bytes → Type 0
Numbered sequence_number [] = Unit {0}
Numbered sequence_number (packet ∷ packets) =
    ((deserialize_rtp (take 16 packet)).sequence_number ≡ sequence_number)
    × Numbered (wrapping_add_u16 sequence_number 1) packets

-- What `packets` carry of `whole`, and how the payloader went on.
pub record Carries (p p' : VideoPayloader) (whole : Bytes) (packets : List Bytes) : Type 0 where
  pub queued : p'.packet_queue ≡ p.packet_queue ++ packets
  pub content :
      concat (map (drop header_size) packets)
      ≡ whole ++ replicate (length packets * p.payload_len - length whole) 0
  pub counted : length packets ≡ div_ceil (length whole) p.payload_len
  pub numbered : Numbered p.sequence_number packets
  pub next_number : p'.sequence_number ≡ (p.sequence_number + length packets) % 2 ^ 16
  pub same_frame : p'.frame_index ≡ p.frame_index

Numbered-append :
    (s n : ℕ) (xs ys : List Bytes)
    → length xs ≡ n
    → IsU16 s
    → Numbered s xs
    → Numbered ((s + n) % 2 ^ 16) ys
    → Numbered s (xs ++ ys)
unfolding Numbered
Numbered-append s n [] ys e hs hx hy = let z : (s + n) % 2 ^ 16 ≡ s = omega arith in rw z at hy
Numbered-append s zero (x ∷ xs) ys e hs hx hy = absurd (omega arith)
Numbered-append s (suc n) (x ∷ xs) ys e hs hx hy =
    let z : (s + suc n) % 2 ^ 16 ≡ ((s + 1) % 2 ^ 16 + n) % 2 ^ 16 = omega arith in
    (
      hx.0,
      Numbered-append (wrapping_add_u16 s 1) n xs ys (omega arith) (omega arith) hx.1 (rw z at hy),
    )

sequence_number-data_packet :
    (b : Block) (timestamp sequence_number shard_index : ℕ) (payload : Bytes)
    → IsU16 sequence_number
    → (deserialize_rtp
        (take 16 (data_packet b timestamp sequence_number shard_index payload))).sequence_number
      ≡ sequence_number
unfolding data_packet packet_headers serialize_rtp deserialize_rtp
sequence_number-data_packet b timestamp sn i payload h = omega arith

packets_of-Numbered :
    (b : Block) (timestamp : ℕ) (payloads : List Bytes) (sequence_number count : ℕ)
    → IsU16 sequence_number
    → Numbered sequence_number (packets_of b timestamp payloads sequence_number count)
unfolding packets_of Numbered
packets_of-Numbered b timestamp [] sn count h = tt
packets_of-Numbered b timestamp (x ∷ xs) sn count h = (
  sequence_number-data_packet b timestamp sn count x h,
  packets_of-Numbered b timestamp xs (wrapping_add_u16 sn 1) (count + 1) (omega arith),
)

concat-append : (xs ys : List Bytes) → concat (xs ++ ys) ≡ concat xs ++ concat ys
unfolding concat
concat-append [] ys = refl
concat-append (x ∷ xs) ys = rw (append_assoc, concat-append xs ys) refl

length-block_bytes :
    (payload_len : ℕ) (header : Option VideoFrameHeader) (block_data : Bytes)
    → HeaderFits payload_len header block_data
    → length (block_bytes header block_data) ≡ length block_data + frame_header_opt header
unfolding block_bytes
length-block_bytes payload_len none block_data fits = omega arith
length-block_bytes payload_len (some header) block_data (two, long) = omega (
  arith,
  length-append (serialize_frame_header header) block_data,
  serialize_frame_header_len header two,
)

-- The payloader behind a block of these packets.
abbrev pub pushed : VideoPayloader → List Bytes → VideoPayloader
pushed p packets = record p {
  packet_queue = p.packet_queue ++ packets;
  sequence_number = wrapping_add_u16 p.sequence_number (length packets % 2 ^ 16);
}

pub block-Carries :
    (rs : ReedSolomon) (p : VideoPayloader) (header : Option VideoFrameHeader)
    (blocks : VideoMultiFecBlocks) (timestamp : ℕ) (block_data : Bytes)
    → p.fec_config ≡ none
    → 8 ≤ p.payload_len
    → IsU16 p.sequence_number
    → HeaderFits p.payload_len header block_data
    → (packets : List Bytes) × (generate_fec_block rs p p.sequence_number header blocks timestamp
          block_data
        ≡ ok (record p { packet_queue = p.packet_queue ++ packets }, length packets))
      × Carries p (pushed p packets) (block_bytes header block_data) packets
unfolding fec_shards block_packets parity_packets
block-Carries rs p header blocks timestamp block_data nofec h8 hs fits =
    let d = shard_count p header block_data in
    let b = block_of p blocks d 0 in
    let cut = payloads p header block_data in
    let packets = packets_of b timestamp cut p.sequence_number 0 in
    let count : length packets ≡ d =
      length-packets_of b timestamp cut p.sequence_number 0
      ∙ length-shards d p.payload_len (block_bytes header block_data) in
    let len = length-block_bytes p.payload_len header block_data fits in
    let bounds =
      div_ceil_bounds (length block_data + frame_header_opt header) p.payload_len (omega arith) in
    let free : fec_shards p.fec_config d ≡ ok (0, 0) = rw nofec refl in
    let made =
      generate_fec_block_lem rs p p.sequence_number header blocks timestamp block_data 0 0 [] h8
        fits free refl in
    let all : packets ++ [] ≡ packets = append-nil packets in
    let zero_parity : d + 0 ≡ length packets = omega arith in
    (
      packets,
      made ∙ rw (all, zero_parity) refl,
      record {
        queued = refl;
        content =
            rw (payloads-packets_of b timestamp cut p.sequence_number 0, count)
              (concat-shards d p.payload_len (block_bytes header block_data) (omega arith)
                (omega arith));
        counted = rw len count;
        numbered = packets_of-Numbered b timestamp cut p.sequence_number 0 hs;
        next_number = omega arith;
        same_frame = refl;
      },
    )

-- A block and the blocks behind it.
pub Carries-append :
    (p p1 p' : VideoPayloader) (w1 w2 : Bytes) (xs ys : List Bytes)
    → p1.payload_len ≡ p.payload_len
    → 8 ≤ p.payload_len
    → IsU16 p.sequence_number
    → length w1 ≡ length xs * p.payload_len
    → Carries p p1 w1 xs
    → Carries p1 p' w2 ys
    → Carries p p' (w1 ++ w2) (xs ++ ys)
Carries-append p p1 p' w1 w2 xs ys e h8 hs full a c =
    let n = length-append xs ys in
    let m = length-append w1 w2 in
    let bounds = div_ceil_bounds (length w2) p.payload_len (omega arith) in
    let cy : length ys ≡ div_ceil (length w2) p.payload_len = rw e at c.counted in
    let a' : concat (map (drop header_size) xs) ≡ w1 =
      a.content ∙ pad_none (length xs * p.payload_len - length w1) w1 (omega arith) in
    let c' : concat (map (drop header_size) ys)
        ≡ w2 ++ replicate (length ys * p.payload_len - length w2) 0 =
      rw e at c.content in
    let gap : length (xs ++ ys) * p.payload_len - length (w1 ++ w2)
        ≡ length ys * p.payload_len - length w2 =
      omega (arith, ap (λ (t : ℕ). t * p.payload_len) n) in
    record {
      queued = c.queued ∙ rw (a.queued, append_assoc) refl;
      content = rw (gap, map-append, concat-append, a', c', append_assoc) refl;
      counted = sym (
          div_ceil_unique _ p.payload_len (length (xs ++ ys)) (omega arith)
            (omega
              (arith, ap (λ (t : ℕ). t * p.payload_len) n, ap (λ (t : ℕ). t * p.payload_len) cy))
            (omega
              (arith, ap (λ (t : ℕ). t * p.payload_len) n, ap (λ (t : ℕ). t * p.payload_len) cy)));
      numbered =
          Numbered-append p.sequence_number (length xs) xs ys refl hs a.numbered
            (rw a.next_number at c.numbered);
      next_number = omega (arith, a.next_number, c.next_number);
      same_frame = c.same_frame ∙ a.same_frame;
    }
