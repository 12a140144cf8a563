-- ===== src/Video/Payloader/FecBlock.antt =====
-- `generate_fec_block` as a whole: the data packets of a block, and behind them its parity packets.
use moonlight_common_rust.Common.{
  ℕ, zero, suc, ◌+◌, ◌-◌, ◌≤◌, ◌≡◌, refl, sym, ap, ◌∙◌, true, List, [], ◌∷◌, ◌++◌, Option, some,
  Bytes, length, leb, ok, arith, length-append, drop-append, div_ceil, wrapping_add_u16,
  append_assoc,
}
use moonlight_common_rust.ReedSolomon.{ReedSolomon}
use moonlight_common_rust.Video.Packet.{VideoMultiFecBlocks, VideoFrameHeader}
use moonlight_common_rust.Video.Payloader.{
  VideoPayloader, Block, frame_header_opt, fec_shards, encoded_shards, parity_shards,
  parity_packets, generate_fec_block,
}
use moonlight_common_rust.Video.Payloader.Shards.{
  shards, packets_of, block_bytes, HeaderFits, data_packets_lem, length-shards, length-packets_of,
  payloads-packets_of,
}

abbrev pub shard_count : VideoPayloader → Option VideoFrameHeader → Bytes → ℕ
shard_count p header block_data =
    div_ceil (length block_data + frame_header_opt header) p.payload_len

abbrev pub payloads : VideoPayloader → Option VideoFrameHeader → Bytes → List Bytes
payloads p header block_data =
    shards (shard_count p header block_data) p.payload_len (block_bytes header block_data)

abbrev pub block_of : VideoPayloader → VideoMultiFecBlocks → ℕ → ℕ → Block
block_of p blocks data_shards percentage = record {
  payload_len = p.payload_len;
  frame_index = p.frame_index;
  blocks = blocks;
  data_shards = data_shards;
  fec_percentage = percentage;
}

-- What a block adds to the queue, `parity` being its encoded shards.
unfoldable pub block_packets :
    VideoPayloader
    → ℕ
    → Option VideoFrameHeader
    → VideoMultiFecBlocks
    → ℕ
    → Bytes
    → ℕ
    → List Bytes
    → List Bytes
block_packets p sequence_number header blocks timestamp block_data percentage parity =
    let d = shard_count p header block_data in
    packets_of (block_of p blocks d percentage) timestamp (payloads p header block_data)
      sequence_number 0
    ++ parity_packets (block_of p blocks d percentage) parity (wrapping_add_u16 sequence_number d) d

parity_packets-len :
    (b : Block) (shards : List Bytes) (sequence_number count : ℕ)
    → length (parity_packets b shards sequence_number count) ≡ length shards
unfolding parity_packets
parity_packets-len b [] sn count = refl
parity_packets-len b (x ∷ xs) sn count =
    ap suc (parity_packets-len b xs (wrapping_add_u16 sn 1) (count + 1))

-- The codec turns the payloads into these parity shards; without parity there are none.
abbrev pub Encodes : ReedSolomon → ℕ → ℕ → ℕ → List Bytes → List Bytes → Type 0
Encodes rs len d zero payloads parity = parity ≡ []
Encodes rs len d (suc n) payloads parity =
    (rs.new d (suc n) ≡ true)
    × (rs.encode_sep d (suc n) len payloads ≡ some parity)
    × (d ≤ 255)
    × (suc n ≤ 255)

encoded_shards-packets_of :
    (old : List Bytes) (b : Block) (timestamp sequence_number d : ℕ) (payloads : List Bytes)
    → length payloads ≡ d
    → encoded_shards d (old ++ packets_of b timestamp payloads sequence_number 0) ≡ payloads
encoded_shards-packets_of old b timestamp sn d payloads e =
    let packets = packets_of b timestamp payloads sn 0 in
    let skipped : length (old ++ packets) - d ≡ length old =
      omega (arith, length-append old packets, length-packets_of b timestamp payloads sn 0) in
    rw (skipped, drop-append old packets (length old) refl)
      (payloads-packets_of b timestamp payloads sn 0)

parity_shards_lem :
    (rs : ReedSolomon) (len n d : ℕ) (queue payloads parity : List Bytes)
    → d ≤ length queue
    → encoded_shards d queue ≡ payloads
    → Encodes rs len d n payloads parity
    → parity_shards rs len d n queue ≡ ok parity
unfolding parity_shards
parity_shards_lem rs len zero d queue payloads parity h e v = ap ok (sym v)
parity_shards_lem rs len (suc n) d queue payloads parity h e (new, encode, hd, hn) =
    let l1 : leb d (length queue) ≡ true = ground arith in
    let l2 : leb d 255 ≡ true = ground arith in
    let l3 : leb (suc n) 255 ≡ true = ground arith in rw (new, l1, l2, l3, e, encode) refl

-- `generate_fec_block` returns, for payloads of 8 bytes at least and a block that fills its first
-- payload behind a frame header, when the number of parity shards and the percentage can be computed and the
-- codec encodes the block's payloads to `parity`. It appends to the queue the block's
-- data packets, whose payloads are the header and the data cut into shards, and behind them the parity packets:
-- their shards are the encoding of exactly this block's payloads, whatever the queue held before. The
-- result is the number of these packets.
pub generate_fec_block_lem :
    (rs : ReedSolomon) (p : VideoPayloader) (sequence_number : ℕ) (header : Option VideoFrameHeader)
    (blocks : VideoMultiFecBlocks) (timestamp : ℕ) (block_data : Bytes) (n percentage : ℕ)
    (parity : List Bytes)
    → 8 ≤ p.payload_len
    → HeaderFits p.payload_len header block_data
    → fec_shards p.fec_config (shard_count p header block_data) ≡ ok (n, percentage)
    → Encodes rs p.payload_len
        (shard_count p header block_data)
        n
        (payloads p header block_data)
        parity
    → generate_fec_block rs p sequence_number header blocks timestamp block_data
      ≡ ok (
        record p {
          packet_queue =
              p.packet_queue
              ++ block_packets p sequence_number header blocks timestamp block_data percentage
                  parity;
        },
        shard_count p header block_data + length parity,
      )
unfolding generate_fec_block block_packets
generate_fec_block_lem rs p sn header blocks timestamp block_data n percentage parity h8 fits fec
      enc =
    let d = shard_count p header block_data in
    let b = block_of p blocks d percentage in
    let packets = packets_of b timestamp (payloads p header block_data) sn 0 in
    let count : length packets ≡ d =
      length-packets_of b timestamp (payloads p header block_data) sn 0
      ∙ length-shards d p.payload_len (block_bytes header block_data) in
    let encoded =
      parity_shards_lem rs p.payload_len n d (p.packet_queue ++ packets)
        (payloads p header block_data) parity (omega (arith, length-append p.packet_queue packets))
        (encoded_shards-packets_of p.packet_queue b timestamp sn d (payloads p header block_data)
          (length-shards d p.payload_len (block_bytes header block_data)))
        enc in
    rw
      (
        fec,
        data_packets_lem b timestamp sn header block_data h8 fits,
        encoded,
        count,
        parity_packets-len b parity (wrapping_add_u16 sn d) d,
        append_assoc,
      )
      refl
