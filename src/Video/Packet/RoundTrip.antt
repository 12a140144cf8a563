-- ===== src/Video/Packet/RoundTrip.antt =====
-- Writing a header and reading it back, and reading any buffer and writing it back.
use moonlight_common_rust.Common.{
  ℕ, ◌+◌, ◌/◌, ◌%◌, ◌^◌, ◌<◌, ◌≡◌, ◌≢◌, refl, [], ◌∷◌, Bytes, IsU8, IsU16, IsU32, length, All,
  arith, u32_from_le, u32_from_be, u32_to_le, u32_to_be, u32_to_le,
}
use moonlight_common_rust.Video.Packet.{
  RtpVideoHeader, deserialize_rtp, serialize_rtp, VideoMultiFecBlocks, deserialize_blocks,
  serialize_blocks, VideoFecInfo, deserialize_fec_info, serialize_fec_info, VideoHeader,
  deserialize_video, serialize_video, ServerFrameType, p_frame, other, serialize_frame_type,
  deserialize_frame_type, VideoFrameHeader, deserialize_frame_header, serialize_frame_header,
}

-- The fields that the byte layout can hold.
pub record IsRtpVideoHeader (h : RtpVideoHeader) : Type 0 where
  pub sequence_number_fits : IsU16 h.sequence_number
  pub timestamp_fits : IsU32 h.timestamp
  pub ssrc_fits : IsU32 h.ssrc
  pub reserved_len : length h.reserved ≡ 4

pub record IsVideoMultiFecBlocks (b : VideoMultiFecBlocks) : Type 0 where
  pub last_block_index_fits : b.last_block_index < 4
  pub current_block_fits : b.current_block < 4
  pub unused_fits : b.unused < 16

pub record IsVideoFecInfo (f : VideoFecInfo) : Type 0 where
  pub data_shards_total_fits : f.data_shards_total < 1024
  pub shard_index_fits : f.shard_index < 1024
  pub fec_percentage_fits : f.fec_percentage < 256
  pub unused_fits : f.unused < 16

pub record IsVideoHeader (h : VideoHeader) : Type 0 where
  pub stream_packet_index_fits : IsU32 h.stream_packet_index
  pub frame_index_fits : IsU32 h.frame_index
  pub blocks_fit : IsVideoMultiFecBlocks h.multi_fec_blocks
  pub fec_info_fits : IsVideoFecInfo h.fec_info

-- `Other` is for the bytes that have no name of their own.
abbrev pub IsFrameType : ServerFrameType → Type 0
IsFrameType (other v) = (v ≢ 1) × (v ≢ 2) × (v ≢ 4) × (v ≢ 5)
IsFrameType _ = Unit {0}

pub record IsVideoFrameHeader (h : VideoFrameHeader) : Type 0 where
  pub latency_fits : IsU16 h.host_processing_latency
  pub frame_type_named : IsFrameType h.frame_type
  pub last_payload_len_fits : IsU16 h.last_payload_len
  pub reserved_len : length h.reserved ≡ 2

four_bytes : (r : Bytes) → length r ≡ 4 → (a b c d : ℕ) × (r ≡ a ∷ b ∷ c ∷ d ∷ [])
four_bytes [] h = absurd (omega arith)
four_bytes (a ∷ []) h = absurd (omega arith)
four_bytes (a ∷ b ∷ []) h = absurd (omega arith)
four_bytes (a ∷ b ∷ c ∷ []) h = absurd (omega arith)
four_bytes (a ∷ b ∷ c ∷ d ∷ []) h = (a, b, c, d, refl)
four_bytes (a ∷ b ∷ c ∷ d ∷ e ∷ r) h = absurd (omega arith)

two_bytes : (r : Bytes) → length r ≡ 2 → (a b : ℕ) × (r ≡ a ∷ b ∷ [])
two_bytes [] h = absurd (omega arith)
two_bytes (a ∷ []) h = absurd (omega arith)
two_bytes (a ∷ b ∷ []) h = (a, b, refl)
two_bytes (a ∷ b ∷ c ∷ r) h = absurd (omega arith)

-- An RTP video header whose sequence number, timestamp and ssrc fit 16, 32 and 32 bits, with four
-- reserved bytes, is read back as it was written.
pub deserialize_rtp-serialize_rtp :
    (h : RtpVideoHeader) → IsRtpVideoHeader h → deserialize_rtp (serialize_rtp h) ≡ h
unfolding deserialize_rtp serialize_rtp
deserialize_rtp-serialize_rtp h v = ground (arith, four_bytes h.reserved v.reserved_len)

pub deserialize_blocks-serialize_blocks :
    (b : VideoMultiFecBlocks)
    → IsVideoMultiFecBlocks b
    → deserialize_blocks (serialize_blocks b) ≡ b
unfolding deserialize_blocks serialize_blocks
deserialize_blocks-serialize_blocks b v = ground arith

pub deserialize_fec_info-serialize_fec_info :
    (f : VideoFecInfo) → IsVideoFecInfo f → deserialize_fec_info (serialize_fec_info f) ≡ f
unfolding deserialize_fec_info serialize_fec_info
deserialize_fec_info-serialize_fec_info f v = ground arith

serialize_blocks-lt : (b : VideoMultiFecBlocks) → serialize_blocks b < 2 ^ 8
unfolding serialize_blocks
serialize_blocks-lt b = omega arith

serialize_fec_info-lt : (f : VideoFecInfo) → serialize_fec_info f < 2 ^ 32
unfolding serialize_fec_info
serialize_fec_info-lt f = omega arith

le_word :
    (n : ℕ)
    → IsU32 n
    → u32_from_le (n % 2 ^ 8) (n / 2 ^ 8 % 2 ^ 8) (n / 2 ^ 16 % 2 ^ 8) (n / 2 ^ 24 % 2 ^ 8) ≡ n
le_word n h = omega arith

-- A video header is read back as it was written if its stream packet index and its frame index fit 32
-- bits, its two block indices 2 bits each with 4 unused bits, and its FEC info 10, 10, 8 and 4 bits.
pub deserialize_video-serialize_video :
    (h : VideoHeader) → IsVideoHeader h → deserialize_video (serialize_video h) ≡ h
unfolding deserialize_video serialize_video
deserialize_video-serialize_video h v = ground (
  arith,
  deserialize_blocks-serialize_blocks h.multi_fec_blocks v.blocks_fit,
  le_word (serialize_fec_info h.fec_info) (serialize_fec_info-lt h.fec_info),
  deserialize_fec_info-serialize_fec_info h.fec_info v.fec_info_fits,
)

pub deserialize_frame_type-serialize_frame_type :
    (t : ServerFrameType) → IsFrameType t → deserialize_frame_type (serialize_frame_type t) ≡ t
unfolding deserialize_frame_type serialize_frame_type
deserialize_frame_type-serialize_frame_type p_frame v = refl
deserialize_frame_type-serialize_frame_type (other n) v = ground arith
deserialize_frame_type-serialize_frame_type _ v = refl

serialize_frame_type-deserialize_frame_type :
    (n : ℕ) → serialize_frame_type (deserialize_frame_type n) ≡ n
unfolding deserialize_frame_type serialize_frame_type
serialize_frame_type-deserialize_frame_type n = ground arith

pub serialize_fec_info-deserialize_fec_info :
    (n : ℕ) → IsU32 n → serialize_fec_info (deserialize_fec_info n) ≡ n
unfolding deserialize_fec_info serialize_fec_info
serialize_fec_info-deserialize_fec_info n h = omega arith

-- A frame header is read back as it was written if its latency and its last payload length fit 16 bits,
-- it has two reserved bytes, and `Other` is not used for the number of a named frame type.
pub deserialize_frame_header-serialize_frame_header :
    (h : VideoFrameHeader)
    → IsVideoFrameHeader h
    → deserialize_frame_header (serialize_frame_header h) ≡ h
unfolding deserialize_frame_header serialize_frame_header
deserialize_frame_header-serialize_frame_header h v = ground (
  arith,
  two_bytes h.reserved v.reserved_len,
  deserialize_frame_type-serialize_frame_type h.frame_type v.frame_type_named,
)

serialize_blocks-deserialize_blocks : (n : ℕ) → IsU8 n → serialize_blocks (deserialize_blocks n) ≡ n
unfolding deserialize_blocks serialize_blocks
serialize_blocks-deserialize_blocks n h = omega arith

-- The first four bytes of a longer buffer.
split_four :
    (n : ℕ) (r : Bytes)
    → length r ≡ n + 4
    → (a b c d : ℕ) × (rest : Bytes) × (r ≡ a ∷ b ∷ c ∷ d ∷ rest) × (length rest ≡ n)
split_four n [] h = absurd (omega arith)
split_four n (a ∷ []) h = absurd (omega arith)
split_four n (a ∷ b ∷ []) h = absurd (omega arith)
split_four n (a ∷ b ∷ c ∷ []) h = absurd (omega arith)
split_four n (a ∷ b ∷ c ∷ d ∷ r) h = (a, b, c, d, r, refl, omega arith)

be_bytes :
    (a b c d : ℕ)
    → IsU8 a
    → IsU8 b
    → IsU8 c
    → IsU8 d
    → u32_to_be (u32_from_be a b c d) ≡ a ∷ b ∷ c ∷ d ∷ []
be_bytes a b c d ha hb hc hd = ground arith

le_bytes :
    (a b c d : ℕ)
    → IsU8 a
    → IsU8 b
    → IsU8 c
    → IsU8 d
    → u32_to_le (u32_from_le a b c d) ≡ a ∷ b ∷ c ∷ d ∷ []
le_bytes a b c d ha hb hc hd = ground arith

sixteen_bytes :
    (P : Bytes → Type 0)
    → ((a b c d e f g h i j k l m n o p : ℕ)
        → P (a ∷ b ∷ c ∷ d ∷ e ∷ f ∷ g ∷ h ∷ i ∷ j ∷ k ∷ l ∷ m ∷ n ∷ o ∷ p ∷ []))
    → (r : Bytes) → length r ≡ 16
    → P r
sixteen_bytes P each r len =
    let (a, b, c, d, r1, e1, l1) = split_four 12 r len in
    let (e, f, g, h, r2, e2, l2) = split_four 8 r1 l1 in
    let (i, j, k, l, r3, e3, l3) = split_four 4 r2 l2 in
    let (m, n, o, p, e4) = four_bytes r3 l3 in
    rw (e1, e2, e3, e4) (each a b c d e f g h i j k l m n o p)

-- Every buffer is the writing of the header that is read from it.
-- Any 16 bytes that are read as an RTP video header are written back unchanged.
pub serialize_rtp-deserialize_rtp :
    (buffer : Bytes)
    → length buffer ≡ 16
    → All IsU8 buffer
    → serialize_rtp (deserialize_rtp buffer) ≡ buffer
unfolding deserialize_rtp serialize_rtp
serialize_rtp-deserialize_rtp buffer len fits =
    sixteen_bytes (λ r. All IsU8 r → serialize_rtp (deserialize_rtp r) ≡ r)
      (λ a b c d e f g h i j k l m n o p fits. ground arith) buffer len fits

-- Any 16 bytes that are read as a video header are written back unchanged: no bit of them is lost.
pub serialize_video-deserialize_video :
    (buffer : Bytes)
    → length buffer ≡ 16
    → All IsU8 buffer
    → serialize_video (deserialize_video buffer) ≡ buffer
unfolding deserialize_video serialize_video
serialize_video-deserialize_video buffer len fits =
    sixteen_bytes (λ r. All IsU8 r → serialize_video (deserialize_video r) ≡ r)
      (λ a b c d e f g h i j k l m n o p fits. ground (
        arith,
        serialize_blocks-deserialize_blocks l,
        serialize_fec_info-deserialize_fec_info (u32_from_le m n o p),
      ))
      buffer len fits
