-- ===== src/Video/Depayloader.antt =====
-- src/stream/proto/video/depayloader.rs: the state of the depayloader, what can be asked of it, and
-- the frame header. A BTreeMap is an association list in key order. `debug_assert` and logging are
-- left out (the release profile).
pub mod Construct
pub mod Handle
pub mod Frames
pub mod Rounds
pub mod Progress
pub mod Invariant
use moonlight_common_rust.Common.{
  ℕ, zero, suc, ◌+◌, ◌-◌, ◌*◌, ◌/◌, ◌%◌, Bool, true, false, not, ◌&&◌, ◌||◌, List, [], ◌∷◌, map,
  Option, none, some, Bytes, length, slice, replicate, retain, ltb, leb, ◌==◌, if◌then◌else◌,
  Outcome, ok, panic, ◌>>=◌, ◌>>◌, assert,
}
use moonlight_common_rust.Common.Map.{Map, get, remove, contains_key}
use moonlight_common_rust.Version.{ServerVersion, version, at_least}
use moonlight_common_rust.Video.Nal.{
  FrameType, VideoFormat, VideoFrameBuffer, contained_in_h264, contained_in_h265, parse_frame,
}
use moonlight_common_rust.Video.Packet.{
  RtpVideoHeader, VideoHeader, VideoFrameHeader, ServerFrameType, p_frame, deserialize_frame_header,
  video_header_size,
}

pub data VideoDepayloaderError : Type 0 where
  packet_invalid_size reed_solomon : VideoDepayloaderError

pub record VideoDepayloaderConfig : Type 0 where
  pub packet_size : ℕ
  pub format : VideoFormat
  pub server_version : ServerVersion

pub record Packet : Type 0 where
  pub rtp_header : RtpVideoHeader
  pub video_header : VideoHeader
  pub content : Bytes

pub record Frame : Type 0 where
  pub current_block : ℕ
  pub buffer_offset : ℕ
  pub available_shards : List Bool
  pub total_data_shards : Option ℕ
  pub fec_percentage : Option ℕ
  pub last_block_index : ℕ
  pub timestamp : ℕ
  pub buffer : Bytes

pub record VideoDepayloader : Type 0 where
  pub config : VideoDepayloaderConfig
  pub packets : Map Packet
  pub frames : Map Frame

unfoldable pub new : VideoDepayloaderConfig → VideoDepayloader
new config = record { config = config; packets = []; frames = [] }

abbrev pub payload_len : VideoDepayloader → ℕ
payload_len d = d.config.packet_size - video_header_size

unfoldable pub is_frame_known : VideoDepayloader → ℕ → Bool
unfolding contains_key get
is_frame_known d frame_index = contains_key frame_index d.frames

unfoldable pub known_frames : VideoDepayloader → List ℕ
known_frames d = map (λ entry. entry.0) d.frames

-- All blocks are there.
abbrev pub is_complete : Frame → Bool
is_complete f = ltb f.last_block_index f.current_block

unfoldable pub available_frames : VideoDepayloader → List ℕ
available_frames d = map (λ entry. entry.0) (retain (λ entry. is_complete entry.1) d.frames)

unfoldable pub constructed_frame : VideoDepayloader → ℕ → Option Frame
constructed_frame d frame_index = elim (get frame_index d.frames) [
  | none ↦ none
  | some f ↦ if leb f.current_block f.last_block_index then none else some f
]

unfoldable pub is_frame_available : VideoDepayloader → ℕ → Bool
is_frame_available d frame_index = elim (constructed_frame d frame_index) [
  | none ↦ false
  | some f ↦ true
]

-- Seconds and nanoseconds of a 90 kHz clock.
unfoldable pub rtp_timestamp_to_duration : ℕ → ℕ × ℕ
rtp_timestamp_to_duration ts = (ts / 90_000, ts % 90_000 * 1_000_000_000 / 90_000)

-- The latency is in microseconds.
pub record VideoFrameMetadata : Type 0 where
  pub frame_index : ℕ
  pub frame_type : ServerFrameType
  pub timestamp : ℕ × ℕ
  pub host_processing_latency : Option ℕ

-- `contained_in(MASK_H264 | MASK_H265)`
abbrev pub is_h264_or_h265 : VideoFormat → Bool
is_h264_or_h265 format = contained_in_h264 format || contained_in_h265 format

unfoldable pub frame_header_len : ServerVersion → ℕ → ℕ
frame_header_len v header_type =
    if at_least v (version 7 1 450)
    then if header_type == 0x01 then 8 else 44
    else if at_least v (version 7 1 446)
    then if header_type == 0x01 then 8 else 41
    else if at_least v (version 7 1 415)
    then if header_type == 0x01 then 8 else 24
    else if at_least v (version 7 1 350)
    then 8
    else if at_least v (version 7 1 320)
    then 12
    else if at_least v (version 5 0 0)
    then 8
    else 0

-- The length of the frame behind the cut for codecs that cannot have zeros at the end.
unfoldable pub frame_len : VideoDepayloader → VideoFrameHeader → ℕ → Outcome ⊥ ℕ
frame_len d header len =
    if is_h264_or_h265 d.config.format
    then ok len
    else let end = len - payload_len d + header.last_payload_len in (assert (leb end len) >> ok end)

unfoldable pub metadata_of : ℕ → ℕ × ℕ → VideoFrameHeader → VideoFrameMetadata
metadata_of frame_index timestamp header = record {
  frame_index = frame_index;
  frame_type = header.frame_type;
  timestamp = timestamp;
  host_processing_latency =
      if header.host_processing_latency == 0
      then none
      else some (header.host_processing_latency * 100);
}

-- The metadata and the range of the frame's bytes.
unfoldable pub parse_frame_header :
    VideoDepayloader → ℕ → ℕ × ℕ → Bytes → Outcome ⊥ (VideoFrameMetadata × ℕ × ℕ)
parse_frame_header d frame_index timestamp full_frame =
    let header = deserialize_frame_header (slice 0 8 full_frame) in
    let missing : VideoFrameMetadata = record {
      frame_index = frame_index;
      frame_type = p_frame;
      timestamp = timestamp;
      host_processing_latency = none;
    } in
    if ltb (length full_frame) 8
    then ok (missing, 0, 0)
    else (frame_len d header (length full_frame) >>= λ end. ok (
      metadata_of frame_index timestamp header,
      frame_header_len d.config.server_version header.header_type,
      end,
    ))

-- `&bytes[start..end]`
abbrev pub checked_slice : ℕ → ℕ → Bytes → Outcome ⊥ Bytes
checked_slice start end bytes =
    assert (leb start end && leb end (length bytes)) >> ok (slice start end bytes)

unfoldable pub frame_of : VideoDepayloader → ℕ → Frame → Outcome ⊥ (VideoFrameMetadata × Bytes)
frame_of d frame_index f = do
  (metadata, start, end) ←
      parse_frame_header d frame_index (rtp_timestamp_to_duration f.timestamp) f.buffer
  bytes ← checked_slice start end f.buffer
  ok (metadata, bytes)

unfoldable pub frame_metadata : VideoDepayloader → ℕ → Outcome ⊥ (Option VideoFrameMetadata)
frame_metadata d frame_index = elim (constructed_frame d frame_index) [
  | none ↦ ok none
  | some f ↦
      parse_frame_header d frame_index (rtp_timestamp_to_duration f.timestamp) f.buffer >>= λ r.
      ok (some r.0)
]

-- The metadata, the frame type that `parse_frame` finds, and the buffers.
unfoldable pub frame :
    VideoDepayloader
    → ℕ
    → Outcome ⊥ (Option (VideoFrameMetadata × (FrameType × List VideoFrameBuffer)))
frame d frame_index = elim (constructed_frame d frame_index) [
  | none ↦ ok none
  | some f ↦ do
    (metadata, bytes) ← frame_of d frame_index f
    parsed ← parse_frame metadata.frame_type bytes d.config.format
    ok (some (metadata, parsed))
]

-- The frame leaves the depayloader.
unfoldable pub take_frame :
    VideoDepayloader → ℕ → Outcome ⊥ (VideoDepayloader × Option (VideoFrameMetadata × Bytes))
take_frame d frame_index = elim (constructed_frame d frame_index) [
  | none ↦ ok (d, none)
  | some f ↦ frame_of d frame_index f >>= λ r.
      ok (record d { frames = remove frame_index d.frames }, some r)
]

abbrev pub is_of_frame : ℕ → ℕ × Packet → Bool
is_of_frame frame_index entry = entry.1.video_header.frame_index == frame_index

unfoldable pub discard_frame : VideoDepayloader → ℕ → VideoDepayloader
discard_frame d frame_index = record d {
  frames = remove frame_index d.frames;
  packets = retain (λ entry. not (is_of_frame frame_index entry)) d.packets;
}
