-- ===== src/Video/Depayloader/Frames.antt =====
-- Frames that leave the depayloader.
use mathlib.Core.List.{List}
use moonlight_common_rust.Video.Nal.{FrameType, VideoFrameBuffer, parse_frame}
use moonlight_common_rust.Common.{
  Outcome, ◌>>=◌, some, ℕ, ◌≡◌, false, Option, none, Bytes, ◌==◌, if◌then◌else◌, ok, arith,
}
use moonlight_common_rust.Common.Map.{get, get-remove}
use moonlight_common_rust.Video.Depayloader.{
  VideoDepayloader, VideoFrameMetadata, is_frame_available, take_frame, frame,
}

-- What `parse_frame` makes of a frame that was taken.
abbrev pub parsed :
    VideoDepayloader
    → Option (VideoFrameMetadata × Bytes)
    → Outcome ⊥ (Option (VideoFrameMetadata × (FrameType × List VideoFrameBuffer)))
parsed d none = ok none
parsed d (some (metadata, bytes)) =
    parse_frame metadata.frame_type bytes d.config.format >>= λ r. ok (some (metadata, r))

-- When `take_frame` returns, `frame` on the same state gives the same metadata, and the buffers that
-- `parse_frame` cuts the bytes that were taken into; `take_frame` removes the frame exactly if it is
-- available, and leaves every other frame and all packets as they are.
pub take_frame_lem :
    (d d' : VideoDepayloader) (frame_index other : ℕ) (result : Option (VideoFrameMetadata × Bytes))
    → take_frame d frame_index ≡ ok (d', result)
    → (frame d frame_index ≡ parsed d result)
      × (get other d'.frames ≡ (
          if (if frame_index == other then is_frame_available d frame_index else false)
          then none
          else get other d.frames))
      × (d'.packets ≡ d.packets)
unfolding take_frame frame is_frame_available
take_frame_lem d d' frame_index other result e =
    ground (arith, get-remove frame_index other d.frames)
