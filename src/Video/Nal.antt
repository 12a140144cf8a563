-- ===== src/Video/Nal.antt =====
-- src/stream/proto/video/nal/mod.rs and `parse_frame` of video/frame.rs: a frame is cut at its annex B
-- start codes. A buffer of the frame is the list of its bytes.
pub mod Headers
pub mod Codes
pub mod Cut
mod Examples
use mathlib.Core.List.{List, [], ◌∷◌, ◌++◌}
use moonlight_common_rust.Common.{
  ℕ, suc, ◌+◌, ◌-◌, Bool, true, false, not, ◌&&◌, ◌||◌, Option, none, some, Outcome, ok, panic,
  assert, ◌>>=◌, ◌>>◌, Bytes, length, drop, slice, byte, ltb, leb, ◌==◌, if◌then◌else◌,
}
use moonlight_common_rust.Video.Packet.{ServerFrameType, idr as server_idr}
use moonlight_common_rust.Video.Nal.Headers.{
  BufferType, pic_data, h264_parse, h265_parse, h264_buffer_type, h265_buffer_type,
}

pub data FrameType : Type 0 where
  p_frame idr : FrameType

pub data VideoFormat : Type 0 where
  h264 h264_high8_444 h265 h265_main10 h265_rext8_444 h265_rext10_444 av1_main8 av1_main10
        av1_high8_444 av1_high10_444 :
      VideoFormat

-- `contained_in` with `MASK_H264` and with `MASK_H265`.
unfoldable pub contained_in_h264 : VideoFormat → Bool
contained_in_h264 h264 = true
contained_in_h264 h264_high8_444 = true
contained_in_h264 _ = false

unfoldable pub contained_in_h265 : VideoFormat → Bool
contained_in_h265 h265 = true
contained_in_h265 h265_main10 = true
contained_in_h265 h265_rext8_444 = true
contained_in_h265 h265_rext10_444 = true
contained_in_h265 _ = false

pub record VideoFrameBuffer : Type 0 where
  pub buffer_type : BufferType
  pub data_bytes : Bytes

-- The variables of `parse_nalus`; `last_start_code` is where the code begins, and its length.
pub record Parser : Type 0 where
  pub window_0 : ℕ
  pub window_1 : ℕ
  pub window_2 : ℕ
  pub window_3 : ℕ
  pub last_start_code : Option (ℕ × ℕ)
  pub parsed_frame_type : FrameType
  pub buffers : List VideoFrameBuffer

abbrev pub start : Parser
start = record {
  window_0 = 2;
  window_1 = 2;
  window_2 = 2;
  window_3 = 2;
  last_start_code = none;
  parsed_frame_type = p_frame;
  buffers = [];
}

abbrev pub Parsing : Type 0
Parsing = Outcome ⊥ Parser

abbrev pub push : BufferType → Bool → Bytes → Parser → Parser
push ty is_idr buffer parser = record {
  window_0 = parser.window_0;
  window_1 = parser.window_1;
  window_2 = parser.window_2;
  window_3 = parser.window_3;
  last_start_code = parser.last_start_code;
  parsed_frame_type = if is_idr then idr else parser.parsed_frame_type;
  buffers = parser.buffers ++ (record { buffer_type = ty; data_bytes = buffer } ∷ []);
}

-- `add_buffer`. An `assert` stands for the index that the code reads at.
unfoldable pub add_buffer : VideoFormat → (nalu_start : ℕ) (buffer : Bytes) → Parser → Parsing
add_buffer format nalu_start buffer parser =
    if contained_in_h264 format
    then (if ltb (length buffer) (nalu_start + 1)
        then ok (push pic_data false buffer parser)
        else (let header = h264_parse (byte buffer nalu_start) in
            assert (ltb nalu_start (length buffer))
            >> ok (
                push (h264_buffer_type header.nal_unit_type) (header.nal_unit_type == 5) buffer
                  parser)))
    else if contained_in_h265 format
    then (if ltb (length buffer) (nalu_start + 2)
        then ok (push pic_data false buffer parser)
        else (let header = h265_parse (byte buffer nalu_start) (byte buffer (nalu_start + 1)) in
            assert (ltb (nalu_start + 1) (length buffer))
            >> ok (
                push (h265_buffer_type header.nal_unit_type)
                  (leb 16 header.nal_unit_type && leb header.nal_unit_type 21) buffer parser)))
    else panic

-- The buffer from the last start code to the new one, if there was one.
unfoldable pub close :
    VideoFormat → (frame : Bytes) (new_start_code_begin : ℕ) → Option (ℕ × ℕ) → Parser → Parsing
close format frame begin none parser = ok parser
close format frame begin (some (last_begin, last_len)) parser =
    assert (leb last_begin begin)
    >> (assert (leb begin (length frame))
        >> (assert (not (last_len == 0))
            >> add_buffer format last_len (slice last_begin begin frame) parser))

abbrev pub rotate : ℕ → Option (ℕ × ℕ) → Parser → Parser
rotate value code parser = record {
  window_0 = parser.window_1;
  window_1 = parser.window_2;
  window_2 = parser.window_3;
  window_3 = value;
  last_start_code = code;
  parsed_frame_type = parser.parsed_frame_type;
  buffers = parser.buffers;
}

-- One turn of the loop, at a byte. The window is that of the parser, moved by the byte.
unfoldable pub step : VideoFormat → (frame : Bytes) (i value : ℕ) → Parser → Parsing
step format frame i value parser =
    if (parser.window_2 == 0) && (parser.window_3 == 0) && (value == 1)
    then (let len = if parser.window_1 == 0 then 4 else 3 in
        assert (leb (len - 1) i)
        >> (close format frame (i - (len - 1)) parser.last_start_code parser
            >>= (λ closed. ok (rotate value (some (i - (len - 1), len)) closed))))
    else ok (rotate value parser.last_start_code parser)

-- The loop, on the bytes from the index `i` on.
unfoldable pub parse_from : VideoFormat → (frame : Bytes) (i : ℕ) (rest : Bytes) → Parser → Parsing
parse_from format frame i [] parser = ok parser
parse_from format frame i (value ∷ rest) parser =
    step format frame i value parser >>= parse_from format frame (suc i) rest

-- The buffer behind the last start code.
unfoldable pub finish : VideoFormat → (frame : Bytes) → Option (ℕ × ℕ) → Parser → Parsing
finish format frame none parser = ok parser
finish format frame (some (begin, len)) parser =
    assert (leb begin (length frame)) >> add_buffer format len (drop begin frame) parser

unfoldable pub parse_nalus : (frame : Bytes) → VideoFormat → Parsing
parse_nalus frame format =
    parse_from format frame 0 frame start
    >>= (λ parser. finish format frame parser.last_start_code parser)

-- `parse_frame`: the frame's type and its buffers.
unfoldable pub parse_frame :
    ServerFrameType → (frame : Bytes) → VideoFormat → Outcome ⊥ (FrameType × List VideoFrameBuffer)
parse_frame server_type frame format =
    if contained_in_h264 format || contained_in_h265 format
    then parse_nalus frame format >>= (λ parser. ok (parser.parsed_frame_type, parser.buffers))
    else ok (
      elim server_type [ server_idr ↦ idr | _ ↦ p_frame ],
      record { buffer_type = pic_data; data_bytes = frame } ∷ [],
    )
