-- ===== src/Video/Nal/Headers.antt =====
-- src/stream/proto/video/nal/h264.rs and h265.rs. A NAL unit type is its number; a flag is a bit, 0 or 1.
pub mod RoundTrip
use moonlight_common_rust.Common.{
  ℕ, ◌+◌, ◌*◌, ◌/◌, ◌%◌, ◌^◌, Bytes, [], ◌∷◌, ◌==◌, if◌then◌else◌, List,
}

pub data BufferType : Type 0 where
  pic_data sps pps vps : BufferType

pub record H264NalHeader : Type 0 where
  pub forbidden_zero_bit : ℕ
  pub nal_ref_idc : ℕ
  pub nal_unit_type : ℕ

unfoldable pub h264_parse : ℕ → H264NalHeader
h264_parse header = record {
  forbidden_zero_bit = header / 2 ^ 7 % 2;
  nal_ref_idc = header / 2 ^ 5 % 4;
  nal_unit_type = header % 2 ^ 5;
}

unfoldable pub h264_serialize : H264NalHeader → ℕ
h264_serialize h =
    h.forbidden_zero_bit * 2 ^ 7 + h.nal_ref_idc % 4 * 2 ^ 5 + h.nal_unit_type % 2 ^ 5

unfoldable pub h264_buffer_type : ℕ → BufferType
h264_buffer_type n = if n == 7 then sps else if n == 8 then pps else pic_data

pub record H265NalHeader : Type 0 where
  pub forbidden_zero_bit : ℕ
  pub nal_unit_type : ℕ
  pub nuh_layer_id : ℕ
  pub nuh_temporal_id_plus1 : ℕ

unfoldable pub h265_parse : ℕ → ℕ → H265NalHeader
h265_parse a b = record {
  forbidden_zero_bit = a / 2 ^ 7 % 2;
  nal_unit_type = a / 2 % 2 ^ 6;
  nuh_layer_id = a % 2 * 2 ^ 5 + b / 2 ^ 3 % 2 ^ 5;
  nuh_temporal_id_plus1 = b % 2 ^ 3;
}

unfoldable pub h265_serialize : H265NalHeader → ℕ × ℕ
h265_serialize h = (
  h.forbidden_zero_bit * 2 ^ 7 + h.nal_unit_type % 2 ^ 6 * 2 + h.nuh_layer_id / 2 ^ 5 % 2,
  h.nuh_layer_id % 2 ^ 5 * 2 ^ 3 + h.nuh_temporal_id_plus1 % 2 ^ 3,
)

unfoldable pub h265_buffer_type : ℕ → BufferType
h265_buffer_type n =
    if n == 32 then vps else if n == 33 then sps else if n == 34 then pps else pic_data
