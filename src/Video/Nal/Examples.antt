-- ===== src/Video/Nal/Examples.antt =====
-- The theorems on NAL units at a concrete frame and at concrete headers.
use moonlight_common_rust.Common.{◌≡◌, refl, arith, [], ◌∷◌, Bytes, ok}
use moonlight_common_rust.Video.Nal.{
  Parser, h264, parse_nalus, contained_in_h264, contained_in_h265,
}
use moonlight_common_rust.Video.Nal.Headers.{
  h264_parse, h264_serialize, H265NalHeader, h265_parse, h265_serialize,
}
use moonlight_common_rust.Video.Nal.Headers.RoundTrip.{
  h264_parse-h264_serialize, h265_parse-h265_serialize,
}
use moonlight_common_rust.Video.Nal.Cut.{IsCut, parse_nalus-IsCut}

-- A byte too much, a parameter set behind a long start code and a slice behind a short one.
abbrev frame : Bytes
frame = 9 ∷ 0 ∷ 0 ∷ 0 ∷ 1 ∷ 0x67 ∷ 1 ∷ 0 ∷ 0 ∷ 1 ∷ 0x65 ∷ 2 ∷ []

parse_nalus-IsCut_example :
    (done : Parser) × (parse_nalus frame h264 ≡ ok done) × IsCut frame done.buffers
unfolding contained_in_h264 contained_in_h265
parse_nalus-IsCut_example = parse_nalus-IsCut frame h264 refl

h264_parse-h264_serialize_example :
    (h264_serialize (h264_parse 0x67) ≡ 0x67)
    × (h264_parse
          (h264_serialize (record { forbidden_zero_bit = 0; nal_ref_idc = 3; nal_unit_type = 5 }))
        ≡ record { forbidden_zero_bit = 0; nal_ref_idc = 3; nal_unit_type = 5 })
h264_parse-h264_serialize_example =
    h264_parse-h264_serialize 0x67 0 3 5 (omega arith) (omega arith) (omega arith) (omega arith)

abbrev slice_header : H265NalHeader
slice_header = record {
  forbidden_zero_bit = 0;
  nal_unit_type = 19;
  nuh_layer_id = 40;
  nuh_temporal_id_plus1 = 1;
}

h265_parse-h265_serialize_example :
    (h265_serialize (h265_parse 0x26 1) ≡ (0x26, 1))
    × (h265_parse (h265_serialize slice_header).0 (h265_serialize slice_header).1 ≡ slice_header)
h265_parse-h265_serialize_example =
    h265_parse-h265_serialize 0x26 1 0 19 40 1 (omega arith) (omega arith) (omega arith)
      (omega arith) (omega arith) (omega arith)
