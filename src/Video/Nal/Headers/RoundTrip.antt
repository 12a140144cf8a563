-- ===== src/Video/Nal/Headers/RoundTrip.antt =====
-- Headers of NAL units that are written and read, and the bytes that they are read from.
use moonlight_common_rust.Common.{ℕ, ◌+◌, ◌*◌, ◌/◌, ◌%◌, ◌^◌, ◌<◌, ◌≡◌, arith, IsU8}
use moonlight_common_rust.Video.Nal.Headers.{
  h264_parse, h264_serialize, H265NalHeader, h265_parse, h265_serialize,
}

-- Every byte is the header that is read from it, written again; and every H.264 header whose fields fit
-- their bits is read back.
pub h264_parse-h264_serialize :
    (b f r t : ℕ)
    → IsU8 b
    → f < 2
    → r < 4
    → t < 2 ^ 5
    → (h264_serialize (h264_parse b) ≡ b)
      × (h264_parse
            (h264_serialize (record { forbidden_zero_bit = f; nal_ref_idc = r; nal_unit_type = t }))
          ≡ record { forbidden_zero_bit = f; nal_ref_idc = r; nal_unit_type = t })
unfolding h264_parse h264_serialize
h264_parse-h264_serialize b f r t hb hf hr ht =
    let n = f * 2 ^ 7 + r % 4 * 2 ^ 5 + t % 2 ^ 5 in
    let e0 : n / 2 ^ 7 % 2 ≡ f = omega arith in
    let e1 : n / 2 ^ 5 % 4 ≡ r = omega arith in
    let e2 : n % 2 ^ 5 ≡ t = omega arith in (omega arith, rw (e0, e1, e2))

-- Every two bytes are the H.265 header that is read from them, written again; and every header whose
-- fields fit their bits is read back.
pub h265_parse-h265_serialize :
    (a b f t l i : ℕ)
    → IsU8 a
    → IsU8 b
    → f < 2
    → t < 2 ^ 6
    → l < 2 ^ 6
    → i < 2 ^ 3
    → (h265_serialize (h265_parse a b) ≡ (a, b))
      × (let h : H265NalHeader = record {
        forbidden_zero_bit = f;
        nal_unit_type = t;
        nuh_layer_id = l;
        nuh_temporal_id_plus1 = i;
      } in
          h265_parse (h265_serialize h).0 (h265_serialize h).1 ≡ h)
unfolding h265_parse h265_serialize
h265_parse-h265_serialize a b f t l i ha hb hf ht hl hi =
    let n = f * 2 ^ 7 + t % 2 ^ 6 * 2 + l / 2 ^ 5 % 2 in
    let m = l % 2 ^ 5 * 2 ^ 3 + i % 2 ^ 3 in
    let e0 : n / 2 ^ 7 % 2 ≡ f = omega arith in
    let e1 : n / 2 % 2 ^ 6 ≡ t = omega arith in
    let e2 : n % 2 * 2 ^ 5 + m / 2 ^ 3 % 2 ^ 5 ≡ l = omega arith in
    let e3 : m % 2 ^ 3 ≡ i = omega arith in
    let k = a % 2 * 2 ^ 5 + b / 2 ^ 3 % 2 ^ 5 in
    let b0 : a / 2 ^ 7 % 2 * 2 ^ 7 + a / 2 % 2 ^ 6 % 2 ^ 6 * 2 + k / 2 ^ 5 % 2 ≡ a = omega arith in
    let b1 : k % 2 ^ 5 * 2 ^ 3 + b % 2 ^ 3 % 2 ^ 3 ≡ b = omega arith in
    (rw (b0, b1), rw (e0, e1, e2, e3))
