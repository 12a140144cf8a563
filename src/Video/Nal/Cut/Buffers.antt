-- ===== src/Video/Nal/Cut/Buffers.antt =====
-- The buffers of a frame, while they are pushed.
use mathlib.Core.List.{List, [], ◌∷◌, ◌++◌, append_assoc}
use moonlight_common_rust.Common.{
  ℕ, ◌+◌, ◌-◌, ◌≤◌, ◌≡◌, inl, inr, refl, sym, arith, append-nil, Bool, true, false, ◌&&◌, ◌||◌,
  Bool-cases, Option, none, some, ok, Bytes, length, take, slice, byte, ltb, leb, ◌==◌, All,
}
use moonlight_common_rust.Video.Nal.Headers.{
  BufferType, pic_data, h264_parse, h265_parse, h264_buffer_type, h265_buffer_type,
}
use moonlight_common_rust.Video.Nal.{
  VideoFormat, VideoFrameBuffer, Parser, push, contained_in_h264, contained_in_h265, add_buffer,
}
use moonlight_common_rust.Video.Nal.Codes.{
  NoCode, NoneIn, NoneIn-slice, IsUnit, CodeFrom, CodeFrom-StartsWithCode, take-slice,
}

abbrev pub concat : List VideoFrameBuffer → Bytes
concat [] = []
concat (b ∷ bs) = b.data_bytes ++ concat bs

pub concat-append : (bs cs : List VideoFrameBuffer) → concat (bs ++ cs) ≡ concat bs ++ concat cs
concat-append [] cs = refl
concat-append (b ∷ bs) cs =
    rw (concat-append bs cs) (sym (append_assoc b.data_bytes (concat bs) (concat cs)))

abbrev pub AllCoded : List VideoFrameBuffer → Type 0
AllCoded = All (λ b. IsUnit b.data_bytes)

pub All-append :
    (bs : List VideoFrameBuffer) (b : VideoFrameBuffer)
    → AllCoded bs
    → IsUnit b.data_bytes
    → AllCoded (bs ++ (b ∷ []))
All-append [] b all h = (h, tt)
All-append (c ∷ bs) b (first, others) h = (first, All-append bs b others h)

abbrev pub IsParsed : VideoFormat → Type 0
IsParsed format = contained_in_h264 format || contained_in_h265 format ≡ true

pub add_buffer_lem :
    (format : VideoFormat) (nalu_start : ℕ) (buffer : Bytes) (parser : Parser)
    → IsParsed format
    → (ty : BufferType) × (is_idr : Bool) × (add_buffer format nalu_start buffer parser
        ≡ ok (push ty is_idr buffer parser))
unfolding add_buffer
add_buffer_lem format nalu_start buffer parser parsed =
    elim (Bool-cases (contained_in_h264 format)) [
      | inl e ↦ elim (Bool-cases (ltb (length buffer) (nalu_start + 1))) [
        | inl short ↦ (pic_data, false, rw (e, short))
        | inr long ↦
            let header = h264_parse (byte buffer nalu_start) in
            let room : ltb nalu_start (length buffer) ≡ true = ground arith in
            (h264_buffer_type header.nal_unit_type, header.nal_unit_type == 5, rw (e, long, room))
      ]
      | inr e ↦
          let f : contained_in_h265 format ≡ true = ground arith in
          elim (Bool-cases (ltb (length buffer) (nalu_start + 2))) [
            | inl short ↦ (pic_data, false, rw (e, f, short))
            | inr long ↦
                let header = h265_parse (byte buffer nalu_start) (byte buffer (nalu_start + 1)) in
                let room : ltb (nalu_start + 1) (length buffer) ≡ true = ground arith in
                (
                  h265_buffer_type header.nal_unit_type,
                  leb 16 header.nal_unit_type && leb header.nal_unit_type 21,
                  rw (e, f, long, room),
                )
          ]
    ]

-- What is known once the bytes before `i` have been read.
abbrev pub Progress : Bytes → (i : ℕ) → Option (ℕ × ℕ) → List VideoFrameBuffer → Type 0
Progress frame i none buffers = (buffers ≡ []) × NoCode frame i
Progress frame i (some (begin, len)) buffers =
    (k : ℕ) × NoCode frame (k + 2)
    × (take k frame ++ concat buffers ≡ take begin frame)
    × CodeFrom frame begin len
    × (begin + len ≤ i)
    × AllCoded buffers
    × NoneIn frame (begin + 2) i

-- A buffer from a start code up to a later place is pushed.
pub pushed_lem :
    (frame : Bytes) (begin len next k : ℕ) (buffers : List VideoFrameBuffer) (ty : BufferType)
    → CodeFrom frame begin len
    → begin + len ≤ next
    → take k frame ++ concat buffers ≡ take begin frame
    → AllCoded buffers
    → NoneIn frame (begin + 2) next
    → (let all =
          buffers ++ (record { buffer_type = ty; data_bytes = slice begin next frame } ∷ []) in
        (take k frame ++ concat all ≡ take next frame) × AllCoded all)
pushed_lem frame begin len next k buffers ty code behind whole coded others =
    let b : VideoFrameBuffer = record { buffer_type = ty; data_bytes = slice begin next frame } in
    (
      rw
          (
            concat-append buffers (b ∷ []),
            append-nil (slice begin next frame),
            sym (append_assoc (take k frame) (concat buffers) (slice begin next frame)),
            whole,
          )
          (take-slice frame begin next (omega arith)),
      All-append buffers b coded (
        CodeFrom-StartsWithCode frame begin len (next - begin) code (omega arith),
        NoneIn-slice frame begin next others,
      ),
    )
