-- ===== src/Video/Nal/Cut.antt =====
-- A frame is cut at its start codes, and no byte from the first one on is lost.
mod Buffers
mod Steps
use mathlib.Core.List.{List, [], ◌∷◌, ◌++◌, append_assoc}
use moonlight_common_rust.Common.{
  ℕ, zero, suc, ◌+◌, ◌-◌, ◌≤◌, ◌<◌, ◌≡◌, ◌≢◌, ◌⊎◌, inl, inr, refl, ap, sym, ◌∙◌, arith, append-nil,
  Bool, true, false, not, ◌&&◌, ◌||◌, Bool-cases, Option, none, some, Outcome, ok, panic, assert,
  ◌>>=◌, ◌>>◌, Bytes, length, take, drop, slice, byte, ltb, leb, ◌==◌, if◌then◌else◌, All, take_all,
  length-drop,
}
use moonlight_common_rust.Video.Nal.Headers.{
  BufferType, pic_data, h264_parse, h265_parse, h264_buffer_type, h265_buffer_type,
}
use moonlight_common_rust.Video.Nal.{
  FrameType, VideoFormat, VideoFrameBuffer, Parser, Parsing, start, push, rotate, contained_in_h264,
  contained_in_h265, add_buffer, close, step, parse_from, finish, parse_nalus,
}
use moonlight_common_rust.Video.Nal.Codes.{
  drop-eq-cons, look, look-suc, look_found, CodeAt, NoCode, StartsWithCode, CodeFrom,
  CodeFrom-StartsWithCode, CodeFrom-before, CodeFrom-long, take-slice,
}
use moonlight_common_rust.Video.Nal.Cut.Buffers.{
  concat, concat-append, AllCoded, All-append, IsParsed, add_buffer_lem, Progress, pushed_lem,
}
use moonlight_common_rust.Video.Nal.Cut.Steps.{
  Looks, Inv, Looks-rotate, window_code, NoneIn-suc, close_lem, Progress-suc, found_step, step_lem,
}

loop_lem :
    (format : VideoFormat) (frame : Bytes) (i : ℕ) (rest : Bytes) (parser : Parser)
    → IsParsed format
    → Inv frame i parser
    → i ≤ length frame
    → drop i frame ≡ rest
    → (last : Parser) × (parse_from format frame i rest parser ≡ ok last)
      × Inv frame (length frame) last
unfolding parse_from
loop_lem format frame i [] parser parsed inv inside e =
    let n : length (drop i frame) ≡ 0 = ap length e in
    let all : length frame ≡ i = omega (arith, length-drop i frame) in (parser, refl, rw all inv)
loop_lem format frame i (value ∷ rest) parser parsed inv inside e =
    let (room, b, onward) = drop-eq-cons frame i value rest e in
    let (next, did, kept) = step_lem format frame i value parser parsed inv room b in
    let (last, done, held) =
      loop_lem format frame (suc i) rest next parsed kept (omega arith) onward in
    (last, rw (did, done), held)

-- No start code begins before `k`; the buffers are the frame's bytes from `k` on, and each begins with a
-- start code and has no other.
abbrev pub IsCut : (frame : Bytes) (buffers : List VideoFrameBuffer) → Type 0
IsCut frame buffers =
    (k : ℕ) × NoCode frame (k + 2) × (take k frame ++ concat buffers ≡ frame) × AllCoded buffers

byte_inside : (frame : Bytes) (q : ℕ) → byte frame q ≡ 1 → q < length frame
byte_inside [] q e = absurd (omega arith)
byte_inside (b ∷ frame) zero e = omega arith
byte_inside (b ∷ frame) (suc q) e = omega (arith, byte_inside frame q e)

finish_lem :
    (format : VideoFormat) (frame : Bytes) (last : Option (ℕ × ℕ)) (parser : Parser)
    → IsParsed format
    → Progress frame (length frame) last parser.buffers
    → (done : Parser) × (finish format frame last parser ≡ ok done) × IsCut frame done.buffers
unfolding finish
finish_lem format frame none parser parsed (empty, clean) = (
  parser,
  refl,
  (
    length frame,
    (λ j f h code. clean j f (omega (arith, byte_inside frame (j + 2) code.2)) code),
    rw (empty, append-nil (take (length frame) frame))
        (take_all (length frame) frame (omega arith)),
    rw empty tt,
  ),
)
finish_lem format frame (some (begin, len)) parser parsed
      (k, clean, whole, from, behind, coded, others) =
    let (ty, is_idr, added) = add_buffer_lem format len (drop begin frame) parser parsed in
    let e1 : leb begin (length frame) ≡ true = ground arith in
    let n : length (drop begin frame) ≡ length frame - begin = length-drop begin frame in
    let same : slice begin (length frame) frame ≡ drop begin frame =
      take_all (length frame - begin) (drop begin frame) (omega arith) in
    let (all, starts) =
      pushed_lem frame begin len (length frame) k parser.buffers ty from (omega arith) whole coded
        others in
    (
      push ty is_idr (drop begin frame) parser,
      rw (e1, added),
      (k, clean, rw same at all ∙ take_all (length frame) frame (omega arith), rw same at starts),
    )

-- For every H.264 or H.265 format and every frame: the parser returns, and cuts the frame at its
-- start codes. What stands before the first start code is left out; the buffers, one after the other,
-- are all the rest of the frame, and each begins with a start code of three or four bytes and has no start
-- code behind that one.
pub parse_nalus-IsCut :
    (frame : Bytes) (format : VideoFormat)
    → IsParsed format
    → (done : Parser) × (parse_nalus frame format ≡ ok done) × IsCut frame done.buffers
unfolding parse_nalus
parse_nalus-IsCut frame format parsed =
    let (last, ran, (looks, progress)) =
      loop_lem format frame 0 frame start parsed
        ((refl, refl, refl), (refl, (λ j f h code. absurd (omega arith)))) (omega arith) refl in
    let (done, ended, cut) = finish_lem format frame last.last_start_code last parsed progress in
    (done, rw (ran, ended), cut)
