-- ===== src/Video/Nal/Cut/Steps.antt =====
-- One turn of the parser's loop, at a byte.
use mathlib.Core.List.{List}
use moonlight_common_rust.Common.{
  ℕ, suc, ◌+◌, ◌-◌, ◌≤◌, ◌<◌, ◌≡◌, inl, inr, refl, ap, sym, ◌∙◌, arith, append-nil, true, false,
  ◌&&◌, Bool-cases, Option, none, some, ok, Bytes, length, take, slice, byte, leb, ◌==◌,
  if◌then◌else◌,
}
use moonlight_common_rust.Video.Nal.{
  VideoFormat, VideoFrameBuffer, Parser, push, rotate, close, step,
}
use moonlight_common_rust.Video.Nal.Codes.{
  look, look-suc, look_found, NoneIn, CodeFrom-short, CodeFrom, CodeFrom-before, CodeFrom-long,
}
use moonlight_common_rust.Video.Nal.Cut.Buffers.{IsParsed, add_buffer_lem, Progress, pushed_lem}

-- The first window places of the parser are the bytes before `i`.
abbrev pub Looks : Bytes → ℕ → Parser → Type 0
Looks frame i parser =
    (parser.window_1 ≡ look frame i 3)
    × (parser.window_2 ≡ look frame i 2)
    × (parser.window_3 ≡ look frame i 1)

abbrev pub Inv : Bytes → ℕ → Parser → Type 0
Inv frame i parser = Looks frame i parser × Progress frame i parser.last_start_code parser.buffers

pub Looks-rotate :
    (frame : Bytes) (i value : ℕ) (code : Option (ℕ × ℕ)) (parser other : Parser)
    → Looks frame i parser
    → (other.window_2 ≡ parser.window_2) × (other.window_3 ≡ parser.window_3)
    → byte frame i ≡ value
    → Looks frame (suc i) (rotate value code other)
Looks-rotate frame i value code parser other (w1, w2, w3) (same_2, same_3) b =
    let e : suc i - 1 ≡ i = omega arith in
    let l : leb 1 (suc i) ≡ true = ground arith in
    (
      same_2 ∙ w2 ∙ sym (look-suc frame i 2),
      same_3 ∙ w3 ∙ sym (look-suc frame i 1),
      rw (l, e) (sym b),
    )

-- The code that the window shows at `i`.
pub window_code :
    (frame : Bytes) (i : ℕ)
    → i < length frame
    → look frame i 2 ≡ 0
    → look frame i 1 ≡ 0
    → byte frame i ≡ 1
    → (let len : ℕ = if look frame i 3 == 0 then 4 else 3 in
        (len - 1 ≤ i) × CodeFrom frame (i - (len - 1)) len × (i - (len - 1) + len ≡ suc i))
window_code frame i room l2 l1 one =
    let (in2, b2) = look_found frame i 2 0 l2 (omega arith) in
    let (in1, b1) = look_found frame i 1 0 l1 (omega arith) in
    elim (Bool-cases (look frame i 3 == 0)) [
      | inl e ↦
          let l3 : look frame i 3 ≡ 0 = ground arith in
          let (in3, b3) = look_found frame i 3 0 l3 (omega arith) in
          let p1 : i - 3 + 1 ≡ i - 2 = omega arith in
          let p2 : i - 3 + 1 + 1 ≡ i - 1 = omega arith in
          let p3 : i - 3 + 1 + 2 ≡ i = omega arith in
          rw e (in3, (omega arith, inr (refl, b3, (rw p1 b2, rw p2 b1, rw p3 one))), omega arith)
      | inr e ↦
          let p1 : i - 2 + 1 ≡ i - 1 = omega arith in
          let p2 : i - 2 + 2 ≡ i = omega arith in
          rw e (in2, (omega arith, inl (refl, (b2, rw p1 b1, rw p2 one))), omega arith)
    ]

-- No new code ends at `i`, when the window does not show one.
pub NoneIn-suc :
    (frame : Bytes) (first i : ℕ)
    → NoneIn frame first i
    → ((look frame i 2 == 0) && (look frame i 1 == 0) && (byte frame i == 1)) ≡ false
    → NoneIn frame first (suc i)
NoneIn-suc frame first i clean shown j f h (e0, e1, e2) = elim (Bool-cases (leb (j + 3) i)) [
  | inl e ↦ clean j f (ground arith) (e0, e1, e2)
  | inr e ↦
      let at : i ≡ j + 2 = ground arith in
      let l2 : leb 2 i ≡ true = ground arith in
      let l1 : leb 1 i ≡ true = ground arith in
      let p2 : i - 2 ≡ j = omega arith in
      let p1 : i - 1 ≡ j + 1 = omega arith in
      let w2 : look frame i 2 ≡ 0 = rw (l2, p2) e0 in
      let w1 : look frame i 1 ≡ 0 = rw (l1, p1) e1 in
      let w0 : byte frame i ≡ 1 = rw at e2 in absurd (cc (w2, w1, w0, shown))
]

-- After the code at `i`, with the buffer before it pushed if there is one.
pub close_lem :
    (format : VideoFormat) (frame : Bytes) (i next len : ℕ) (last : Option (ℕ × ℕ))
    (parser : Parser)
    → IsParsed format
    → Progress frame i last parser.buffers
    → CodeFrom frame next len
    → next + len ≡ suc i
    → (closed : Parser) × (close format frame next last parser ≡ ok closed)
      × (closed.window_2 ≡ parser.window_2)
      × (closed.window_3 ≡ parser.window_3)
      × Progress frame (suc i) (some (next, len)) closed.buffers
unfolding close
close_lem format frame i next len none parser parsed (empty, clean) code ends = (
  parser,
  refl,
  refl,
  refl,
  (
    next,
    (λ j f h. clean j f (omega arith)),
    rw (empty, append-nil (take next frame)),
    code,
    omega arith,
    rw empty tt,
    (λ j f h. absurd (omega (arith, CodeFrom-short frame next len code))),
  ),
)
close_lem format frame i next len (some (begin, old)) parser parsed
      (k, clean, whole, from, behind, coded, others) code ends =
    let after : begin + old ≤ next =
      CodeFrom-before frame begin old next len from code (omega arith) in
    let (ty, is_idr, added) = add_buffer_lem format old (slice begin next frame) parser parsed in
    let e1 : leb begin next ≡ true = ground arith in
    let e2 : leb next (length frame) ≡ true = ground arith in
    let long : 2 < old = CodeFrom-long frame begin old from in
    let e3 : (old == 0) ≡ false = ground arith in
    let (all, starts) =
      pushed_lem frame begin old next k parser.buffers ty from after whole coded
        (λ j f h. others j f (omega (arith, CodeFrom-long frame next len code))) in
    (
      push ty is_idr (slice begin next frame) parser,
      rw (e1, e2, e3, added),
      refl,
      refl,
      (
        k,
        clean,
        all,
        code,
        omega arith,
        starts,
        (λ j f h. absurd (omega (arith, CodeFrom-short frame next len code))),
      ),
    )

pub Progress-suc :
    (frame : Bytes) (i : ℕ) (last : Option (ℕ × ℕ)) (buffers : List VideoFrameBuffer)
    → Progress frame i last buffers
    → ((look frame i 2 == 0) && (look frame i 1 == 0) && (byte frame i == 1)) ≡ false
    → Progress frame (suc i) last buffers
Progress-suc frame i none buffers (empty, clean) shown = (empty, NoneIn-suc frame 0 i clean shown)
Progress-suc frame i (some (begin, len)) buffers (k, clean, whole, from, behind, coded, others)
      shown =
    (k, clean, whole, from, omega arith, coded, NoneIn-suc frame (begin + 2) i others shown)

pub found_step :
    (format : VideoFormat) (frame : Bytes) (i value len begin : ℕ) (parser closed : Parser)
    → ((parser.window_2 == 0) && (parser.window_3 == 0) && (value == 1)) ≡ true
    → (if parser.window_1 == 0 then 4 else 3) ≡ len
    → i - (len - 1) ≡ begin
    → len - 1 ≤ i
    → close format frame begin parser.last_start_code parser ≡ ok closed
    → step format frame i value parser ≡ ok (rotate value (some (begin, len)) closed)
unfolding step
found_step format frame i value len begin parser closed shown measured first inside did =
    let e : leb (len - 1) i ≡ true = ground arith in rw (shown, measured, e, first, did)

pub step_lem :
    (format : VideoFormat) (frame : Bytes) (i value : ℕ) (parser : Parser)
    → IsParsed format
    → Inv frame i parser
    → i < length frame
    → byte frame i ≡ value
    → (next : Parser) × (step format frame i value parser ≡ ok next) × Inv frame (suc i) next
unfolding step
step_lem format frame i value parser parsed (looks, progress) room b =
    let (w1, w2, w3) = looks in
    elim (Bool-cases ((parser.window_2 == 0) && (parser.window_3 == 0) && (value == 1))) [
      | inr e ↦
          let shown : ((look frame i 2 == 0) && (look frame i 1 == 0) && (byte frame i == 1))
              ≡ false =
            rw (sym w2, sym w3, b) e in
          (
            rotate value parser.last_start_code parser,
            rw e,
            (
              Looks-rotate frame i value parser.last_start_code parser parser looks (refl, refl) b,
              Progress-suc frame i parser.last_start_code parser.buffers progress shown,
            ),
          )
      | inl e ↦
          let l2 : look frame i 2 ≡ 0 = sym w2 ∙ ground arith in
          let l1 : look frame i 1 ≡ 0 = sym w3 ∙ ground arith in
          let one : byte frame i ≡ 1 = b ∙ ground arith in
          let (inside, code, ends) = window_code frame i room l2 l1 one in
          let len : ℕ = if look frame i 3 == 0 then 4 else 3 in
          let begin = i - (len - 1) in
          let (closed, did, same_2, same_3, further) =
            close_lem format frame i begin len parser.last_start_code parser parsed progress code
              ends in
          (
            rotate value (some (begin, len)) closed,
            found_step format frame i value len begin parser closed e
                (ap (λ w. if w == 0 then 4 else 3) w1) refl inside did,
            (
              Looks-rotate frame i value (some (begin, len)) parser closed looks (same_2, same_3) b,
              further,
            ),
          )
    ]
