-- ===== src/Video/Nal/Codes.antt =====
-- Start codes in a frame, and what the window of the parser knows of them.
use mathlib.Core.List.{[], ◌∷◌, ◌++◌}
use moonlight_common_rust.Common.{
  ℕ, zero, suc, ◌+◌, ◌-◌, ◌≤◌, ◌<◌, ◌≡◌, ◌≢◌, ◌⊎◌, inl, inr, refl, ap, sym, ◌∙◌, slice, length-take,
  arith, Bytes, length, take, drop, take_all, byte, leb, if◌then◌else◌,
}

drop-cons : (xs : Bytes) (i : ℕ) → i < length xs → drop i xs ≡ byte xs i ∷ drop (suc i) xs
drop-cons [] i h = absurd (omega arith)
drop-cons (x ∷ xs) zero h = refl
drop-cons (x ∷ xs) (suc i) h = drop-cons xs i (omega arith)

-- The same, with the next place under a name of its own.
drop-at : (xs : Bytes) (i k : ℕ) → k ≡ suc i → i < length xs → drop i xs ≡ byte xs i ∷ drop k xs
drop-at xs i k e h = rw e (drop-cons xs i h)

-- The rest of a frame, when it has a first byte.
pub drop-eq-cons :
    (xs : Bytes) (i value : ℕ) (rest : Bytes)
    → drop i xs ≡ value ∷ rest
    → (i < length xs) × (byte xs i ≡ value) × (drop (suc i) xs ≡ rest)
drop-eq-cons [] zero value rest e = cc
drop-eq-cons [] (suc i) value rest e = cc
drop-eq-cons (x ∷ xs) zero value rest e = (omega arith, cc, cc)
drop-eq-cons (x ∷ xs) (suc i) value rest e =
    let (h, b, d) = drop-eq-cons xs i value rest e in (omega arith, b, d)

-- The byte `k` places before `i`, or 2 before the frame's start.
abbrev pub look : Bytes → ℕ → ℕ → ℕ
look frame i k = if leb k i then byte frame (i - k) else 2

pub look-suc : (frame : Bytes) (i k : ℕ) → look frame (suc i) (suc k) ≡ look frame i k
look-suc frame i k =
    let e : suc i - suc k ≡ i - k = omega arith in
    let b : leb (suc k) (suc i) ≡ leb k i = ground arith in rw (e, b)

pub look_found :
    (frame : Bytes) (i k v : ℕ) → look frame i k ≡ v → v ≤ 1 → (k ≤ i) × (byte frame (i - k) ≡ v)
look_found frame i k v e small = ground arith

-- The three bytes of a start code.
abbrev pub CodeAt : Bytes → ℕ → Type 0
CodeAt frame j = (byte frame j ≡ 0) × (byte frame (j + 1) ≡ 0) × (byte frame (j + 2) ≡ 1)

-- No start code begins at `first` or later and ends before `i`.
abbrev pub NoneIn : Bytes → (first i : ℕ) → Type 0
NoneIn frame first i = (j : ℕ) → first ≤ j → j + 3 ≤ i → CodeAt frame j → ⊥

-- No start code ends before `i`.
abbrev pub NoCode : Bytes → ℕ → Type 0
NoCode frame i = NoneIn frame 0 i

-- A buffer that a start code begins, of three bytes or of four.
abbrev pub StartsWithCode : Bytes → Type 0
StartsWithCode buffer = (take 3 buffer ≡ 0 ∷ 0 ∷ 1 ∷ []) ⊎ (take 4 buffer ≡ 0 ∷ 0 ∷ 0 ∷ 1 ∷ [])

-- A buffer that begins with a start code and has no other: one that begins at its third byte or later would
-- end in it.
abbrev pub IsUnit : Bytes → Type 0
IsUnit buffer = StartsWithCode buffer × NoneIn buffer 2 (length buffer)

byte-take : (xs : Bytes) (n j : ℕ) → j < n → byte (take n xs) j ≡ byte xs j
byte-take xs zero j h = absurd (omega arith)
byte-take [] (suc n) j h = refl
byte-take (x ∷ xs) (suc n) zero h = refl
byte-take (x ∷ xs) (suc n) (suc j) h = byte-take xs n j (omega arith)

byte-drop : (xs : Bytes) (i j : ℕ) → byte (drop i xs) j ≡ byte xs (i + j)
byte-drop xs zero j = let z : 0 + j ≡ j = omega arith in rw z
byte-drop [] (suc i) j = refl
byte-drop (x ∷ xs) (suc i) j =
    let z : suc i + j ≡ suc (i + j) = omega arith in rw z (byte-drop xs i j)

byte-slice :
    (xs : Bytes) (begin next j k : ℕ)
    → begin + j < next
    → begin + j ≡ k
    → byte (slice begin next xs) j ≡ byte xs k
byte-slice xs begin next j k h e =
    byte-take (drop begin xs) (next - begin) j (omega arith) ∙ byte-drop xs begin j ∙ ap (byte xs) e

-- The codes of a part of the frame are codes of the frame.
pub NoneIn-slice :
    (frame : Bytes) (begin next : ℕ)
    → NoneIn frame (begin + 2) next
    → NoneIn (slice begin next frame) 2 (length (slice begin next frame))
NoneIn-slice frame begin next none_there j first last (e0, e1, e2) =
    let short : begin + (j + 2) < next =
      omega (arith, length-take (next - begin) (drop begin frame)) in
    none_there (begin + j) (omega arith) (omega arith) (
      sym (byte-slice frame begin next j (begin + j) (omega arith) refl) ∙ e0,
      sym (byte-slice frame begin next (j + 1) (begin + j + 1) (omega arith) (omega arith)) ∙ e1,
      sym (byte-slice frame begin next (j + 2) (begin + j + 2) (omega arith) (omega arith)) ∙ e2,
    )

-- A start code of `len` bytes that begins in the frame at `begin`.
abbrev pub CodeFrom : Bytes → (begin len : ℕ) → Type 0
CodeFrom frame begin len =
    (begin + len ≤ length frame)
    × (((len ≡ 3) × CodeAt frame begin)
        ⊎ ((len ≡ 4) × (byte frame begin ≡ 0) × CodeAt frame (begin + 1)))

take-take : (xs : Bytes) (m n : ℕ) → m ≤ n → take m (take n xs) ≡ take m xs
take-take xs zero n h = refl
take-take xs (suc m) zero h = absurd (omega arith)
take-take [] (suc m) (suc n) h = refl
take-take (x ∷ xs) (suc m) (suc n) h = ap (◌∷◌ x) (take-take xs m n (omega arith))

take_3 :
    (frame : Bytes) (j : ℕ)
    → j + 3 ≤ length frame
    → CodeAt frame j
    → take 3 (drop j frame) ≡ 0 ∷ 0 ∷ 1 ∷ []
take_3 frame j h (e0, e1, e2) = rw (
  drop-at frame j (j + 1) (omega arith) (omega arith),
  drop-at frame (j + 1) (j + 2) (omega arith) (omega arith),
  drop-at frame (j + 2) (j + 3) (omega arith) (omega arith),
  e0,
  e1,
  e2,
)

-- The buffer from a start code on begins with it, also when it is cut behind the code.
pub CodeFrom-StartsWithCode :
    (frame : Bytes) (begin len n : ℕ)
    → CodeFrom frame begin len
    → len ≤ n
    → StartsWithCode (take n (drop begin frame))
CodeFrom-StartsWithCode frame begin len n (room, inl (three, code)) h =
    inl
      (rw (take-take (drop begin frame) 3 n (omega arith)) (take_3 frame begin (omega arith) code))
CodeFrom-StartsWithCode frame begin len n (room, inr (four, first, code)) h = inr (
    rw
      (
        take-take (drop begin frame) 4 n (omega arith),
        drop-at frame begin (begin + 1) (omega arith) (omega arith),
        first,
      )
      (ap (◌∷◌ 0) (take_3 frame (begin + 1) (omega arith) code)))

-- Where a start code has its 1.
CodeFrom-last :
    (frame : Bytes) (begin len : ℕ)
    → CodeFrom frame begin len
    → (p : ℕ) × (p + 1 ≡ begin + len) × (byte frame p ≡ 1)
CodeFrom-last frame begin len (room, inl (three, (e0, e1, e2))) = (begin + 2, omega arith, e2)
CodeFrom-last frame begin len (room, inr (four, e, (e0, e1, e2))) =
    let s : begin + 1 + 2 ≡ begin + 3 = omega arith in (begin + 1 + 2, omega arith, e2)

bytes_differ : (frame : Bytes) (p q : ℕ) → byte frame p ≡ 1 → byte frame q ≡ 0 → p ≢ q
bytes_differ frame p q one null e = let n : byte frame p ≡ 0 = rw e null in absurd (omega arith)

-- A start code that ends behind another one also begins behind it.
pub CodeFrom-before :
    (frame : Bytes) (begin len next next_len : ℕ)
    → CodeFrom frame begin len
    → CodeFrom frame next next_len
    → begin + len < next + next_len
    → begin + len ≤ next
CodeFrom-before frame begin len next next_len one (room, inl (three, (e0, e1, e2))) later =
    let (p, last, found) = CodeFrom-last frame begin len one in
    omega (arith, bytes_differ frame p next found e0, bytes_differ frame p (next + 1) found e1)
CodeFrom-before frame begin len next next_len one (room, inr (four, e, (e0, e1, e2))) later =
    let (p, last, found) = CodeFrom-last frame begin len one in
    omega (
      arith,
      bytes_differ frame p next found e,
      bytes_differ frame p (next + 1) found e0,
      bytes_differ frame p (next + 1 + 1) found e1,
    )

pub take-slice : (xs : Bytes) (m n : ℕ) → m ≤ n → take m xs ++ take (n - m) (drop m xs) ≡ take n xs
take-slice xs zero n h = let e : n - 0 ≡ n = omega arith in rw e
take-slice xs (suc m) zero h = absurd (omega arith)
take-slice [] (suc m) (suc n) h = take_all (suc n - suc m) [] (omega arith)
take-slice (x ∷ xs) (suc m) (suc n) h =
    let e : suc n - suc m ≡ n - m = omega arith in
    rw e (ap (◌∷◌ x) (take-slice xs m n (omega arith)))

pub CodeFrom-long : (frame : Bytes) (begin len : ℕ) → CodeFrom frame begin len → 2 < len
CodeFrom-long frame begin len (room, inl (three, code)) = omega arith
CodeFrom-long frame begin len (room, inr (four, first, code)) = omega arith

pub CodeFrom-short : (frame : Bytes) (begin len : ℕ) → CodeFrom frame begin len → len ≤ 4
CodeFrom-short frame begin len (room, inl (three, code)) = omega arith
CodeFrom-short frame begin len (room, inr (four, first, code)) = omega arith
