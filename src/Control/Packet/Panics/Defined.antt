-- ===== src/Control/Packet/Panics/Defined.antt =====
-- Values without a panic, and the steps of `ControlPacket::deserialize` that keep to them.
use moonlight_common_rust.Common.{
  ℕ, ◌≤◌, ◌≡◌, ◌>>=◌, refl, arith, Bool, true, false, Option, none, some, ok, Bytes, length, ltb,
  leb, if◌then◌else◌,
}
use moonlight_common_rust.Control.Packet.{ControlPacket}
use moonlight_common_rust.Control.Packet.Deserialize.Fields.{
  Parsed, found, at_least, valid, valid_then, reads,
}
use moonlight_common_rust.Control.Packet.Deserialize.Input.{input_at_least}

-- A value, which may be `none`: no panic.
abbrev pub IsDefined : Parsed → Type 0
IsDefined parsed = (result : Option ControlPacket) × (parsed ≡ ok result)

-- Bytes beyond which nothing is read: all of it is there.
pub read-IsDefined :
    {A : Type 0} (p : Bytes) (n : ℕ) (value : A) (rest : A → Parsed)
    → n ≤ length p
    → IsDefined (rest value)
    → IsDefined (reads p n value >>= rest)
read-IsDefined p n value rest room h = let e : leb n (length p) ≡ true = ground arith in rw e h

pub if-IsDefined :
    (b : Bool) {x y : Parsed}
    → (b ≡ true → IsDefined x)
    → (b ≡ false → IsDefined y)
    → IsDefined (if b then x else y)
if-IsDefined true hx hy = hx refl
if-IsDefined false hx hy = hy refl

pub at_least-IsDefined :
    (n : ℕ) (p : Bytes) {rest : Parsed}
    → (n ≤ length p → IsDefined rest)
    → IsDefined (at_least n p rest)
at_least-IsDefined n p h =
    if-IsDefined (ltb (length p) n) (λ e. (none, refl)) (λ e. h (ground arith))

pub valid-IsDefined : (o : Option ℕ) (packet : ℕ → ControlPacket) → IsDefined (valid o packet)
valid-IsDefined none packet = (none, refl)
valid-IsDefined (some v) packet = (some (packet v), refl)

pub valid_then-IsDefined :
    (o : Option ℕ) {rest : ℕ → Parsed}
    → ((v : ℕ) → IsDefined (rest v))
    → IsDefined (valid_then o rest)
valid_then-IsDefined none h = (none, refl)
valid_then-IsDefined (some v) h = h v

pub found-IsDefined : (p : ControlPacket) → IsDefined (found p)
found-IsDefined p = (some p, refl)

pub input-IsDefined :
    (n len : ℕ) {rest : Parsed} → (n ≤ len → IsDefined rest) → IsDefined (input_at_least n len rest)
input-IsDefined n len h = if-IsDefined (ltb len n) (λ e. (none, refl)) (λ e. h (ground arith))
