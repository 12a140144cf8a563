-- ===== src/Control/Packet/Deserialize/Fields.antt =====
-- The reads of `ControlPacket::deserialize`.
use moonlight_common_rust.Common.{
  ℕ, ◌+◌, ◌*◌, ◌^◌, Option, none, some, Outcome, ok, Bytes, length, byte, slice, leb, assert, ◌>>◌,
  ltb, if◌then◌else◌, u16_from_le, u16_from_be, u32_from_le, u32_from_be,
}
use moonlight_common_rust.Control.Packet.{ControlPacket}

-- No error but `none`.
abbrev pub Parsed : Type 0
Parsed = Outcome ⊥ (Option ControlPacket)

abbrev pub found : ControlPacket → Parsed
found packet = ok (some packet)

-- `if payload.len() < n { return None; }`
abbrev pub at_least : ℕ → Bytes → Parsed → Parsed
at_least n payload rest = if ltb (length payload) n then ok none else rest

-- `let Some(value) = ... else { return None; }`
abbrev pub valid : Option ℕ → (ℕ → ControlPacket) → Parsed
valid none packet = ok none
valid (some value) packet = found (packet value)

-- The same, with more to read behind it.
abbrev pub valid_then : Option ℕ → (ℕ → Parsed) → Parsed
valid_then none rest = ok none
valid_then (some value) rest = rest value

abbrev pub u16_le : Bytes → ℕ → ℕ
u16_le p i = u16_from_le (byte p i) (byte p (i + 1))

abbrev pub u16_be : Bytes → ℕ → ℕ
u16_be p i = u16_from_be (byte p i) (byte p (i + 1))

abbrev pub u32_le : Bytes → ℕ → ℕ
u32_le p i = u32_from_le (byte p i) (byte p (i + 1)) (byte p (i + 2)) (byte p (i + 3))

abbrev pub u32_be : Bytes → ℕ → ℕ
u32_be p i = u32_from_be (byte p i) (byte p (i + 1)) (byte p (i + 2)) (byte p (i + 3))

abbrev pub u64_le : Bytes → ℕ → ℕ
u64_le p i = u32_le p i + u32_le p (i + 4) * 2 ^ 32

-- The reads of the code: each panics beyond the end of the bytes.
abbrev pub reads : {A : Type 0} → Bytes → (place_end : ℕ) → A → Outcome ⊥ A
reads p place_end value = assert (leb place_end (length p)) >> ok value

abbrev pub read_u8 : Bytes → ℕ → Outcome ⊥ ℕ
read_u8 p i = reads p (i + 1) (byte p i)

abbrev pub read_u16_le : Bytes → ℕ → Outcome ⊥ ℕ
read_u16_le p i = reads p (i + 2) (u16_le p i)

abbrev pub read_u16_be : Bytes → ℕ → Outcome ⊥ ℕ
read_u16_be p i = reads p (i + 2) (u16_be p i)

abbrev pub read_u32_le : Bytes → ℕ → Outcome ⊥ ℕ
read_u32_le p i = reads p (i + 4) (u32_le p i)

abbrev pub read_u32_be : Bytes → ℕ → Outcome ⊥ ℕ
read_u32_be p i = reads p (i + 4) (u32_be p i)

abbrev pub read_u64_le : Bytes → ℕ → Outcome ⊥ ℕ
read_u64_le p i = reads p (i + 8) (u64_le p i)

abbrev pub read_slice : Bytes → (begin place_end : ℕ) → Outcome ⊥ Bytes
read_slice p begin place_end = reads p place_end (slice begin place_end p)
