-- ===== src/Control/Packet/RoundTrip/Fields.antt =====
-- What a packet's fields are read back as, and a whole packet by its type.
use moonlight_common_rust.Common.{
  ℕ, ◌+◌, ◌-◌, ◌*◌, ◌/◌, ◌%◌, ◌^◌, ◌<◌, ◌≡◌, refl, arith, true, false, Option, none, some, Bytes,
  length, IsU16, IsU32, u16_from_le, u16_from_be, u32_from_le, u32_from_be, take_all, ltb, leb,
}
use moonlight_common_rust.Control.Config.{
  ControlPacketConfig, ControlPacketType, direction, serialize_ty,
}
use moonlight_common_rust.Control.Config.Types.{ReadsBack}
use moonlight_common_rust.Control.Packet.{ControlPacket, from_range}
use moonlight_common_rust.Control.Packet.Serialize.Parts.{packet, optional}
use moonlight_common_rust.Control.Packet.Deserialize.{
  deserialize, deserialize_known, deserialize_content,
}
use moonlight_common_rust.Control.Packet.Deserialize.Fields.{found}
use moonlight_common_rust.Control.Packet.RoundTrip.Ranges.{InRange}

pub u16_le : (n : ℕ) → IsU16 n → u16_from_le (n % 2 ^ 8) (n / 2 ^ 8 % 2 ^ 8) ≡ n
u16_le n h = omega arith

pub u16_be : (n : ℕ) → IsU16 n → u16_from_be (n / 2 ^ 8 % 2 ^ 8) (n % 2 ^ 8) ≡ n
u16_be n h = omega arith

pub u32_le :
    (n : ℕ)
    → IsU32 n
    → u32_from_le (n % 2 ^ 8) (n / 2 ^ 8 % 2 ^ 8) (n / 2 ^ 16 % 2 ^ 8) (n / 2 ^ 24 % 2 ^ 8) ≡ n
u32_le n h = omega arith

pub u32_be :
    (n : ℕ)
    → IsU32 n
    → u32_from_be (n / 2 ^ 24 % 2 ^ 8) (n / 2 ^ 16 % 2 ^ 8) (n / 2 ^ 8 % 2 ^ 8) (n % 2 ^ 8) ≡ n
u32_be n h = omega arith

pub u64_le :
    (n : ℕ)
    → n < 2 ^ 64
    → u32_from_le (n % 2 ^ 8) (n / 2 ^ 8 % 2 ^ 8) (n / 2 ^ 16 % 2 ^ 8) (n / 2 ^ 24 % 2 ^ 8)
        + u32_from_le
            (n / 2 ^ 32 % 2 ^ 8)
            (n / 2 ^ 32 / 2 ^ 8 % 2 ^ 8)
            (n / 2 ^ 32 / 2 ^ 16 % 2 ^ 8)
            (n / 2 ^ 32 / 2 ^ 24 % 2 ^ 8)
          * 2 ^ 32
      ≡ n
u64_le n h = omega arith

pub from_range_lem : (first last n : ℕ) → InRange first last n → from_range first last n ≡ some n
from_range_lem first last n (lo, hi) =
    let e1 : leb first n ≡ true = ground arith in
    let e2 : leb n last ≡ true = ground arith in rw (e1, e2)

-- A packet whose length field tells the length of its content is read as its type, with all of
-- its bytes.
deserialize-packet :
    (c : ControlPacketConfig) (t : ControlPacketType) (id len : ℕ) (content : Bytes)
    → ReadsBack c
    → serialize_ty t c ≡ some id
    → IsU16 len
    → length content ≡ len
    → deserialize (direction t) c (packet id len content)
      ≡ deserialize_content c t (packet id len content)
unfolding deserialize deserialize_known
deserialize-packet c t id len content back known bounded measured =
    let (typed, small) = back t id known in
    let e0 : ltb (length (packet id len content)) 4 ≡ false = ground arith in
    let r0 : leb 2 (length (packet id len content)) ≡ true = ground arith in
    let r2 : leb 4 (length (packet id len content)) ≡ true = ground arith in
    let e1 : ltb (length (packet id len content)) (4 + len - 1) ≡ false = ground arith in
    let e2 : leb (4 + len) (length (packet id len content)) ≡ true = ground arith in
    rw (
      e0,
      r0,
      r2,
      u16_le id small,
      typed,
      u16_le len bounded,
      e1,
      e2,
      take_all (4 + len) (packet id len content) (omega arith),
    )

module _ (c : ControlPacketConfig) (t : ControlPacketType) (len : ℕ) (content : Bytes)
    (p : ControlPacket) {bytes : Bytes} (back : ReadsBack c) (bounded : IsU16 len)
    (measured : length content ≡ len)
    (rest : (id : ℕ) → deserialize_content c t (packet id len content) ≡ found p) where
  deserialize-optional_at :
      (id : Option ℕ)
      → serialize_ty t c ≡ id
      → optional id len content ≡ some bytes
      → deserialize (direction t) c bytes ≡ found p
  deserialize-optional_at none known e = cc
  deserialize-optional_at (some id) known e =
      let q : bytes ≡ packet id len content = cc in
      rw (q, deserialize-packet c t id len content back known bounded measured) (rest id)

  -- Bytes that are written under a type's number, when there is one, are read as a packet when their
  -- content is.
  pub deserialize-optional :
      optional (serialize_ty t c) len content ≡ some bytes
      → deserialize (direction t) c bytes ≡ found p
  deserialize-optional e = deserialize-optional_at (serialize_ty t c) refl e
