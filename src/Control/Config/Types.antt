-- ===== src/Control/Config/Types.antt =====
-- The numbers of the packet types, read back.
use moonlight_common_rust.Common.{ℕ, ◌≡◌, arith, Bool, some, IsU16}
use moonlight_common_rust.Version.{ServerVersion}
use moonlight_common_rust.Control.Config.{
  ControlPacketConfig, ControlPacketType, request_idr, new, direction, serialize_ty, deserialize_ty,
  gen5, gen6, gen7_encrypted,
}

-- The number is read back as the type it was made of, and it has 16 bits.
abbrev pub ReadsBack : ControlPacketConfig → Type 0
ReadsBack c =
    (t : ControlPacketType) (id : ℕ)
    → serialize_ty t c ≡ some id
    → (deserialize_ty (direction t) c id ≡ some t) × IsU16 id

gen5-ReadsBack : (v : ServerVersion) → ReadsBack (gen5 v)
unfolding serialize_ty deserialize_ty direction
gen5-ReadsBack v request_idr id e = ground arith
gen5-ReadsBack v _ id e = ground arith

gen6-ReadsBack : (v : ServerVersion) → ReadsBack (gen6 v)
unfolding serialize_ty deserialize_ty direction
gen6-ReadsBack v request_idr id e = ground arith
gen6-ReadsBack v _ id e = ground arith

gen7_encrypted-ReadsBack : (v : ServerVersion) → ReadsBack (gen7_encrypted v)
unfolding serialize_ty deserialize_ty direction
gen7_encrypted-ReadsBack v request_idr id e = ground arith
gen7_encrypted-ReadsBack v _ id e = ground arith

-- For every version and encryption for which there is a configuration: the number that a packet type
-- is given has 16 bits and, in the direction of that type, is read back as that type. So no two types
-- of one direction share a number.
pub deserialize_ty-serialize_ty :
    (v : ServerVersion) (encrypted : Bool) (c : ControlPacketConfig)
    → new v encrypted ≡ some c
    → (t : ControlPacketType) (id : ℕ) → serialize_ty t c ≡ some id
    → (deserialize_ty (direction t) c id ≡ some t) × IsU16 id
unfolding new
deserialize_ty-serialize_ty v encrypted c made t id e =
    ground (arith, gen5-ReadsBack v t id, gen6-ReadsBack v t id, gen7_encrypted-ReadsBack v t id)
