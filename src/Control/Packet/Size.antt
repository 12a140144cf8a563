-- ===== src/Control/Packet/Size.antt =====
-- The size of a serialized control packet.
use moonlight_common_rust.Common.{
  ℕ, ◌≤◌, ◌≡◌, arith, some, Bytes, length, length-append, length-take,
}
use moonlight_common_rust.Control.Config.{ControlPacketConfig}
use moonlight_common_rust.Control.Packet.{
  ControlPacket, set_adaptive_triggers, start_b_packet, text,
}
use moonlight_common_rust.Control.Packet.Serialize.{serialize}
use moonlight_common_rust.Control.Packet.Serialize.Parts.{
  u64_to_le, serialize_hdr, serialize_metadata, serialize_primary, serialize_termination,
}
use moonlight_common_rust.Control.Packet.RoundTrip.Ranges.{Fits}

abbrev pub max_size : ℕ
max_size = 44

-- A control packet whose fields fit has at most 44 bytes, when it is serialized: the array that
-- `serialize` writes to has room for each of its packets.
pub length-serialize :
    (c : ControlPacketConfig) (p : ControlPacket) (bytes : Bytes)
    → Fits c p
    → serialize c p ≡ some bytes
    → length bytes ≤ max_size
unfolding serialize Fits serialize_hdr serialize_metadata serialize_primary serialize_termination
    u64_to_le
length-serialize c start_b_packet bytes fits e = ground arith
length-serialize c (set_adaptive_triggers a b d f left right) bytes fits e =
    ground (arith, length-append left right)
length-serialize c (text t n) bytes fits e = ground (arith, length-take n t)
length-serialize c _ bytes fits e = ground arith
