-- ===== src/Control/Packet/Deserialize/Parts.antt =====
-- The content of the packets but input, type by type. A field is called by the index at
-- which it is read, `f12` for that at 12; its name is the constructor's.
use moonlight_common_rust.Common.{
  ℕ, ◌+◌, not, none, some, assert, ◌>>◌, ◌>>=◌, Outcome, Option, ok, Bytes, length, ltb, leb, ◌==◌,
  if◌then◌else◌,
}
use moonlight_common_rust.Version.{is_sunshine_like}
use moonlight_common_rust.Control.Config.{ControlPacketConfig}
use moonlight_common_rust.Control.Packet.{
  long, short, Primary, SunshineHdrMetadata, rumble_data, rumble_triggers, set_motion, set_led,
  set_adaptive_triggers, hdr, loss, fec_status, invalidate_frames,
  long_term_reference_acknowledgement, server_termination, web_state_packet, motion_type,
}
use moonlight_common_rust.Control.Packet.Deserialize.Fields.{
  read_u8, read_u16_le, read_u16_be, read_u32_le, read_u32_be, read_u64_le, read_slice, Parsed,
  found, at_least, valid, u16_le,
}
use moonlight_common_rust.Control.Packet.Deserialize.Input.{deserialize_input}

unfoldable pub termination_of : Bytes → Parsed
termination_of p =
    if leb 8 (length p)
    then (read_u32_be p 4 >>= λ code. found (server_termination (long code)))
    else (read_u16_be p 4 >>= λ code. found (server_termination (short code)))

abbrev pub primary : Bytes → ℕ → Primary
primary p i = record { x = u16_le p i; y = u16_le p (i + 2) }

abbrev pub metadata : Bytes → SunshineHdrMetadata
metadata p = record {
  display_primary_0 = primary p 5;
  display_primary_1 = primary p 9;
  display_primary_2 = primary p 13;
  white_point = primary p 17;
  max_display_luminance = u16_le p 21;
  min_display_luminance = u16_le p 23;
  max_content_light_level = u16_le p 25;
  max_frame_average_light_level = u16_le p 27;
  max_full_frame_luminance = u16_le p 29;
}

-- The last of its bytes has the index 30.
abbrev pub read_metadata : Bytes → Outcome ⊥ (Option SunshineHdrMetadata)
read_metadata p =
    if ltb (length p) 31 then ok none else (assert (leb 31 (length p)) >> ok (some (metadata p)))

unfoldable pub deserialize_hdr : ControlPacketConfig → Bytes → Parsed
deserialize_hdr c p = do
  enabled ← read_u8 p 4
  sunshine ← if is_sunshine_like c.server_version then read_metadata p else ok none
  found (hdr (not (enabled == 0)) sunshine)

abbrev pub deserialize_controller_rumble_data : Bytes → Parsed
deserialize_controller_rumble_data p = at_least 14 p (do
  f4 ← read_u32_le p 4
  f8 ← read_u16_le p 8
  f10 ← read_u16_le p 10
  f12 ← read_u16_le p 12
  found (rumble_data f4 f8 f10 f12))

abbrev pub deserialize_controller_rumble_triggers : Bytes → Parsed
deserialize_controller_rumble_triggers p = at_least 10 p (do
  f4 ← read_u16_le p 4
  f6 ← read_u16_le p 6
  f8 ← read_u16_le p 8
  found (rumble_triggers f4 f6 f8))

abbrev pub deserialize_controller_set_motion : Bytes → Parsed
deserialize_controller_set_motion p = at_least 9 p (do
  f8 ← read_u8 p 8
  f4 ← read_u16_le p 4
  f6 ← read_u16_le p 6
  valid (motion_type f8) (set_motion f4 f6))

abbrev pub deserialize_controller_set_led : Bytes → Parsed
deserialize_controller_set_led p = at_least 9 p (do
  f4 ← read_u16_le p 4
  f6 ← read_u8 p 6
  f7 ← read_u8 p 7
  f8 ← read_u8 p 8
  found (set_led f4 f6 f7 f8))

abbrev pub deserialize_termination : Bytes → Parsed
deserialize_termination p = at_least 6 p (termination_of p)

abbrev pub deserialize_hdr_mode : ControlPacketConfig → Bytes → Parsed
deserialize_hdr_mode c p = at_least 5 p (deserialize_hdr c p)

abbrev pub deserialize_loss_stats : Bytes → Parsed
deserialize_loss_stats p = at_least 36 p (do
  f4 ← read_u32_le p 4
  f8 ← read_u32_le p 8
  f12 ← read_u32_le p 12
  f16 ← read_u64_le p 16
  f24 ← read_u32_le p 24
  f28 ← read_u32_le p 28
  f32 ← read_u32_le p 32
  found (loss f4 f8 f12 f16 f24 f28 f32))

abbrev pub deserialize_frame_fec : Bytes → Parsed
deserialize_frame_fec p = at_least 25 p (do
  f4 ← read_u32_be p 4
  f8 ← read_u16_be p 8
  f10 ← read_u16_be p 10
  f12 ← read_u16_be p 12
  f14 ← read_u16_be p 14
  f16 ← read_u16_be p 16
  f18 ← read_u16_be p 18
  f20 ← read_u16_be p 20
  f22 ← read_u8 p 22
  f23 ← read_u8 p 23
  f24 ← read_u8 p 24
  found (fec_status f4 f8 f10 f12 f14 f16 f18 f20 f22 f23 f24))

abbrev pub deserialize_long_term_reference_frame_acknowledgement : Bytes → Parsed
deserialize_long_term_reference_frame_acknowledgement p = at_least 12 p (do
  f4 ← read_u32_le p 4
  f8 ← read_u32_le p 8
  found (long_term_reference_acknowledgement f4 f8))

abbrev pub deserialize_invalidate_reference_frames : Bytes → Parsed
deserialize_invalidate_reference_frames p = at_least 28 p (do
  f4 ← read_u32_le p 4
  f8 ← read_u32_le p 8
  f12 ← read_u32_le p 12
  f16 ← read_u32_le p 16
  f20 ← read_u32_le p 20
  f24 ← read_u32_le p 24
  found (invalidate_frames f4 f8 f12 f16 f20 f24))

abbrev pub deserialize_input_data : Bytes → Parsed
deserialize_input_data p = at_least 12 p (do
  input_len ← read_u32_be p 4
  magic ← read_u32_le p 8
  at_least (4 + 4 + input_len) p (deserialize_input input_len magic p))

abbrev pub deserialize_controller_set_adaptive_triggers : Bytes → Parsed
deserialize_controller_set_adaptive_triggers p = at_least 25 p (do
  f4 ← read_u16_le p 4
  f6 ← read_u8 p 6
  f7 ← read_u8 p 7
  f8 ← read_u8 p 8
  left ← read_slice p 9 19
  right ← read_slice p 19 29
  found (set_adaptive_triggers f4 f6 f7 f8 left right))

abbrev pub deserialize_web_state : Bytes → Parsed
deserialize_web_state p =
    at_least 38 p
      (do f4 ← read_u16_be p 4; keys ← read_slice p 6 38; found (web_state_packet f4 keys))
