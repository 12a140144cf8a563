-- ===== src/Control/Packet/Deserialize.antt =====
-- `ControlPacket::deserialize`: a packet, `none` for bytes that are refused, or a panic.
pub mod Input
pub mod Fields
pub mod Parts
use moonlight_common_rust.Common.{
  ℕ, ◌+◌, ◌-◌, Bool, true, false, not, Option, none, some, Outcome, ok, assert, ◌>>◌, ◌>>=◌, Bytes,
  length, take, slice, byte, ltb, leb, ◌==◌, if◌then◌else◌,
}
use moonlight_common_rust.Version.{is_sunshine_like}
use moonlight_common_rust.Control.Config.{
  ControlPacketConfig, ControlPacketType, PacketDirection, periodic_ping, request_idr, start_b,
  invalidate_reference_frames, long_term_reference_frame_acknowledgement, loss_stats, frame_stats,
  controller_rumble_data, termination, hdr_mode, input_data, frame_fec, controller_rumble_triggers,
  controller_set_motion, controller_set_led, controller_set_adaptive_triggers, web_state,
  deserialize_ty,
}
use moonlight_common_rust.Control.Packet.{
  ControlPacket, TerminationReason, long, short, Primary, SunshineHdrMetadata, rumble_data,
  rumble_triggers, set_motion, set_led, set_adaptive_triggers, idr_request, start_b_packet, ping,
  hdr, loss, frame_statistics, fec_status, invalidate_frames, long_term_reference_acknowledgement,
  server_termination, web_state_packet, motion_type,
}
use moonlight_common_rust.Control.Packet.Deserialize.Fields.{
  read_u16_le, Parsed, found, at_least, valid, u16_le, u16_be, u32_le, u32_be, u64_le,
}
use moonlight_common_rust.Control.Packet.Deserialize.Input.{deserialize_input}
use moonlight_common_rust.Control.Packet.Deserialize.Parts.{
  termination_of, primary, metadata, deserialize_hdr, deserialize_controller_rumble_data,
  deserialize_controller_rumble_triggers, deserialize_controller_set_motion,
  deserialize_controller_set_led, deserialize_termination, deserialize_hdr_mode,
  deserialize_loss_stats, deserialize_frame_fec,
  deserialize_long_term_reference_frame_acknowledgement, deserialize_invalidate_reference_frames,
  deserialize_input_data, deserialize_controller_set_adaptive_triggers, deserialize_web_state,
}

-- The packet's content, once its type is known and the bytes are cut at its length.
unfoldable pub deserialize_content : ControlPacketConfig → ControlPacketType → Bytes → Parsed
deserialize_content c periodic_ping p = found ping
deserialize_content c request_idr p = found idr_request
deserialize_content c start_b p = found start_b_packet
deserialize_content c controller_rumble_data p = deserialize_controller_rumble_data p
deserialize_content c controller_rumble_triggers p = deserialize_controller_rumble_triggers p
deserialize_content c controller_set_motion p = deserialize_controller_set_motion p
deserialize_content c controller_set_led p = deserialize_controller_set_led p
deserialize_content c termination p = deserialize_termination p
deserialize_content c hdr_mode p = deserialize_hdr_mode c p
deserialize_content c loss_stats p = deserialize_loss_stats p
deserialize_content c frame_stats p = found frame_statistics
deserialize_content c frame_fec p = deserialize_frame_fec p
deserialize_content c long_term_reference_frame_acknowledgement p =
    deserialize_long_term_reference_frame_acknowledgement p
deserialize_content c invalidate_reference_frames p = deserialize_invalidate_reference_frames p
deserialize_content c input_data p = deserialize_input_data p
deserialize_content c controller_set_adaptive_triggers p =
    deserialize_controller_set_adaptive_triggers p
deserialize_content c web_state p = deserialize_web_state p

-- The length field is compared with one byte less than the slice behind it takes.
unfoldable pub deserialize_known :
    ControlPacketConfig → Option ControlPacketType → Bytes → ℕ → Parsed
deserialize_known c none payload len = ok none
deserialize_known c (some ty) payload len =
    if ltb (length payload) (4 + len - 1)
    then ok none
    else assert (leb (4 + len) (length payload))
      >> deserialize_content c ty (take (4 + len) payload)

unfoldable pub deserialize : PacketDirection → ControlPacketConfig → Bytes → Parsed
deserialize direction c payload = if ltb (length payload) 4 then ok none else do
  ty ← read_u16_le payload 0
  len ← read_u16_le payload 2
  deserialize_known c (deserialize_ty direction c ty) payload len
