-- ===== src/Control/Packet/Serialize.antt =====
-- `ControlPacket::serialize`: the bytes that are written, or `none` for a packet that the server does
-- not support.
pub mod Parts
use moonlight_common_rust.Common.{
  ℕ, ◌+◌, ◌/◌, ◌%◌, ◌^◌, Bool, true, false, Option, none, some, List, [], ◌∷◌, ◌++◌, Bytes, length,
  take, ltb, leb, if◌then◌else◌, u16_to_le, u16_to_be, u32_to_le, u32_to_be,
}
use moonlight_common_rust.Common.Int.{ℤ, pos, eq_ℤ, compare_ℤ}
use moonlight_common_rust.Version.{ServerVersion}
use moonlight_common_rust.Control.Config.{ControlPacketConfig}
use moonlight_common_rust.Control.Packet.{
  ControlPacket, TerminationReason, long, short, Primary, SunshineHdrMetadata, rumble_data,
  rumble_triggers, set_motion, set_led, set_adaptive_triggers, idr_request, start_b_packet, ping,
  hdr, loss, frame_statistics, fec_status, mouse_move_relative, mouse_move_absolute, mouse_button,
  keyboard, text, mouse_scroll, mouse_horizontal_scroll, touch, pen, controller_state,
  controller_arrival, controller_motion, controller_battery, controller_touch, invalidate_frames,
  long_term_reference_acknowledgement, server_termination, web_state_packet, utf8_text_max_count,
}
use moonlight_common_rust.Control.Packet.Serialize.Parts.{
  u64_to_le, packet, optional, input, at_least_5, of_bool, serialize_primary, serialize_metadata,
  serialize_hdr, serialize_termination, serialize_ping, serialize_idr_request,
  serialize_start_b_packet, serialize_loss, serialize_frame_statistics, serialize_fec_status,
  serialize_invalidate_frames, serialize_long_term_reference_acknowledgement,
  serialize_mouse_move_relative, serialize_mouse_move_absolute, serialize_mouse_button,
  serialize_mouse_scroll, serialize_mouse_horizontal_scroll, serialize_keyboard, serialize_text,
  serialize_controller_arrival, serialize_controller_state, serialize_controller_touch,
  serialize_controller_battery, serialize_controller_motion, serialize_rumble_data,
  serialize_rumble_triggers, serialize_set_led, serialize_set_motion,
  serialize_set_adaptive_triggers, serialize_touch, serialize_pen, serialize_web_state_packet,
}

unfoldable pub serialize : ControlPacketConfig → ControlPacket → Option Bytes
serialize c ping = serialize_ping c
serialize c (hdr enabled sunshine) = serialize_hdr c enabled sunshine
serialize c idr_request = serialize_idr_request c
serialize c start_b_packet = serialize_start_b_packet c
serialize c (loss unknown1 interval unknown2 last_good unknown3 unknown4 unknown5) =
    serialize_loss c unknown1 interval unknown2 last_good unknown3 unknown4 unknown5
serialize c frame_statistics = serialize_frame_statistics c
serialize c
      (fec_status frame highest next missing data_total parity_total data_got parity_got percentage
        block count) =
    serialize_fec_status c frame highest next missing data_total parity_total data_got parity_got
      percentage block count
serialize c (invalidate_frames first reserved1 last a b d) =
    serialize_invalidate_frames c first reserved1 last a b d
serialize c (long_term_reference_acknowledgement frame reserved) =
    serialize_long_term_reference_acknowledgement c frame reserved
serialize c (mouse_move_relative dx dy) = serialize_mouse_move_relative c dx dy
serialize c (mouse_move_absolute x y unused w h) = serialize_mouse_move_absolute c x y unused w h
serialize c (mouse_button press button) = serialize_mouse_button c press button
serialize c (mouse_scroll amount_1 amount_2 padding) =
    serialize_mouse_scroll c amount_1 amount_2 padding
serialize c (mouse_horizontal_scroll amount) = serialize_mouse_horizontal_scroll c amount
serialize c (keyboard down flags key_code modifiers padding) =
    serialize_keyboard c down flags key_code modifiers padding
serialize c (text bytes text_len) = serialize_text c bytes text_len
serialize c (controller_arrival number ty capabilities buttons) =
    serialize_controller_arrival c number ty capabilities buttons
serialize c
      (controller_state header_b number mask mid_b buttons lt rt lx ly rx ry tail_a buttons_2
        tail_b) =
    serialize_controller_state c header_b number mask mid_b buttons lt rt lx ly rx ry tail_a
      buttons_2 tail_b
serialize c (controller_touch number event padding touchpad pointer x y pressure) =
    serialize_controller_touch c number event padding touchpad pointer x y pressure
serialize c (controller_battery number state percentage reserved) =
    serialize_controller_battery c number state percentage reserved
serialize c (controller_motion number motion reserved_0 reserved_1 x y z) =
    serialize_controller_motion c number motion reserved_0 reserved_1 x y z
serialize c (rumble_data unused number low high) = serialize_rumble_data c unused number low high
serialize c (rumble_triggers number left right) = serialize_rumble_triggers c number left right
serialize c (set_led number r g b) = serialize_set_led c number r g b
serialize c (set_motion number rate motion) = serialize_set_motion c number rate motion
serialize c (set_adaptive_triggers number flags type_left type_right left right) =
    serialize_set_adaptive_triggers c number flags type_left type_right left right
serialize c (touch event reserved rotation pointer x y pressure minor major) =
    serialize_touch c event reserved rotation pointer x y pressure minor major
serialize c (pen event tool buttons padding x y pressure rotation tilt zero2 minor major) =
    serialize_pen c event tool buttons padding x y pressure rotation tilt zero2 minor major
serialize c (server_termination reason) = serialize_termination c reason
serialize c (web_state_packet sequence_number keys) =
    serialize_web_state_packet c sequence_number keys
