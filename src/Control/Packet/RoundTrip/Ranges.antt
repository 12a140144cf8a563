-- ===== src/Control/Packet/RoundTrip/Ranges.antt =====
-- The control packets that are read back as they were written.
use moonlight_common_rust.Common.{
  ℕ, ◌-◌, ◌/◌, ◌%◌, ◌^◌, ◌<◌, ◌≤◌, ◌≡◌, true, none, some, ◌++◌, length, take, replicate, IsU16,
  IsU32,
}
use moonlight_common_rust.Version.{is_sunshine_like}
use moonlight_common_rust.Control.Config.{ControlPacketConfig}
use moonlight_common_rust.Control.Packet.{
  ControlPacket, long, short, Primary, SunshineHdrMetadata, rumble_data, rumble_triggers,
  set_motion, set_led, set_adaptive_triggers, idr_request, start_b_packet, ping, hdr, loss,
  frame_statistics, fec_status, mouse_move_relative, mouse_move_absolute, mouse_button, keyboard,
  text, mouse_scroll, mouse_horizontal_scroll, touch, pen, controller_state, controller_arrival,
  controller_motion, controller_battery, controller_touch, invalidate_frames,
  long_term_reference_acknowledgement, server_termination, web_state_packet, utf8_text_max_count,
  ds_effect_payload_size,
}

abbrev pub InRange : ℕ → ℕ → ℕ → Type 0
InRange first last n = (first ≤ n) × (n ≤ last)

abbrev pub PrimaryFits : Primary → Type 0
PrimaryFits p = IsU16 p.x × IsU16 p.y

abbrev pub MetadataFits : SunshineHdrMetadata → Type 0
MetadataFits m =
    PrimaryFits m.display_primary_0
    × PrimaryFits m.display_primary_1
    × PrimaryFits m.display_primary_2
    × PrimaryFits m.white_point
    × IsU16 m.max_display_luminance
    × IsU16 m.min_display_luminance
    × IsU16 m.max_content_light_level
    × IsU16 m.max_frame_average_light_level
    × IsU16 m.max_full_frame_luminance

-- Every number has the width of its field and every enum one of its values; a scroll's padding has
-- two equal bytes, as 0 has; a text is followed by zeros; only a Sunshine server has HDR metadata.
unfoldable pub Fits : ControlPacketConfig → ControlPacket → Type 0
Fits c (rumble_data a b d e) = IsU32 a × IsU16 b × IsU16 d × IsU16 e
Fits c (rumble_triggers a b d) = IsU16 a × IsU16 b × IsU16 d
Fits c (set_motion a b motion) = IsU16 a × IsU16 b × InRange 1 2 motion
Fits c (set_led a r g b) = IsU16 a
Fits c (set_adaptive_triggers a flags l r left right) =
    IsU16 a × (length left ≡ ds_effect_payload_size) × (length right ≡ ds_effect_payload_size)
Fits c idr_request = Unit
Fits c start_b_packet = Unit
Fits c ping = Unit
Fits c (hdr enabled none) = Unit
Fits c (hdr enabled (some m)) = (is_sunshine_like c.server_version ≡ true) × MetadataFits m
Fits c (loss a b d last e f g) =
    IsU32 a × IsU32 b × IsU32 d × (last < 2 ^ 64) × IsU32 e × IsU32 f × IsU32 g
Fits c frame_statistics = Unit
Fits c (fec_status frame a b d e f g h percentage block count) =
    IsU32 frame × IsU16 a × IsU16 b × IsU16 d × IsU16 e × IsU16 f × IsU16 g × IsU16 h
Fits c (mouse_move_relative x y) = IsU16 x × IsU16 y
Fits c (mouse_move_absolute x y u w h) = IsU16 x × IsU16 y × IsU16 u × IsU16 w × IsU16 h
Fits c (mouse_button press button) = InRange 1 5 button
Fits c (keyboard down flags key_code modifiers padding) = IsU16 key_code × IsU16 padding
Fits c (text bytes text_len) =
    (length bytes ≡ utf8_text_max_count)
    × (text_len ≤ utf8_text_max_count)
    × (take text_len bytes ++ replicate (utf8_text_max_count - text_len) 0 ≡ bytes)
Fits c (mouse_scroll a b padding) =
    IsU16 a × IsU16 b × IsU16 padding × (padding / 2 ^ 8 ≡ padding % 2 ^ 8)
Fits c (mouse_horizontal_scroll a) = IsU16 a
Fits c (touch event reserved rotation pointer x y pressure minor major) =
    InRange 0 7 event
    × IsU16 rotation
    × IsU32 pointer
    × IsU32 x
    × IsU32 y
    × IsU32 pressure
    × IsU32 minor
    × IsU32 major
Fits c (pen event tool buttons padding x y pressure rotation tilt padding2 minor major) =
    InRange 0 7 event
    × InRange 0 2 tool
    × IsU32 x
    × IsU32 y
    × IsU32 pressure
    × IsU16 rotation
    × IsU32 minor
    × IsU32 major
Fits c
      (controller_state header_b number mask mid_b buttons lt rt lx ly rx ry tail_a buttons_2
        tail_b) =
    IsU16 header_b
    × IsU16 number
    × IsU16 mask
    × IsU16 mid_b
    × IsU16 buttons
    × IsU16 lx
    × IsU16 ly
    × IsU16 rx
    × IsU16 ry
    × IsU16 tail_a
    × IsU16 buttons_2
    × IsU16 tail_b
Fits c (controller_arrival number ty capabilities buttons) =
    InRange 0 4 ty × IsU16 capabilities × IsU32 buttons
Fits c (controller_motion number motion r s x y z) =
    InRange 1 2 motion × IsU32 x × IsU32 y × IsU32 z
Fits c (controller_battery number state percentage reserved) = InRange 0 5 state
Fits c (controller_touch number event padding touchpad pointer x y pressure) =
    InRange 0 7 event × IsU32 pointer × IsU32 x × IsU32 y × IsU32 pressure
Fits c (invalidate_frames a b d e f g) = IsU32 a × IsU32 b × IsU32 d × IsU32 e × IsU32 f × IsU32 g
Fits c (long_term_reference_acknowledgement a b) = IsU32 a × IsU32 b
Fits c (server_termination (long code)) = IsU32 code
Fits c (server_termination (short code)) = IsU16 code
Fits c (web_state_packet a keys) = IsU16 a × (length keys ≡ 32)
