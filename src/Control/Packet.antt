-- ===== src/Control/Packet.antt =====
-- The control packets of src/stream/proto/control/packet.rs. A signed field and an f32 are held as
-- their bit patterns, an enum and a set of flags as its number.
pub mod Serialize
pub mod Deserialize
pub mod RoundTrip
pub mod Panics
pub mod Size
pub mod Channel
use moonlight_common_rust.Common.{
  ℕ, ◌<◌, ◌≤◌, ◌^◌, ◌≡◌, Bool, Option, none, some, Bytes, length, take, drop, replicate, All, IsU8,
  IsU16, IsU32, ltb, leb, ◌&&◌, if◌then◌else◌,
}
use moonlight_common_rust.Control.Config.{
  ControlPacketType, periodic_ping, request_idr, start_b, invalidate_reference_frames,
  long_term_reference_frame_acknowledgement, loss_stats, frame_stats, controller_rumble_data,
  termination, hdr_mode, input_data, frame_fec, controller_rumble_triggers, controller_set_motion,
  controller_set_led, controller_set_adaptive_triggers, web_state,
}

pub data TerminationReason : Type 0 where
  long : ℕ → TerminationReason
  short : ℕ → TerminationReason

pub record Primary : Type 0 where
  pub x : ℕ
  pub y : ℕ

pub record SunshineHdrMetadata : Type 0 where
  pub display_primary_0 : Primary
  pub display_primary_1 : Primary
  pub display_primary_2 : Primary
  pub white_point : Primary
  pub max_display_luminance : ℕ
  pub min_display_luminance : ℕ
  pub max_content_light_level : ℕ
  pub max_frame_average_light_level : ℕ
  pub max_full_frame_luminance : ℕ

pub data ControlPacket : Type 0 where
  rumble_data : (unused controller_number low_frequency high_frequency : ℕ) → ControlPacket
  rumble_triggers : (controller_number left_trigger_motor right_trigger_motor : ℕ) → ControlPacket
  set_motion : (controller_number rate motion_type : ℕ) → ControlPacket
  set_led : (controller_number r g b : ℕ) → ControlPacket
  set_adaptive_triggers :
      (controller_number event_flags type_left type_right : ℕ)
      → (left right : Bytes) → ControlPacket
  idr_request : ControlPacket
  start_b_packet : ControlPacket
  ping : ControlPacket
  hdr : (enabled : Bool) → (sunshine : Option SunshineHdrMetadata) → ControlPacket
  loss :
      (unknown1 loss_report_interval_ms unknown2 last_good_frame unknown3 unknown4 unknown5 : ℕ)
      → ControlPacket
  frame_statistics : ControlPacket
  fec_status :
      (frame_index highest_received_sequence_number next_contiguous_sequence_number
        missing_packets_before_highest_received total_data_packets total_parity_packets
        received_data_packets received_parity_packets fec_percentage multi_fec_block_index
        multi_fec_block_count : ℕ)
      → ControlPacket
  mouse_move_relative : (delta_x delta_y : ℕ) → ControlPacket
  mouse_move_absolute : (x y unused reference_width reference_height : ℕ) → ControlPacket
  mouse_button : (press : Bool) → (button : ℕ) → ControlPacket
  keyboard : (down : Bool) → (flags key_code modifiers zero : ℕ) → ControlPacket
  text : (text : Bytes) → (text_len : ℕ) → ControlPacket
  mouse_scroll : (scroll_amount_1 scroll_amount_2 zero : ℕ) → ControlPacket
  mouse_horizontal_scroll : (scroll_amount : ℕ) → ControlPacket
  touch :
      (event_type reserved rotation pointer_id x y pressure_or_distance contact_area_minor
        contact_area_major : ℕ)
      → ControlPacket
  pen :
      (event_type tool_type buttons zero x y pressure_or_distance rotation tilt zero2
        contact_area_minor contact_area_major : ℕ)
      → ControlPacket
  controller_state :
      (header_b controller_number active_gamepad_mask mid_b button_flags left_trigger right_trigger
        left_stick_x left_stick_y right_stick_x right_stick_y tail_a button_flags_2 tail_b : ℕ)
      → ControlPacket
  controller_arrival : (controller_number ty capabilities supported_buttons : ℕ) → ControlPacket
  controller_motion :
      (controller_number motion_type reserved_0 reserved_1 x y z : ℕ) → ControlPacket
  controller_battery :
      (controller_number battery_state battery_percentage reserved : ℕ) → ControlPacket
  controller_touch :
      (controller_number event_type zero touchpad_index pointer_id x y pressure : ℕ) → ControlPacket
  invalidate_frames :
      (first_frame_index reserved1 last_frame_index reserved2_0 reserved2_1 reserved2_2 : ℕ)
      → ControlPacket
  long_term_reference_acknowledgement : (frame_index reserved : ℕ) → ControlPacket
  server_termination : (reason : TerminationReason) → ControlPacket
  web_state_packet : (sequence_number : ℕ) → (keys : Bytes) → ControlPacket

-- `ty`: all input packets share one type.
unfoldable pub ty : ControlPacket → ControlPacketType
ty ping = periodic_ping
ty idr_request = request_idr
ty start_b_packet = start_b
ty (invalidate_frames a b c d e f) = invalidate_reference_frames
ty (long_term_reference_acknowledgement a b) = long_term_reference_frame_acknowledgement
ty (loss a b c d e f g) = loss_stats
ty frame_statistics = frame_stats
ty (fec_status a b c d e f g h i j k) = frame_fec
ty (rumble_data a b c d) = controller_rumble_data
ty (rumble_triggers a b c) = controller_rumble_triggers
ty (set_motion a b c) = controller_set_motion
ty (set_led a b c d) = controller_set_led
ty (server_termination r) = termination
ty (hdr e s) = hdr_mode
ty (set_adaptive_triggers a b c d l r) = controller_set_adaptive_triggers
ty (web_state_packet s k) = web_state
ty _ = input_data

abbrev pub utf8_text_max_count : ℕ
utf8_text_max_count = 32

abbrev pub ds_effect_payload_size : ℕ
ds_effect_payload_size = 10

-- `from_u8` of the enums whose numbers go from a first to a last one.
abbrev pub from_range : ℕ → ℕ → ℕ → Option ℕ
from_range first last n = if leb first n && leb n last then some n else none

abbrev pub touch_event_type : ℕ → Option ℕ
touch_event_type = from_range 0 7

abbrev pub motion_type : ℕ → Option ℕ
motion_type = from_range 1 2

abbrev pub mouse_button_from : ℕ → Option ℕ
mouse_button_from = from_range 1 5

abbrev pub unwrap_or : Option ℕ → ℕ → ℕ
unwrap_or none d = d
unwrap_or (some n) d = n

abbrev pub tool_type : ℕ → ℕ
tool_type n = unwrap_or (from_range 0 2 n) 0

abbrev pub controller_type : ℕ → ℕ
controller_type n = unwrap_or (from_range 0 4 n) 0

abbrev pub battery_state : ℕ → ℕ
battery_state n = unwrap_or (from_range 0 5 n) 0
