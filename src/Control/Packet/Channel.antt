-- ===== src/Control/Packet/Channel.antt =====
-- ControlPacket::channel and EnetChannel of src/stream/proto/control/packet.rs: the ENet channel that a
-- packet goes on. PacketKind is in peer.rs.
use moonlight_common_rust.Common.{
  ℕ, ◌+◌, ◌%◌, ◌^◌, ◌<◌, ◌≤◌, ◌⊎◌, ◌≡◌, Bool, ◌&&◌, ◌||◌, Option, none, some, ltb, ◌==◌,
  if◌then◌else◌,
}
use moonlight_common_rust.Version.{ServerVersion, is_sunshine_like}
use moonlight_common_rust.Control.Packet.{
  ControlPacket, rumble_data, rumble_triggers, set_motion, set_led, set_adaptive_triggers,
  idr_request, start_b_packet, ping, loss, fec_status, mouse_move_relative, mouse_move_absolute,
  mouse_button, keyboard, text, mouse_scroll, mouse_horizontal_scroll, touch, pen, controller_state,
  controller_arrival, controller_motion, controller_battery, controller_touch, invalidate_frames,
  long_term_reference_acknowledgement, web_state_packet, unwrap_or,
}

pub data PacketKind : Type 0 where
  unreliable sequenced always_unreliable always_sequenced reliable : PacketKind

abbrev channel_generic : ℕ
channel_generic = 0x00

abbrev channel_urgent : ℕ
channel_urgent = 0x01

abbrev channel_keyboard : ℕ
channel_keyboard = 0x02

abbrev channel_mouse : ℕ
channel_mouse = 0x03

abbrev channel_pen : ℕ
channel_pen = 0x04

abbrev channel_touch : ℕ
channel_touch = 0x05

abbrev channel_utf8 : ℕ
channel_utf8 = 0x06

abbrev channel_gamepad_base : ℕ
channel_gamepad_base = 0x10

abbrev pub channel_count : ℕ
channel_count = 0x30

abbrev controller : ℕ → Option ℕ
controller id = if ltb id 16 then some (channel_gamepad_base + id) else none

-- The channel of a controller whose number is a u8, or is cut to one.
abbrev controller_channel : ℕ → ℕ
controller_channel number = unwrap_or (controller (number % 2 ^ 8)) channel_gamepad_base

-- `x == 0.0` on the bits of an f32: both zeros are equal to it.
abbrev is_zero_f32 : ℕ → Bool
is_zero_f32 bits = (bits == 0) || (bits == 2 ^ 31)

abbrev motion_gyroscope : ℕ
motion_gyroscope = 2

-- The kind of a motion packet: the one that says that the controller rests must arrive.
abbrev motion_kind : (motion_type x y z : ℕ) → PacketKind
motion_kind motion_type x y z =
    if (motion_type == motion_gyroscope) && is_zero_f32 x && is_zero_f32 y && is_zero_f32 z
    then reliable
    else sequenced

-- `channel` for a server that is like Sunshine.
unfoldable pub sunshine_channel : ControlPacket → ℕ × PacketKind
sunshine_channel idr_request = (channel_urgent, reliable)
sunshine_channel start_b_packet = (channel_urgent, reliable)
sunshine_channel (invalidate_frames _ _ _ _ _ _) = (channel_urgent, reliable)
sunshine_channel (long_term_reference_acknowledgement _ _) = (channel_urgent, reliable)
sunshine_channel (loss _ _ _ _ _ _ _) = (channel_generic, unreliable)
sunshine_channel (fec_status _ _ _ _ _ _ _ _ _ _ _) = (channel_generic, unreliable)
sunshine_channel ping = (channel_generic, reliable)
sunshine_channel (mouse_move_relative _ _) = (channel_mouse, reliable)
sunshine_channel (mouse_move_absolute _ _ _ _ _) = (channel_mouse, reliable)
sunshine_channel (mouse_button _ _) = (channel_mouse, reliable)
sunshine_channel (keyboard _ _ _ _ _) = (channel_keyboard, reliable)
sunshine_channel (text _ _) = (channel_utf8, reliable)
sunshine_channel (controller_arrival number _ _ _) = (controller_channel number, reliable)
sunshine_channel (controller_battery number _ _ _) = (controller_channel number, reliable)
sunshine_channel (controller_motion number motion_type _ _ x y z) =
    (controller_channel number, motion_kind motion_type x y z)
sunshine_channel (rumble_data _ number _ _) = (controller_channel number, reliable)
sunshine_channel (rumble_triggers number _ _) = (controller_channel number, reliable)
sunshine_channel (set_led number _ _ _) = (controller_channel number, reliable)
sunshine_channel (set_adaptive_triggers number _ _ _ _ _) = (controller_channel number, reliable)
sunshine_channel (set_motion number _ _) = (controller_channel number, reliable)
sunshine_channel (controller_state _ number _ _ _ _ _ _ _ _ _ _ _ _) =
    (controller_channel number, sequenced)
sunshine_channel (controller_touch _ _ _ _ _ _ _ _) = (channel_touch, reliable)
sunshine_channel (mouse_scroll _ _ _) = (channel_mouse, reliable)
sunshine_channel (mouse_horizontal_scroll _) = (channel_mouse, reliable)
sunshine_channel (touch _ _ _ _ _ _ _ _ _) = (channel_touch, reliable)
sunshine_channel (pen _ _ _ _ _ _ _ _ _ _ _ _) = (channel_pen, reliable)
sunshine_channel (web_state_packet _ _) = (channel_keyboard, unreliable)
sunshine_channel _ = (channel_generic, reliable)

unfoldable pub channel : ServerVersion → ControlPacket → ℕ × PacketKind
channel version packet =
    if is_sunshine_like version then sunshine_channel packet else (channel_generic, reliable)

-- The controller of a packet that goes on a controller's channel. A touch on a controller's pad has a
-- controller number, too, but is among the touches.
unfoldable pub channel_controller : ControlPacket → Option ℕ
channel_controller (controller_arrival number _ _ _) = some number
channel_controller (controller_battery number _ _ _) = some number
channel_controller (controller_motion number _ _ _ _ _ _) = some number
channel_controller (controller_state _ number _ _ _ _ _ _ _ _ _ _ _ _) = some number
channel_controller (rumble_data _ number _ _) = some number
channel_controller (rumble_triggers number _ _) = some number
channel_controller (set_led number _ _ _) = some number
channel_controller (set_adaptive_triggers number _ _ _ _ _) = some number
channel_controller (set_motion number _ _) = some number
channel_controller _ = none

-- Where a packet of a controller, or of none, is put: each controller that has a channel is on its own.
unfoldable IsPlaced : Option ℕ → ℕ → Type 0
IsPlaced none place = place < 16
IsPlaced (some number) place = (place ≡ 16 + number) ⊎ ((16 ≤ number) × (16 ≤ place) × (place < 32))

unfoldable pub IsInRange : Option ℕ → Type 0
IsInRange none = Unit
IsInRange (some number) = number < 16
