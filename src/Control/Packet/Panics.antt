-- ===== src/Control/Packet/Panics.antt =====
-- Which received bytes make `ControlPacket::deserialize` panic, and which cannot.
pub mod Defined
mod Parts
mod Input
use moonlight_common_rust.Common.{
  ◌+◌, ◌-◌, ◌≤◌, ◌≡◌, ◌>>=◌, Bool-cases, inl, inr, arith, Bool, true, false, some, ok, panic, Bytes,
  length, ltb, leb, ◌||◌, if◌then◌else◌,
}
use moonlight_common_rust.Control.Config.{
  ControlPacketConfig, ControlPacketType, PacketDirection, deserialize_ty,
}
use moonlight_common_rust.Control.Packet.{ControlPacket}
use moonlight_common_rust.Control.Packet.Deserialize.{deserialize, deserialize_known}
use moonlight_common_rust.Control.Packet.Deserialize.Fields.{
  Parsed, found, at_least, valid, valid_then, reads, u16_le,
}
use moonlight_common_rust.Control.Packet.Deserialize.Input.{
  input_at_least, deserialize_input, deserialize_touch, deserialize_pen, deserialize_motion,
  deserialize_controller_state, deserialize_controller_touch, deserialize_mouse_move_relative,
  deserialize_mouse_move_absolute, deserialize_mouse_scroll, deserialize_mouse_horizontal_scroll,
  deserialize_controller_arrival, deserialize_mouse_button, deserialize_keyboard,
}
use moonlight_common_rust.Version.{is_sunshine_like}
use moonlight_common_rust.Control.Packet.{SunshineHdrMetadata}
use moonlight_common_rust.Control.Packet.Deserialize.Parts.{
  metadata, read_metadata, termination_of, deserialize_hdr, deserialize_hdr_mode,
  deserialize_termination, deserialize_controller_rumble_data,
  deserialize_controller_rumble_triggers, deserialize_controller_set_motion,
  deserialize_controller_set_led, deserialize_loss_stats, deserialize_frame_fec,
  deserialize_long_term_reference_frame_acknowledgement, deserialize_invalidate_reference_frames,
  deserialize_web_state,
}
use moonlight_common_rust.Control.Packet.Panics.Defined.{
  valid-IsDefined, valid_then-IsDefined, input-IsDefined,
}

-- Bytes of a type that the receiver knows, with exactly one byte less than their length field tells, are
-- not refused: the call panics.
pub deserialize-one_short :
    (d : PacketDirection) (c : ControlPacketConfig) (payload : Bytes) (t : ControlPacketType)
    → deserialize_ty d c (u16_le payload 0) ≡ some t
    → 4 ≤ length payload
    → length payload + 1 ≡ 4 + u16_le payload 2
    → deserialize d c payload ≡ panic
unfolding deserialize deserialize_known
deserialize-one_short d c payload t known long short =
    let e0 : ltb (length payload) 4 ≡ false = ground arith in
    let e1 : ltb (length payload) (4 + u16_le payload 2 - 1) ≡ false = ground arith in
    let e2 : leb (4 + u16_le payload 2) (length payload) ≡ false = ground arith in
    let r0 : leb 2 (length payload) ≡ true = ground arith in
    let r2 : leb 4 (length payload) ≡ true = ground arith in rw (e0, r0, r2, known, e1, e2)
