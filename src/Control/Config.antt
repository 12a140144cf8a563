-- ===== src/Control/Config.antt =====
-- The packet types of src/stream/proto/control/packet.rs: RawControlPacketType is its number, and
-- ControlPacketConfig says which number each type has for a server.
pub mod Types
use moonlight_common_rust.Common.{
  ℕ, Bool, true, false, ◌&&◌, Option, none, some, ◌==◌, if◌then◌else◌,
}
use moonlight_common_rust.Common.Int.{ℤ, pos, eq_ℤ}
use moonlight_common_rust.Version.{ServerVersion, version, at_least, is_sunshine_like}

pub record ControlPacketConfig : Type 0 where
  pub server_version : ServerVersion
  pub periodic_ping : Option ℕ
  pub request_idr : ℕ
  pub start_b : ℕ
  pub invalidate_reference_frames : ℕ
  pub long_term_reference_frame_acknowledgement : Option ℕ
  pub loss_stats : ℕ
  pub frame_stats : ℕ
  pub rumble_data : Option ℕ
  pub server_termination : Option ℕ
  pub hdr_mode : Option ℕ
  pub input_data : ℕ
  pub frame_fec : Option ℕ
  pub rumble_triggers : Option ℕ
  pub set_motion_event : Option ℕ
  pub set_rgb_led : Option ℕ
  pub set_adaptive_triggers : Option ℕ
  pub web_state : Option ℕ

abbrev pub periodic_ping_version : ServerVersion
periodic_ping_version = version 7 1 415

abbrev pub then_some : Bool → ℕ → Option ℕ
then_some true n = some n
then_some false n = none

abbrev pub gen5 : ServerVersion → ControlPacketConfig
gen5 v = record {
  server_version = v;
  periodic_ping = none;
  request_idr = 0x0305;
  start_b = 0x0307;
  invalidate_reference_frames = 0x0301;
  long_term_reference_frame_acknowledgement = none;
  loss_stats = 0x0201;
  frame_stats = 0x0204;
  rumble_data = none;
  server_termination = none;
  hdr_mode = none;
  input_data = 0x0207;
  frame_fec = then_some (is_sunshine_like v) 0x5502;
  rumble_triggers = none;
  set_motion_event = none;
  set_rgb_led = none;
  set_adaptive_triggers = none;
  web_state = none;
}

abbrev pub gen7_encrypted : ServerVersion → ControlPacketConfig
gen7_encrypted v = record {
  server_version = v;
  periodic_ping = then_some (at_least v periodic_ping_version) 0x0200;
  request_idr = 0x0302;
  start_b = 0x0307;
  invalidate_reference_frames = 0x0301;
  long_term_reference_frame_acknowledgement = some 0x0350;
  loss_stats = 0x0201;
  frame_stats = 0x0204;
  rumble_data = some 0x010b;
  server_termination = some 0x0109;
  hdr_mode = some 0x010e;
  input_data = 0x0206;
  frame_fec = then_some (is_sunshine_like v) 0x5502;
  rumble_triggers = some 0x5500;
  set_motion_event = some 0x5501;
  set_rgb_led = some 0x5502;
  set_adaptive_triggers = some 0x5503;
  web_state = none;
}

abbrev pub gen6 : ServerVersion → ControlPacketConfig
gen6 v = record {
  server_version = v;
  periodic_ping = then_some (at_least v periodic_ping_version) 0x0200;
  request_idr = 0x0305;
  start_b = 0x0307;
  invalidate_reference_frames = 0x0301;
  long_term_reference_frame_acknowledgement = some 0x0350;
  loss_stats = 0x0201;
  frame_stats = 0x0204;
  rumble_data = some 0x010b;
  server_termination = some 0x0100;
  hdr_mode = some 0x010e;
  input_data = 0x0206;
  frame_fec = then_some (is_sunshine_like v) 0x5502;
  rumble_triggers = none;
  set_motion_event = none;
  set_rgb_led = none;
  set_adaptive_triggers = none;
  web_state = none;
}

unfoldable pub new : ServerVersion → Bool → Option ControlPacketConfig
new v encrypted =
    if eq_ℤ v.major (pos 5)
    then some (gen5 v)
    else if eq_ℤ v.major (pos 7) && encrypted
    then some (gen7_encrypted v)
    else if eq_ℤ v.major (pos 6)
    then some (gen6 v)
    else if eq_ℤ v.major (pos 7)
    then some (gen6 v)
    else none

pub data PacketDirection : Type 0 where
  client_bound server_bound : PacketDirection

pub data ControlPacketType : Type 0 where
  periodic_ping request_idr start_b invalidate_reference_frames
        long_term_reference_frame_acknowledgement loss_stats frame_stats controller_rumble_data
        termination hdr_mode input_data frame_fec controller_rumble_triggers controller_set_motion
        controller_set_led controller_set_adaptive_triggers web_state :
      ControlPacketType

unfoldable pub direction : ControlPacketType → PacketDirection
direction controller_rumble_data = client_bound
direction termination = client_bound
direction hdr_mode = client_bound
direction controller_rumble_triggers = client_bound
direction controller_set_motion = client_bound
direction controller_set_led = client_bound
direction controller_set_adaptive_triggers = client_bound
direction periodic_ping = server_bound
direction request_idr = server_bound
direction start_b = server_bound
direction invalidate_reference_frames = server_bound
direction long_term_reference_frame_acknowledgement = server_bound
direction loss_stats = server_bound
direction frame_stats = server_bound
direction input_data = server_bound
direction frame_fec = server_bound
direction web_state = server_bound

unfoldable pub serialize_ty : ControlPacketType → ControlPacketConfig → Option ℕ
serialize_ty periodic_ping c = c.periodic_ping
serialize_ty request_idr c = some c.request_idr
serialize_ty start_b c = some c.start_b
serialize_ty invalidate_reference_frames c = some c.invalidate_reference_frames
serialize_ty long_term_reference_frame_acknowledgement c =
    c.long_term_reference_frame_acknowledgement
serialize_ty loss_stats c = some c.loss_stats
serialize_ty frame_stats c = some c.frame_stats
serialize_ty controller_rumble_data c = c.rumble_data
serialize_ty termination c = c.server_termination
serialize_ty hdr_mode c = c.hdr_mode
serialize_ty input_data c = some c.input_data
serialize_ty frame_fec c = c.frame_fec
serialize_ty controller_rumble_triggers c = c.rumble_triggers
serialize_ty controller_set_motion c = c.set_motion_event
serialize_ty controller_set_led c = c.set_rgb_led
serialize_ty controller_set_adaptive_triggers c = c.set_adaptive_triggers
serialize_ty web_state c = c.web_state

-- `Some(id) == field`
unfoldable pub is_some_of : ℕ → Option ℕ → Bool
is_some_of id none = false
is_some_of id (some n) = id == n

unfoldable pub deserialize_ty : PacketDirection → ControlPacketConfig → ℕ → Option ControlPacketType
unfolding is_some_of
deserialize_ty client_bound c id =
    if is_some_of id c.hdr_mode
    then some hdr_mode
    else if is_some_of id c.server_termination
    then some termination
    else if is_some_of id c.set_motion_event
    then some controller_set_motion
    else if is_some_of id c.set_rgb_led
    then some controller_set_led
    else if is_some_of id c.rumble_data
    then some controller_rumble_data
    else if is_some_of id c.rumble_triggers
    then some controller_rumble_triggers
    else if is_some_of id c.set_adaptive_triggers
    then some controller_set_adaptive_triggers
    else none
deserialize_ty server_bound c id =
    if is_some_of id c.periodic_ping
    then some periodic_ping
    else if id == c.request_idr
    then some request_idr
    else if id == c.start_b
    then some start_b
    else if is_some_of id c.frame_fec
    then some frame_fec
    else if id == c.invalidate_reference_frames
    then some invalidate_reference_frames
    else if is_some_of id c.long_term_reference_frame_acknowledgement
    then some long_term_reference_frame_acknowledgement
    else if id == c.loss_stats
    then some loss_stats
    else if id == c.frame_stats
    then some frame_stats
    else if id == c.input_data
    then some input_data
    else if is_some_of id c.web_state
    then some web_state
    else none
