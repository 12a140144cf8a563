-- ===== src/Control/Packet/RoundTrip.antt =====
-- Every control packet that fits its fields, serialized and read back.
pub mod Ranges
pub mod Fields
pub mod Plain
pub mod Input
use moonlight_common_rust.Common.{◌≡◌, arith, Bool, true, some, Bytes}
use moonlight_common_rust.Version.{ServerVersion}
use moonlight_common_rust.Control.Config.{ControlPacketConfig, new, direction}
use moonlight_common_rust.Control.Config.Types.{ReadsBack, deserialize_ty-serialize_ty}
use moonlight_common_rust.Control.Packet.{
  ControlPacket, ty, rumble_data, rumble_triggers, set_motion, set_led, set_adaptive_triggers,
  idr_request, start_b_packet, ping, hdr, loss, frame_statistics, fec_status, mouse_move_relative,
  mouse_move_absolute, mouse_button, keyboard, text, mouse_scroll, mouse_horizontal_scroll, touch,
  pen, controller_state, controller_arrival, controller_motion, controller_battery,
  controller_touch, invalidate_frames, long_term_reference_acknowledgement, server_termination,
  web_state_packet,
}
use moonlight_common_rust.Control.Packet.Serialize.{serialize}
use moonlight_common_rust.Control.Packet.Serialize.Parts.{at_least_5}
use moonlight_common_rust.Control.Packet.Deserialize.{deserialize}
use moonlight_common_rust.Control.Packet.Deserialize.Fields.{found}
use moonlight_common_rust.Control.Packet.RoundTrip.Ranges.{Fits}
use moonlight_common_rust.Control.Packet.RoundTrip.Plain.*
use moonlight_common_rust.Control.Packet.RoundTrip.Input.*

-- There is no configuration for a server older than 5.
new-at_least_5 :
    (v : ServerVersion) (encrypted : Bool) (c : ControlPacketConfig)
    → new v encrypted ≡ some c
    → at_least_5 c.server_version.major ≡ true
unfolding new
new-at_least_5 v encrypted c made = ground arith

all-ComesBack :
    (c : ControlPacketConfig)
    → ReadsBack c
    → at_least_5 c.server_version.major ≡ true
    → (p : ControlPacket) → Fits c p
    → ComesBack c p
all-ComesBack c back recent (rumble_data a b d e) f = rumble_data-ComesBack c a b d e back f
all-ComesBack c back recent (rumble_triggers a b d) f = rumble_triggers-ComesBack c a b d back f
all-ComesBack c back recent (set_motion a b d) f = set_motion-ComesBack c a b d back f
all-ComesBack c back recent (set_led a b d e) f = set_led-ComesBack c a b d e back f
all-ComesBack c back recent (set_adaptive_triggers a b d e g h) f =
    set_adaptive_triggers-ComesBack c a b d e g h back f
all-ComesBack c back recent idr_request f = idr_request-ComesBack c back f
all-ComesBack c back recent start_b_packet f = start_b_packet-ComesBack c back
all-ComesBack c back recent ping f = ping-ComesBack c back f
all-ComesBack c back recent (hdr a b) f = hdr-ComesBack c a b back f
all-ComesBack c back recent (loss a b d e g h i) f = loss-ComesBack c a b d e g h i back f
all-ComesBack c back recent frame_statistics f = frame_statistics-ComesBack c back f
all-ComesBack c back recent (fec_status a b d e g h i j k l m) f =
    fec_status-ComesBack c a b d e g h i j k l m back f
all-ComesBack c back recent (mouse_move_relative a b) f =
    mouse_move_relative-ComesBack c a b back recent f
all-ComesBack c back recent (mouse_move_absolute a b d e g) f =
    mouse_move_absolute-ComesBack c a b d e g back f
all-ComesBack c back recent (mouse_button a b) f = mouse_button-ComesBack c a b back f
all-ComesBack c back recent (keyboard a b d e g) f = keyboard-ComesBack c a b d e g back f
all-ComesBack c back recent (text a b) f = text-ComesBack c a b back f
all-ComesBack c back recent (mouse_scroll a b d) f = mouse_scroll-ComesBack c a b d back f
all-ComesBack c back recent (mouse_horizontal_scroll a) f =
    mouse_horizontal_scroll-ComesBack c a back f
all-ComesBack c back recent (touch a b d e g h i j k) f = touch-ComesBack c a b d e g h i j k back f
all-ComesBack c back recent (pen a b d e g h i j k l m n) f =
    pen-ComesBack c a b d e g h i j k l m n back f
all-ComesBack c back recent (controller_state a b d e g h i j k l m n o q) f =
    controller_state-ComesBack c a b d e g h i j k l m n o q back f
all-ComesBack c back recent (controller_arrival a b d e) f =
    controller_arrival-ComesBack c a b d e back f
all-ComesBack c back recent (controller_motion a b d e g h i) f =
    controller_motion-ComesBack c a b d e g h i back f
all-ComesBack c back recent (controller_battery a b d e) f =
    controller_battery-ComesBack c a b d e back f
all-ComesBack c back recent (controller_touch a b d e g h i j) f =
    controller_touch-ComesBack c a b d e g h i j back f
all-ComesBack c back recent (invalidate_frames a b d e g h) f =
    invalidate_frames-ComesBack c a b d e g h back f
all-ComesBack c back recent (long_term_reference_acknowledgement a b) f =
    long_term_reference_acknowledgement-ComesBack c a b back f
all-ComesBack c back recent (server_termination a) f = termination-ComesBack c a back f
all-ComesBack c back recent (web_state_packet a b) f = web_state-ComesBack c a b back f

-- For every version and encryption for which there is a configuration, and every control packet whose
-- numbers have the widths of their fields and whose enums have one of their values; of these, a scroll only if
-- the two bytes of its padding are equal (they change places), a text only with zeros behind its length,
-- an HDR packet with metadata only for a server like Sunshine (for others the metadata is lost): if the packet is serialized at all (the server may lack
-- it), then the bytes, received in the direction of the packet's type, are read as this same packet.
pub deserialize-serialize :
    (v : ServerVersion) (encrypted : Bool) (c : ControlPacketConfig)
    → new v encrypted ≡ some c
    → (p : ControlPacket) (bytes : Bytes) → Fits c p
    → serialize c p ≡ some bytes
    → deserialize (direction (ty p)) c bytes ≡ found p
deserialize-serialize v encrypted c made p bytes fits =
    all-ComesBack c (deserialize_ty-serialize_ty v encrypted c made)
      (new-at_least_5 v encrypted c made) p fits bytes
