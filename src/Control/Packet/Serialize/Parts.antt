-- ===== src/Control/Packet/Serialize/Parts.antt =====
-- What `ControlPacket::serialize` writes, packet by packet.
use moonlight_common_rust.Common.{
  ℕ, ◌+◌, ◌/◌, ◌^◌, Bool, true, false, Option, none, some, [], ◌∷◌, ◌++◌, Bytes, length, take, ltb,
  leb, if◌then◌else◌, u16_to_le, u16_to_be, u32_to_le, u32_to_be,
}
use moonlight_common_rust.Common.Int.{ℤ, pos, eq_ℤ}
use moonlight_common_rust.Control.Config.{ControlPacketConfig}
use moonlight_common_rust.Control.Packet.{
  TerminationReason, long, short, Primary, SunshineHdrMetadata,
}

unfoldable pub u64_to_le : ℕ → Bytes
u64_to_le n = u32_to_le n ++ u32_to_le (n / 2 ^ 32)

-- Type and length, then the content. The length is a number of the code's own, and not measured.
abbrev pub packet : ℕ → ℕ → Bytes → Bytes
packet ty content_len content = u16_to_le ty ++ (u16_to_le content_len ++ content)

abbrev pub optional : Option ℕ → ℕ → Bytes → Option Bytes
optional none content_len content = none
optional (some ty) content_len content = some (packet ty content_len content)

-- An input packet: its length, its magic number and its fields.
abbrev pub input : ControlPacketConfig → ℕ → ℕ → Bytes → Option Bytes
input c input_len magic fields =
    some (packet c.input_data (4 + input_len) (u32_to_be input_len ++ (u32_to_le magic ++ fields)))

abbrev pub at_least_5 : ℤ → Bool
at_least_5 (pos n) = leb 5 n
at_least_5 _ = false

abbrev pub of_bool : Bool → ℕ
of_bool true = 1
of_bool false = 0

unfoldable pub serialize_primary : Primary → Bytes
serialize_primary p = u16_to_le p.x ++ u16_to_le p.y

unfoldable pub serialize_metadata : SunshineHdrMetadata → Bytes
serialize_metadata m =
    serialize_primary m.display_primary_0
    ++ (serialize_primary m.display_primary_1
        ++ (serialize_primary m.display_primary_2
            ++ (serialize_primary m.white_point
                ++ (u16_to_le m.max_display_luminance
                    ++ (u16_to_le m.min_display_luminance
                        ++ (u16_to_le m.max_content_light_level
                            ++ (u16_to_le m.max_frame_average_light_level
                                ++ u16_to_le m.max_full_frame_luminance)))))))

unfoldable pub serialize_hdr :
    ControlPacketConfig → Bool → Option SunshineHdrMetadata → Option Bytes
serialize_hdr c enabled none = optional c.hdr_mode 1 (of_bool enabled ∷ [])
serialize_hdr c enabled (some m) = optional c.hdr_mode 27 (of_bool enabled ∷ serialize_metadata m)

unfoldable pub serialize_termination : ControlPacketConfig → TerminationReason → Option Bytes
serialize_termination c (short code) = optional c.server_termination 2 (u16_to_be code)
serialize_termination c (long code) = optional c.server_termination 4 (u32_to_be code)

abbrev pub serialize_ping : ControlPacketConfig → Option Bytes
serialize_ping c = optional c.periodic_ping 4 (0 ∷ 0 ∷ 0 ∷ 0 ∷ [])

abbrev pub serialize_idr_request : ControlPacketConfig → Option Bytes
serialize_idr_request c = some (packet c.request_idr 2 (0 ∷ 0 ∷ []))

abbrev pub serialize_start_b_packet : ControlPacketConfig → Option Bytes
serialize_start_b_packet c =
    if eq_ℤ c.server_version.major (pos 3)
    then some (packet c.start_b 4 (0 ∷ 0 ∷ 0 ∷ 0xa ∷ []))
    else some (packet c.start_b 1 (0 ∷ []))

abbrev pub serialize_loss : ControlPacketConfig → ℕ → ℕ → ℕ → ℕ → ℕ → ℕ → ℕ → Option Bytes
serialize_loss c unknown1 interval unknown2 last_good unknown3 unknown4 unknown5 = some (
    packet c.loss_stats 32 (
      u32_to_le unknown1
      ++ (u32_to_le interval
          ++ (u32_to_le unknown2
              ++ (u64_to_le last_good
                  ++ (u32_to_le unknown3 ++ (u32_to_le unknown4 ++ u32_to_le unknown5)))))))

abbrev pub serialize_frame_statistics : ControlPacketConfig → Option Bytes
serialize_frame_statistics c = some (packet c.frame_stats 0 [])

abbrev pub serialize_fec_status :
    ControlPacketConfig → ℕ → ℕ → ℕ → ℕ → ℕ → ℕ → ℕ → ℕ → ℕ → ℕ → ℕ → Option Bytes
serialize_fec_status c frame highest next missing data_total parity_total data_got parity_got
      percentage block count =
    optional c.frame_fec 21 (
      u32_to_be frame
      ++ (u16_to_be highest
          ++ (u16_to_be next
              ++ (u16_to_be missing
                  ++ (u16_to_be data_total
                      ++ (u16_to_be parity_total
                          ++ (u16_to_be data_got
                              ++ (u16_to_be parity_got ++ (percentage ∷ block ∷ count ∷ [])))))))))

abbrev pub serialize_invalidate_frames : ControlPacketConfig → ℕ → ℕ → ℕ → ℕ → ℕ → ℕ → Option Bytes
serialize_invalidate_frames c first reserved1 last a b d = some (
    packet c.invalidate_reference_frames 24 (
      u32_to_le first
      ++ (u32_to_le reserved1
          ++ (u32_to_le last ++ (u32_to_le a ++ (u32_to_le b ++ u32_to_le d))))))

abbrev pub serialize_long_term_reference_acknowledgement :
    ControlPacketConfig → ℕ → ℕ → Option Bytes
serialize_long_term_reference_acknowledgement c frame reserved =
    optional c.long_term_reference_frame_acknowledgement 8 (u32_to_le frame ++ u32_to_le reserved)

abbrev pub serialize_mouse_move_relative : ControlPacketConfig → ℕ → ℕ → Option Bytes
serialize_mouse_move_relative c dx dy =
    input c 8 (if at_least_5 c.server_version.major then 7 else 6) (u16_to_be dx ++ u16_to_be dy)

abbrev pub serialize_mouse_move_absolute : ControlPacketConfig → ℕ → ℕ → ℕ → ℕ → ℕ → Option Bytes
serialize_mouse_move_absolute c x y unused w h =
    input c 14 5
      (u16_to_be x ++ (u16_to_be y ++ (u16_to_be unused ++ (u16_to_be w ++ u16_to_be h))))

abbrev pub serialize_mouse_button : ControlPacketConfig → Bool → ℕ → Option Bytes
serialize_mouse_button c press button = input c 5 (if press then 8 else 9) (button ∷ [])

abbrev pub serialize_mouse_scroll : ControlPacketConfig → ℕ → ℕ → ℕ → Option Bytes
serialize_mouse_scroll c amount_1 amount_2 padding =
    input c 10 0xA (u16_to_be amount_1 ++ (u16_to_be amount_2 ++ u16_to_be padding))

abbrev pub serialize_mouse_horizontal_scroll : ControlPacketConfig → ℕ → Option Bytes
serialize_mouse_horizontal_scroll c amount = input c 6 0x55000001 (u16_to_be amount)

abbrev pub serialize_keyboard : ControlPacketConfig → Bool → ℕ → ℕ → ℕ → ℕ → Option Bytes
serialize_keyboard c down flags key_code modifiers padding =
    input c 10 (if down then 3 else 4)
      (flags ∷ (u16_to_le key_code ++ (modifiers ∷ u16_to_le padding)))

abbrev pub serialize_text : ControlPacketConfig → Bytes → ℕ → Option Bytes
serialize_text c bytes text_len =
    if ltb (length bytes) text_len then none else input c (4 + text_len) 0x17 (take text_len bytes)

abbrev pub serialize_controller_arrival : ControlPacketConfig → ℕ → ℕ → ℕ → ℕ → Option Bytes
serialize_controller_arrival c number ty capabilities buttons =
    input c 12 0x55000004 (number ∷ ty ∷ (u16_to_le capabilities ++ u32_to_le buttons))

abbrev pub serialize_controller_state :
    ControlPacketConfig → ℕ → ℕ → ℕ → ℕ → ℕ → ℕ → ℕ → ℕ → ℕ → ℕ → ℕ → ℕ → ℕ → ℕ → Option Bytes
serialize_controller_state c header_b number mask mid_b buttons lt rt lx ly rx ry tail_a buttons_2
      tail_b =
    input c 30 0xC (
      u16_to_le header_b
      ++ (u16_to_le number
          ++ (u16_to_le mask
              ++ (u16_to_le mid_b
                  ++ (u16_to_le buttons
                      ++ (lt
                          ∷ rt
                          ∷ (u16_to_le lx
                              ++ (u16_to_le ly
                                  ++ (u16_to_le rx
                                      ++ (u16_to_le ry
                                          ++ (u16_to_le tail_a
                                              ++ (u16_to_le buttons_2
                                                  ++ u16_to_le tail_b))))))))))))

abbrev pub serialize_controller_touch :
    ControlPacketConfig → ℕ → ℕ → ℕ → ℕ → ℕ → ℕ → ℕ → ℕ → Option Bytes
serialize_controller_touch c number event padding touchpad pointer x y pressure =
    input c 24 0x55000005 (
      number
      ∷ event
      ∷ padding
      ∷ touchpad
      ∷ (u32_to_le pointer ++ (u32_to_le x ++ (u32_to_le y ++ u32_to_le pressure))))

abbrev pub serialize_controller_battery : ControlPacketConfig → ℕ → ℕ → ℕ → ℕ → Option Bytes
serialize_controller_battery c number state percentage reserved =
    input c 8 0x55000007 (number ∷ state ∷ percentage ∷ reserved ∷ [])

abbrev pub serialize_controller_motion :
    ControlPacketConfig → ℕ → ℕ → ℕ → ℕ → ℕ → ℕ → ℕ → Option Bytes
serialize_controller_motion c number motion reserved_0 reserved_1 x y z =
    input c 20 0x55000006
      (number ∷ motion ∷ reserved_0 ∷ reserved_1 ∷ (u32_to_le x ++ (u32_to_le y ++ u32_to_le z)))

abbrev pub serialize_rumble_data : ControlPacketConfig → ℕ → ℕ → ℕ → ℕ → Option Bytes
serialize_rumble_data c unused number low high =
    optional c.rumble_data 10
      (u32_to_le unused ++ (u16_to_le number ++ (u16_to_le low ++ u16_to_le high)))

abbrev pub serialize_rumble_triggers : ControlPacketConfig → ℕ → ℕ → ℕ → Option Bytes
serialize_rumble_triggers c number left right =
    optional c.rumble_triggers 6 (u16_to_le number ++ (u16_to_le left ++ u16_to_le right))

abbrev pub serialize_set_led : ControlPacketConfig → ℕ → ℕ → ℕ → ℕ → Option Bytes
serialize_set_led c number r g b = optional c.set_rgb_led 5 (u16_to_le number ++ (r ∷ g ∷ b ∷ []))

abbrev pub serialize_set_motion : ControlPacketConfig → ℕ → ℕ → ℕ → Option Bytes
serialize_set_motion c number rate motion =
    optional c.set_motion_event 5 (u16_to_le number ++ (u16_to_le rate ++ (motion ∷ [])))

abbrev pub serialize_set_adaptive_triggers :
    ControlPacketConfig → ℕ → ℕ → ℕ → ℕ → Bytes → Bytes → Option Bytes
serialize_set_adaptive_triggers c number flags type_left type_right left right =
    optional c.set_adaptive_triggers 25
      (u16_to_le number ++ (flags ∷ type_left ∷ type_right ∷ (left ++ right)))

abbrev pub serialize_touch : ControlPacketConfig → ℕ → ℕ → ℕ → ℕ → ℕ → ℕ → ℕ → ℕ → ℕ → Option Bytes
serialize_touch c event reserved rotation pointer x y pressure minor major = input c 32 0x55000002 (
    event
    ∷ reserved
    ∷ (u16_to_le rotation
        ++ (u32_to_le pointer
            ++ (u32_to_le x
                ++ (u32_to_le y ++ (u32_to_le pressure ++ (u32_to_le minor ++ u32_to_le major)))))))

abbrev pub serialize_pen :
    ControlPacketConfig → ℕ → ℕ → ℕ → ℕ → ℕ → ℕ → ℕ → ℕ → ℕ → ℕ → ℕ → ℕ → Option Bytes
serialize_pen c event tool buttons padding x y pressure rotation tilt zero2 minor major =
    input c 32 0x55000003 (
      event
      ∷ tool
      ∷ buttons
      ∷ padding
      ∷ (u32_to_le x
          ++ (u32_to_le y
              ++ (u32_to_le pressure
                  ++ (u16_to_le rotation
                      ++ (tilt ∷ zero2 ∷ (u32_to_le minor ++ u32_to_le major)))))))

abbrev pub serialize_web_state_packet : ControlPacketConfig → ℕ → Bytes → Option Bytes
serialize_web_state_packet c sequence_number keys =
    optional c.web_state 34 (u16_to_be sequence_number ++ keys)
