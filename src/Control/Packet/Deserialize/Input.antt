-- ===== src/Control/Packet/Deserialize/Input.antt =====
-- The input packets of `ControlPacket::deserialize`, by their magic number. A field is called by the index at
-- which it is read, `f12` for that at 12; its name is the constructor's.
use moonlight_common_rust.Common.{
  ℕ, ◌+◌, ◌-◌, none, ok, assert, ◌>>◌, ◌>>=◌, Bytes, length, slice, replicate, ◌++◌, ltb, leb, ◌==◌,
  ◌||◌, if◌then◌else◌,
}
use moonlight_common_rust.Control.Packet.{
  mouse_move_relative, mouse_move_absolute, mouse_button, keyboard, text, mouse_scroll,
  mouse_horizontal_scroll, touch, pen, controller_state, controller_arrival, controller_motion,
  controller_battery, controller_touch, utf8_text_max_count, touch_event_type, motion_type,
  mouse_button_from, tool_type, controller_type, battery_state,
}
use moonlight_common_rust.Control.Packet.Deserialize.Fields.{
  read_u8, read_u16_le, read_u16_be, read_u32_le, valid_then, Parsed, found, valid,
}

-- `if input_len < n { None } else { ... }`
abbrev pub input_at_least : ℕ → ℕ → Parsed → Parsed
input_at_least n input_len rest = if ltb input_len n then ok none else rest

-- The text is copied into the array with its own length, which must be that of the place: a longer
-- text has the place cut, and not the text.
unfoldable pub deserialize_text : ℕ → Bytes → Parsed
deserialize_text input_len p =
    assert (leb 4 input_len)
    >> (let text_len = input_len - 4 in
        let kept = if leb utf8_text_max_count text_len then utf8_text_max_count else text_len in
        assert (leb (12 + text_len) (length p))
        >> (assert (kept == text_len)
            >> found (
                text (slice 12 (12 + text_len) p ++ replicate (utf8_text_max_count - kept) 0)
                  kept)))

unfoldable pub deserialize_touch : Bytes → Parsed
deserialize_touch p = do
  number ← read_u8 p 12
  valid_then (touch_event_type number) (λ event_type. do
    f13 ← read_u8 p 13
    f14 ← read_u16_le p 14
    f16 ← read_u32_le p 16
    f20 ← read_u32_le p 20
    f24 ← read_u32_le p 24
    f28 ← read_u32_le p 28
    f32 ← read_u32_le p 32
    f36 ← read_u32_le p 36
    found (touch event_type f13 f14 f16 f20 f24 f28 f32 f36))

unfoldable pub deserialize_pen : Bytes → Parsed
deserialize_pen p = do
  number ← read_u8 p 12
  valid_then (touch_event_type number) (λ event_type. do
    f13 ← read_u8 p 13
    f14 ← read_u8 p 14
    f15 ← read_u8 p 15
    f16 ← read_u32_le p 16
    f20 ← read_u32_le p 20
    f24 ← read_u32_le p 24
    f28 ← read_u16_le p 28
    f30 ← read_u8 p 30
    f31 ← read_u8 p 31
    f32 ← read_u32_le p 32
    f36 ← read_u32_le p 36
    found (pen event_type (tool_type f13) f14 f15 f16 f20 f24 f28 f30 f31 f32 f36))

unfoldable pub deserialize_controller_state : Bytes → Parsed
deserialize_controller_state p = do
  f12 ← read_u16_le p 12
  f14 ← read_u16_le p 14
  f16 ← read_u16_le p 16
  f18 ← read_u16_le p 18
  f20 ← read_u16_le p 20
  f22 ← read_u8 p 22
  f23 ← read_u8 p 23
  f24 ← read_u16_le p 24
  f26 ← read_u16_le p 26
  f28 ← read_u16_le p 28
  f30 ← read_u16_le p 30
  f32 ← read_u16_le p 32
  f34 ← read_u16_le p 34
  f36 ← read_u16_le p 36
  found (controller_state f12 f14 f16 f18 f20 f22 f23 f24 f26 f28 f30 f32 f34 f36)

unfoldable pub deserialize_controller_touch : Bytes → Parsed
deserialize_controller_touch p = do
  number ← read_u8 p 13
  valid_then (touch_event_type number) (λ event_type. do
    f12 ← read_u8 p 12
    f14 ← read_u8 p 14
    f15 ← read_u8 p 15
    f16 ← read_u32_le p 16
    f20 ← read_u32_le p 20
    f24 ← read_u32_le p 24
    f28 ← read_u32_le p 28
    found (controller_touch f12 event_type f14 f15 f16 f20 f24 f28))

-- The length that is asked for is that of the magic number alone, but the fields are read.
unfoldable pub deserialize_battery : ℕ → Bytes → Parsed
deserialize_battery input_len p = input_at_least 4 input_len (do
  f12 ← read_u8 p 12
  f13 ← read_u8 p 13
  f14 ← read_u8 p 14
  f15 ← read_u8 p 15
  found (controller_battery f12 (battery_state f13) f14 f15))

unfoldable pub deserialize_motion : Bytes → Parsed
deserialize_motion p = do
  number ← read_u8 p 13
  valid_then (motion_type number) (λ motion. do
    f12 ← read_u8 p 12
    f14 ← read_u8 p 14
    f15 ← read_u8 p 15
    f16 ← read_u32_le p 16
    f20 ← read_u32_le p 20
    f24 ← read_u32_le p 24
    found (controller_motion f12 motion f14 f15 f16 f20 f24))

abbrev pub deserialize_mouse_move_relative : ℕ → Bytes → Parsed
deserialize_mouse_move_relative n p =
    input_at_least 8 n
      (do f12 ← read_u16_be p 12; f14 ← read_u16_be p 14; found (mouse_move_relative f12 f14))

abbrev pub deserialize_mouse_move_absolute : ℕ → Bytes → Parsed
deserialize_mouse_move_absolute n p = input_at_least 14 n (do
  f12 ← read_u16_be p 12
  f14 ← read_u16_be p 14
  f16 ← read_u16_be p 16
  f18 ← read_u16_be p 18
  f20 ← read_u16_be p 20
  found (mouse_move_absolute f12 f14 f16 f18 f20))

abbrev pub deserialize_mouse_scroll : ℕ → Bytes → Parsed
deserialize_mouse_scroll n p = input_at_least 10 n (do
  f12 ← read_u16_be p 12
  f14 ← read_u16_be p 14
  f16 ← read_u16_le p 16
  found (mouse_scroll f12 f14 f16))

abbrev pub deserialize_mouse_horizontal_scroll : ℕ → Bytes → Parsed
deserialize_mouse_horizontal_scroll n p =
    input_at_least 6 n (do f12 ← read_u16_be p 12; found (mouse_horizontal_scroll f12))

abbrev pub deserialize_controller_arrival : ℕ → Bytes → Parsed
deserialize_controller_arrival n p = input_at_least 12 n (do
  f12 ← read_u8 p 12
  f13 ← read_u8 p 13
  f14 ← read_u16_le p 14
  f16 ← read_u32_le p 16
  found (controller_arrival f12 (controller_type f13) f14 f16))

abbrev pub deserialize_mouse_button : (magic : ℕ) → ℕ → Bytes → Parsed
deserialize_mouse_button magic n p =
    input_at_least 5 n
      (do f12 ← read_u8 p 12; valid (mouse_button_from f12) (mouse_button (magic == 8)))

abbrev pub deserialize_keyboard : (magic : ℕ) → ℕ → Bytes → Parsed
deserialize_keyboard magic n p = input_at_least 10 n (do
  f12 ← read_u8 p 12
  f13 ← read_u16_le p 13
  f15 ← read_u8 p 15
  f16 ← read_u16_le p 16
  found (keyboard (magic == 3) f12 f13 f15 f16))

unfoldable pub deserialize_input : ℕ → ℕ → Bytes → Parsed
deserialize_input n magic p =
    if magic == 7
    then deserialize_mouse_move_relative n p
    else if magic == 5
    then deserialize_mouse_move_absolute n p
    else if (magic == 8) || (magic == 9)
    then deserialize_mouse_button magic n p
    else if magic == 0xA
    then deserialize_mouse_scroll n p
    else if magic == 0x55000001
    then deserialize_mouse_horizontal_scroll n p
    else if (magic == 3) || (magic == 4)
    then deserialize_keyboard magic n p
    else if magic == 0x17
    then deserialize_text n p
    else if magic == 0x55000002
    then input_at_least 32 n (deserialize_touch p)
    else if magic == 0x55000004
    then deserialize_controller_arrival n p
    else if magic == 0xC
    then input_at_least 30 n (deserialize_controller_state p)
    else if magic == 0x55000005
    then input_at_least 24 n (deserialize_controller_touch p)
    else if magic == 0x55000007
    then deserialize_battery n p
    else if magic == 0x55000006
    then input_at_least 20 n (deserialize_motion p)
    else if magic == 0x55000003
    then input_at_least 32 n (deserialize_pen p)
    else ok none
