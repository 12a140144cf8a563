-- ===== src/Input/Batch.antt =====
-- The batcher of src/stream/proto/control/input_batcher.rs: `convert_input`, `batch_input`,
-- `is_dirty` and `remove_batched_inputs`.
pub mod Laws
use moonlight_common_rust.Common.{
  ℕ, ◌/◌, ◌%◌, ◌^◌, Bool, true, false, not, ◌&&◌, ◌||◌, List, [], ◌∷◌, ◌++◌, Option, none, some,
  if◌then◌else◌, replicate,
}
use moonlight_common_rust.Common.Int.{ℤ, pos, is_zero, saturating_add_i16}
use moonlight_common_rust.Input.{
  KeyAction, InputBatcher, ClientInputEvent, ControlPacket, keyboard, mouse_move_relative,
  mouse_move_absolute, mouse_button, mouse_scroll_vertical, mouse_scroll_horizontal,
  controller_connect, controller_state, controller_disconnect, touch, pen, keyboard_packet,
  mouse_move_relative_packet, mouse_move_absolute_packet, mouse_button_packet, mouse_scroll_packet,
  mouse_horizontal_scroll_packet, controller_arrival, controller_state_packet, touch_packet,
  pen_packet, set_key_down, same_action, from_id, has_bit, set_bit, clear_bit, as_i16,
}

unfoldable pub new : InputBatcher
new = record {
  key_states = replicate 32 0;
  key_states_map = [];
  mouse_delta_x = pos 0;
  mouse_delta_y = pos 0;
  mouse_absolute_x = pos 0;
  mouse_absolute_y = pos 0;
  mouse_absolute_reference_width = pos 0;
  mouse_absolute_reference_height = pos 0;
  mouse_scroll_x = pos 0;
  mouse_scroll_y = pos 0;
  gamepads = 0;
}

unfoldable pub is_dirty : InputBatcher → Bool
is_dirty b =
    not (is_zero b.mouse_delta_x && is_zero b.mouse_delta_y)
    || (not (is_zero b.mouse_absolute_reference_width && is_zero b.mouse_absolute_reference_height)
        || not (is_zero b.mouse_scroll_x && is_zero b.mouse_scroll_y))

abbrev pub li_rot_unknown : ℕ
li_rot_unknown = 65535

abbrev pub li_tilt_unknown : ℕ
li_tilt_unknown = 255

abbrev pub unwrap_or : Option ℕ → ℕ → ℕ
unwrap_or none d = d
unwrap_or (some n) d = n

-- `f0` is 0.0; `unit` and `signed` are the clamped conversions of a trigger to u8 and of a stick to i16.
module _ (F : Type 0) (f0 : F) (unit : F → ℕ) (signed : F → ℤ) where
  unfoldable pub state_packet : ℕ → ℕ → ℕ → F → F → F → F → F → F → ControlPacket F
  state_packet mask controller_number buttons left_trigger right_trigger left_x left_y right_x
        right_y =
      controller_state_packet (pos controller_number) mask (as_i16 buttons) (unit left_trigger)
        (unit right_trigger) (signed left_x) (signed left_y) (signed right_x) (signed right_y)
        (as_i16 (buttons / 2 ^ 16))

  unfoldable pub convert_keyboard :
      InputBatcher → KeyAction → ℕ → ℤ → ℕ → InputBatcher × Option (ControlPacket F)
  convert_keyboard b action flags key_code modifiers =
      let r = set_key_down b key_code action in
      (
        r.0,
        if same_action action r.1
            then none
            else some (keyboard_packet action flags key_code modifiers),
      )

  unfoldable pub connect : InputBatcher → ℕ → ℕ → ℕ → ℕ → InputBatcher × Option (ControlPacket F)
  connect b controller_number ty capabilities supported_buttons = elim (from_id controller_number) [
    | none ↦ (b, none)
    | some c ↦ if has_bit b.gamepads c then (b, none) else (
      record b { gamepads = set_bit b.gamepads c },
      some (controller_arrival controller_number ty capabilities supported_buttons),
    )
  ]

  unfoldable pub disconnect : InputBatcher → ℕ → InputBatcher × Option (ControlPacket F)
  disconnect b controller_number = elim (from_id controller_number) [
    | none ↦ (b, none)
    | some c ↦ if not (has_bit b.gamepads c) then (b, none) else (
      record b { gamepads = clear_bit b.gamepads c },
      some (state_packet (clear_bit b.gamepads c) controller_number 0 f0 f0 f0 f0 f0 f0),
    )
  ]

  unfoldable pub send_state :
      InputBatcher → ℕ → ℕ → F → F → F → F → F → F → InputBatcher × Option (ControlPacket F)
  send_state b controller_number buttons lt rt lx ly rx ry = elim (from_id controller_number) [
    | none ↦ (b, none)
    | some c ↦
        if not (has_bit b.gamepads c)
        then (b, none)
        else (b, some (state_packet b.gamepads controller_number buttons lt rt lx ly rx ry))
  ]

  unfoldable pub convert_input :
      InputBatcher → ClientInputEvent F → InputBatcher × Option (ControlPacket F)
  convert_input b (keyboard action flags key_code modifiers) =
      convert_keyboard b action flags key_code modifiers
  convert_input b (mouse_move_relative dx dy) = (b, some (mouse_move_relative_packet dx dy))
  convert_input b (mouse_move_absolute x y w h) =
      (b, some (mouse_move_absolute_packet x y (pos 0) w h))
  convert_input b (mouse_button action button) = (b, some (mouse_button_packet action button))
  convert_input b (mouse_scroll_vertical y) = (b, some (mouse_scroll_packet y y))
  convert_input b (mouse_scroll_horizontal x) = (b, some (mouse_horizontal_scroll_packet x))
  convert_input b (controller_connect n ty capabilities buttons) =
      connect b n ty capabilities buttons
  convert_input b (controller_state n buttons lt rt lx ly rx ry) =
      send_state b n buttons lt rt lx ly rx ry
  convert_input b (controller_disconnect n) = disconnect b n
  convert_input b (touch event rotation pointer x y pressure minor major) = (
    b,
    some (touch_packet event (unwrap_or rotation li_rot_unknown) pointer x y pressure minor major),
  )
  convert_input b (pen event tool buttons x y pressure rotation tilt minor major) = (
    b,
    some (
        pen_packet event tool buttons x y pressure (unwrap_or rotation li_rot_unknown)
          (unwrap_or tilt li_tilt_unknown) minor major),
  )

  unfoldable pub batch_input :
      InputBatcher → ClientInputEvent F → InputBatcher × Option (ControlPacket F)
  batch_input b (mouse_move_relative dx dy) = (
    record b {
      mouse_delta_x = saturating_add_i16 b.mouse_delta_x dx;
      mouse_delta_y = saturating_add_i16 b.mouse_delta_y dy;
    },
    none,
  )
  batch_input b (mouse_move_absolute x y w h) = (
    record b {
      mouse_absolute_x = x;
      mouse_absolute_y = y;
      mouse_absolute_reference_width = w;
      mouse_absolute_reference_height = h;
    },
    none,
  )
  batch_input b (mouse_scroll_vertical y) =
      (record b { mouse_scroll_y = saturating_add_i16 b.mouse_scroll_y y }, none)
  batch_input b (mouse_scroll_horizontal x) =
      (record b { mouse_scroll_x = saturating_add_i16 b.mouse_scroll_x x }, none)
  batch_input b e = convert_input b e

  unfoldable pub relative_packets : InputBatcher → List (ControlPacket F)
  relative_packets b =
      if is_zero b.mouse_delta_x && is_zero b.mouse_delta_y
      then []
      else mouse_move_relative_packet b.mouse_delta_x b.mouse_delta_y ∷ []

  unfoldable pub absolute_packets : InputBatcher → List (ControlPacket F)
  absolute_packets b =
      if is_zero b.mouse_absolute_reference_width && is_zero b.mouse_absolute_reference_height
      then []
      else mouse_move_absolute_packet b.mouse_absolute_x b.mouse_absolute_y (pos 0)
          b.mouse_absolute_reference_width b.mouse_absolute_reference_height
        ∷ []

  unfoldable pub scroll_packets : InputBatcher → List (ControlPacket F)
  scroll_packets b =
      (if is_zero b.mouse_scroll_x
        then []
        else mouse_horizontal_scroll_packet b.mouse_scroll_x ∷ [])
      ++ (if is_zero b.mouse_scroll_y
          then []
          else mouse_scroll_packet b.mouse_scroll_y (pos 0) ∷ [])

  -- A value that is zero is as good as reset, so all are.
  unfoldable pub remove_batched_inputs : InputBatcher → InputBatcher × List (ControlPacket F)
  remove_batched_inputs b = (
    record b {
      mouse_delta_x = pos 0;
      mouse_delta_y = pos 0;
      mouse_absolute_reference_width = pos 0;
      mouse_absolute_reference_height = pos 0;
      mouse_scroll_x = pos 0;
      mouse_scroll_y = pos 0;
    },
    relative_packets b ++ (absolute_packets b ++ scroll_packets b),
  )
