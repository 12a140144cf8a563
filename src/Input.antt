-- ===== src/Input.antt =====
-- src/stream/proto/control/input_batcher.rs: input events become control packets at once or are batched.
-- CompactKeyStates and ActiveGamepads are those of src/stream/control.rs. Flags, buttons and enums that
-- are only passed on are numbers; the f32 values are of a type `F`.
pub mod Keys
pub mod Batch
pub mod Examples
use moonlight_common_rust.Common.{
  ℕ, zero, suc, ◌+◌, ◌-◌, ◌*◌, ◌/◌, ◌%◌, ◌^◌, Bool, true, false, not, ◌&&◌, ◌||◌, List, [], ◌∷◌,
  ◌++◌, Option, none, some, Bytes, byte, set, replicate, retain, ltb, leb, ◌==◌, if◌then◌else◌,
}
use moonlight_common_rust.Common.Int.{ℤ, pos, negsuc, eq_ℤ}

pub data KeyAction : Type 0 where
  up down : KeyAction

-- `pressed` are the 32 bytes of CompactKeyStates.
unfoldable pub key_to_bit : ℤ → Option ℕ
key_to_bit (negsuc n) = none
key_to_bit (pos n) = if ltb 0 n && leb n 256 then some (n - 1) else none

-- A bit of a byte or of a mask, counted from the lowest: `mask & (1 << bit) != 0`, `mask | (1 << bit)`
-- and `mask & !(1 << bit)`.
unfoldable pub has_bit : ℕ → ℕ → Bool
has_bit mask zero = mask % 2 == 1
has_bit mask (suc bit) = has_bit (mask / 2) bit

unfoldable pub set_bit : ℕ → ℕ → ℕ
set_bit mask zero = mask / 2 * 2 + 1
set_bit mask (suc bit) = set_bit (mask / 2) bit * 2 + mask % 2

unfoldable pub clear_bit : ℕ → ℕ → ℕ
clear_bit mask zero = mask / 2 * 2
clear_bit mask (suc bit) = clear_bit (mask / 2) bit * 2 + mask % 2

abbrev pub key_action : Bool → KeyAction
key_action true = down
key_action false = up

unfoldable pub set_byte : ℕ → ℕ → KeyAction → ℕ
set_byte mask bit up = clear_bit mask bit
set_byte mask bit down = set_bit mask bit

unfoldable pub set_pressed : Bytes → ℤ → KeyAction → Bytes × Option KeyAction
set_pressed pressed key_code action = elim (key_to_bit key_code) [
  | none ↦ (pressed, none)
  | some bit ↦ (
    set pressed (bit / 8) (set_byte (byte pressed (bit / 8)) (bit % 8) action),
    some (key_action (has_bit (byte pressed (bit / 8)) (bit % 8))),
  )
]

unfoldable pub is_pressed : Bytes → ℤ → Option KeyAction
is_pressed pressed key_code = elim (key_to_bit key_code) [
  | none ↦ none
  | some bit ↦ some (key_action (has_bit (byte pressed (bit / 8)) (bit % 8)))
]

-- Is the key in the set of the keys that have no bit?
unfoldable pub contains_key : ℤ → List ℤ → Bool
contains_key key_code [] = false
contains_key key_code (k ∷ keys) = eq_ℤ k key_code || contains_key key_code keys

unfoldable pub remove_key : ℤ → List ℤ → List ℤ
remove_key key_code [] = []
remove_key key_code (k ∷ keys) =
    let rest = remove_key key_code keys in if eq_ℤ k key_code then rest else k ∷ rest

unfoldable pub insert_key : ℤ → List ℤ → List ℤ
insert_key key_code keys = if contains_key key_code keys then keys else key_code ∷ keys

pub record InputBatcher : Type 0 where
  pub key_states : Bytes
  pub key_states_map : List ℤ
  pub mouse_delta_x : ℤ
  pub mouse_delta_y : ℤ
  pub mouse_absolute_x : ℤ
  pub mouse_absolute_y : ℤ
  pub mouse_absolute_reference_width : ℤ
  pub mouse_absolute_reference_height : ℤ
  pub mouse_scroll_x : ℤ
  pub mouse_scroll_y : ℤ
  pub gamepads : ℕ

unfoldable pub store_key : KeyAction → ℤ → List ℤ → List ℤ
store_key up key_code keys = remove_key key_code keys
store_key down key_code keys = insert_key key_code keys

-- What the key was before.
unfoldable pub set_key_down : InputBatcher → ℤ → KeyAction → InputBatcher × KeyAction
set_key_down b key_code action =
    let stored = set_pressed b.key_states key_code action in
    elim stored.1 [
      | some old ↦ (record b { key_states = stored.0 }, old)
      | none ↦ (
        record b { key_states_map = store_key action key_code b.key_states_map },
        key_action (contains_key key_code b.key_states_map),
      )
    ]

unfoldable pub same_action : KeyAction → KeyAction → Bool
same_action up up = true
same_action down down = true
same_action _ _ = false

-- ActiveGamepads: the bit of a controller.
unfoldable pub from_id : ℕ → Option ℕ
from_id id = if leb 16 id then none else some id

-- `n as i16`, for the low 16 bits.
unfoldable pub as_i16 : ℕ → ℤ
as_i16 n = if ltb (n % 2 ^ 16) 32768 then pos (n % 2 ^ 16) else negsuc (65535 - n % 2 ^ 16)

module _ (F : Type 0) where
  pub data ClientInputEvent : Type 0 where
    keyboard : KeyAction → (flags : ℕ) → (key_code : ℤ) → (modifiers : ℕ) → ClientInputEvent
    mouse_move_relative : (delta_x delta_y : ℤ) → ClientInputEvent
    mouse_move_absolute : (x y reference_width reference_height : ℤ) → ClientInputEvent
    mouse_button : (action button : ℕ) → ClientInputEvent
    mouse_scroll_vertical : (scroll_y : ℤ) → ClientInputEvent
    mouse_scroll_horizontal : (scroll_x : ℤ) → ClientInputEvent
    controller_connect :
        (controller_number ty capabilities supported_buttons : ℕ) → ClientInputEvent
    controller_state :
        (controller_number pressed_buttons : ℕ)
        → (left_trigger right_trigger left_stick_x left_stick_y right_stick_x right_stick_y : F)
        → ClientInputEvent
    controller_disconnect : (controller_number : ℕ) → ClientInputEvent
    touch :
        (event_type : ℕ)
        → (rotation : Option ℕ) → (pointer_id : ℕ)
        → (x y pressure_or_distance contact_area_minor contact_area_major : F) → ClientInputEvent
    pen :
        (event_type tool_type buttons : ℕ)
        → (x y pressure_or_distance : F) → (rotation tilt : Option ℕ)
        → (contact_area_minor contact_area_major : F) → ClientInputEvent

  -- The packets that the batcher makes, with the source's fields in their order; fields that are
  -- always the same constant are left out.
  pub data ControlPacket : Type 0 where
    keyboard_packet : KeyAction → (flags : ℕ) → (key_code : ℤ) → (modifiers : ℕ) → ControlPacket
    mouse_move_relative_packet : (delta_x delta_y : ℤ) → ControlPacket
    mouse_move_absolute_packet : (x y unused reference_width reference_height : ℤ) → ControlPacket
    mouse_button_packet : (action button : ℕ) → ControlPacket
    mouse_scroll_packet : (scroll_amount_1 scroll_amount_2 : ℤ) → ControlPacket
    mouse_horizontal_scroll_packet : (scroll_amount : ℤ) → ControlPacket
    controller_arrival : (controller_number ty capabilities supported_buttons : ℕ) → ControlPacket
    controller_state_packet :
        (controller_number : ℤ)
        → (active_gamepad_mask : ℕ) → (button_flags : ℤ) → (left_trigger right_trigger : ℕ)
        → (left_stick_x left_stick_y right_stick_x right_stick_y : ℤ) → (button_flags_2 : ℤ)
        → ControlPacket
    touch_packet :
        (event_type rotation pointer_id : ℕ)
        → (x y pressure_or_distance contact_area_minor contact_area_major : F) → ControlPacket
    pen_packet :
        (event_type tool_type buttons : ℕ)
        → (x y pressure_or_distance : F) → (rotation tilt : ℕ)
        → (contact_area_minor contact_area_major : F) → ControlPacket
