-- ===== src/Input/Examples.antt =====
-- The theorems on src/stream/proto/control/input_batcher.rs at concrete events. Values in place of f32
-- are natural numbers.
use moonlight_common_rust.Common.{
  ℕ, ◌≡◌, ◌≢◌, refl, arith, true, false, [], ◌∷◌, none, some, if◌then◌else◌, ◌==◌,
}
use moonlight_common_rust.Common.Int.{pos, negsuc, eq_ℤ}
use moonlight_common_rust.Input.{
  up, InputBatcher, keyboard, controller_connect, controller_disconnect, keyboard_packet,
  controller_arrival, same_action, clear_bit,
}
use moonlight_common_rust.Input.Keys.{key_down}
use moonlight_common_rust.Input.Batch.{batch_input, is_dirty, remove_batched_inputs, state_packet}
use moonlight_common_rust.Input.Batch.Laws.{
  connected, batch_input-keyboard, batch_input-controller_connect,
  batch_input-controller_disconnect, remove_batched_inputs_lem,
}

abbrev unit : ℕ → ℕ
unit n = n

abbrev batcher : InputBatcher
batcher = record {
  key_states =
      0 ∷ 0 ∷ 0 ∷ 0 ∷ 0 ∷ 0 ∷ 0 ∷ 0 ∷ 1 ∷ 0 ∷ 0 ∷ 0 ∷ 0 ∷ 0 ∷ 0 ∷ 0 ∷ 0 ∷ 0 ∷ 0 ∷ 0 ∷ 0 ∷ 0 ∷ 0 ∷ 0
      ∷ 0 ∷ 0 ∷ 0 ∷ 0 ∷ 0 ∷ 0 ∷ 0 ∷ 0 ∷ [];
  key_states_map = negsuc 4 ∷ [];
  mouse_delta_x = pos 3;
  mouse_delta_y = negsuc 1;
  mouse_absolute_x = pos 0;
  mouse_absolute_y = pos 0;
  mouse_absolute_reference_width = pos 0;
  mouse_absolute_reference_height = pos 0;
  mouse_scroll_x = pos 0;
  mouse_scroll_y = pos 120;
  gamepads = 5;
}

batch_input-keyboard_example :
    ((batch_input ℕ 0 unit pos batcher (keyboard up 0 (pos 65) 0)).1 ≡ (
      if same_action up (key_down batcher (pos 65))
      then none
      else some (keyboard_packet up 0 (pos 65) 0)))
    × (key_down (batch_input ℕ 0 unit pos batcher (keyboard up 0 (pos 65) 0)).0 (negsuc 4)
        ≡ (if eq_ℤ (pos 65) (negsuc 4) then up else key_down batcher (negsuc 4)))
batch_input-keyboard_example =
    batch_input-keyboard ℕ 0 unit pos batcher up 0 (pos 65) (negsuc 4) 0 refl

batch_input-controller_connect_example :
    ((batch_input ℕ 0 unit pos batcher (controller_connect 1 2 3 4)).1
      ≡ (if connected batcher 1 then none else some (controller_arrival 1 2 3 4)))
    × (connected (batch_input ℕ 0 unit pos batcher (controller_connect 1 2 3 4)).0 2
        ≡ (if 1 == 2 then true else connected batcher 2))
batch_input-controller_connect_example =
    batch_input-controller_connect ℕ 0 unit pos batcher 1 2 2 3 4 (omega arith)

batch_input-controller_disconnect_example :
    ((batch_input ℕ 0 unit pos batcher (controller_disconnect 2)).1 ≡ (
      if connected batcher 2
      then some (state_packet ℕ 0 unit pos (clear_bit 5 2) 2 0 0 0 0 0 0 0)
      else none))
    × (connected (batch_input ℕ 0 unit pos batcher (controller_disconnect 2)).0 0
        ≡ (if 2 == 0 then false else connected batcher 0))
batch_input-controller_disconnect_example =
    batch_input-controller_disconnect ℕ 0 unit pos batcher 2 0 (omega arith)

remove_batched_inputs_lem_example :
    (is_dirty (remove_batched_inputs ℕ 0 unit pos batcher).0 ≡ false)
    × ((remove_batched_inputs ℕ 0 unit pos batcher).0.key_states ≡ batcher.key_states)
    × ((remove_batched_inputs ℕ 0 unit pos batcher).0.key_states_map ≡ batcher.key_states_map)
    × ((remove_batched_inputs ℕ 0 unit pos batcher).0.gamepads ≡ batcher.gamepads)
    × (is_dirty batcher ≡ false → (remove_batched_inputs ℕ 0 unit pos batcher).1 ≡ [])
    × (is_dirty batcher ≡ true → (remove_batched_inputs ℕ 0 unit pos batcher).1 ≢ [])
remove_batched_inputs_lem_example = remove_batched_inputs_lem ℕ 0 unit pos batcher
