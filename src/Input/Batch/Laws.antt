-- ===== src/Input/Batch/Laws.antt =====
-- What the batcher sends, and what it leaves.
use moonlight_common_rust.Common.{
  ℕ, ◌<◌, ◌≡◌, ◌≢◌, refl, arith, Bool, true, false, [], none, some, length, ◌==◌, if◌then◌else◌,
}
use moonlight_common_rust.Common.Int.{ℤ, eq_ℤ}
use moonlight_common_rust.Input.{
  KeyAction, InputBatcher, keyboard, controller_connect, controller_disconnect, keyboard_packet,
  controller_arrival, same_action, from_id, has_bit, clear_bit,
}
use moonlight_common_rust.Input.Keys.{
  key_down, set_key_down_lem, has_bit-set_bit, has_bit-clear_bit,
}
use moonlight_common_rust.Input.Batch.{
  batch_input, convert_input, convert_keyboard, connect, disconnect, state_packet, is_dirty,
  remove_batched_inputs, relative_packets, absolute_packets, scroll_packets,
}

-- Is the controller connected? Numbers from 16 on never are.
unfoldable pub connected : InputBatcher → ℕ → Bool
connected b controller_number = elim (from_id controller_number) [
  | none ↦ false
  | some c ↦ has_bit b.gamepads c
]

module _ (F : Type 0) (f0 : F) (unit : F → ℕ) (signed : F → ℤ) where
  -- With the 32 bytes of key states: a keyboard event makes a packet exactly if it changes the state of its key,
  -- a packet with the event's own fields; after it that key is as the event says, and every other key
  -- as before.
  pub batch_input-keyboard :
      (b : InputBatcher) (action : KeyAction) (flags : ℕ) (key other : ℤ) (modifiers : ℕ)
      → length b.key_states ≡ 32
      → ((batch_input F f0 unit signed b (keyboard action flags key modifiers)).1 ≡ (
          if same_action action (key_down b key)
          then none
          else some (keyboard_packet action flags key modifiers)))
        × (key_down (batch_input F f0 unit signed b (keyboard action flags key modifiers)).0 other
            ≡ (if eq_ℤ key other then action else key_down b other))
  unfolding batch_input convert_input convert_keyboard
  batch_input-keyboard b action flags key other modifiers len =
      let (old, now) = set_key_down_lem b key other action len in (rw old, now)

  -- For a controller number below 16: a connect event makes a packet exactly if the controller was not
  -- connected, and after it that controller is connected, and every other one as before.
  pub batch_input-controller_connect :
      (b : InputBatcher) (n other ty capabilities buttons : ℕ)
      → n < 16
      → ((batch_input F f0 unit signed b (controller_connect n ty capabilities buttons)).1
          ≡ (if connected b n then none else some (controller_arrival n ty capabilities buttons)))
        × (connected
              (batch_input F f0 unit signed b (controller_connect n ty capabilities buttons)).0
              other
            ≡ (if n == other then true else connected b other))
  unfolding batch_input convert_input connect connected from_id
  batch_input-controller_connect b n other ty capabilities buttons small =
      (ground arith, ground (arith, has_bit-set_bit b.gamepads n other))

  -- For a controller number below 16: a disconnect event makes a packet exactly if the controller was connected, and
  -- after it that controller is not connected, and every other one is as before. The packet has the mask without
  -- the controller.
  pub batch_input-controller_disconnect :
      (b : InputBatcher) (n other : ℕ)
      → n < 16
      → ((batch_input F f0 unit signed b (controller_disconnect n)).1 ≡ (
          if connected b n
          then some (state_packet F f0 unit signed (clear_bit b.gamepads n) n 0 f0 f0 f0 f0 f0 f0)
          else none))
        × (connected (batch_input F f0 unit signed b (controller_disconnect n)).0 other
            ≡ (if n == other then false else connected b other))
  unfolding batch_input convert_input disconnect connected from_id
  batch_input-controller_disconnect b n other small =
      (ground arith, ground (arith, has_bit-clear_bit b.gamepads n other))

  -- Taking the batched inputs leaves a batcher that is not dirty, with the same keys and the same controllers,
  -- and it gives at least one packet exactly if the batcher was dirty.
  pub remove_batched_inputs_lem :
      (b : InputBatcher)
      → (is_dirty (remove_batched_inputs F f0 unit signed b).0 ≡ false)
        × ((remove_batched_inputs F f0 unit signed b).0.key_states ≡ b.key_states)
        × ((remove_batched_inputs F f0 unit signed b).0.key_states_map ≡ b.key_states_map)
        × ((remove_batched_inputs F f0 unit signed b).0.gamepads ≡ b.gamepads)
        × (is_dirty b ≡ false → (remove_batched_inputs F f0 unit signed b).1 ≡ [])
        × (is_dirty b ≡ true → (remove_batched_inputs F f0 unit signed b).1 ≢ [])
  unfolding is_dirty remove_batched_inputs relative_packets absolute_packets scroll_packets
  remove_batched_inputs_lem b =
      (refl, refl, refl, refl, λ clean. ground arith, λ dirty. λ e. ground arith)
