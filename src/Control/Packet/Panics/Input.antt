-- ===== src/Control/Packet/Panics/Input.antt =====
-- Input packets without a panic.
use moonlight_common_rust.Common.{
  ℕ, ◌+◌, ◌≤◌, ◌≡◌, refl, arith, false, none, Bytes, length, ◌==◌, ◌||◌,
}
use moonlight_common_rust.Control.Packet.Deserialize.Input.{
  input_at_least, deserialize_input, deserialize_touch, deserialize_pen, deserialize_motion,
  deserialize_controller_state, deserialize_controller_touch, deserialize_mouse_move_relative,
  deserialize_mouse_move_absolute, deserialize_mouse_scroll, deserialize_mouse_horizontal_scroll,
  deserialize_controller_arrival, deserialize_mouse_button, deserialize_keyboard,
}
use moonlight_common_rust.Control.Packet.Panics.Defined.{
  IsDefined, read-IsDefined, if-IsDefined, valid-IsDefined, valid_then-IsDefined, found-IsDefined,
  input-IsDefined,
}

-- The input packets, of which as many bytes are there as their length tells.
module _ (n : ℕ) (p : Bytes) (whole : 8 + n ≤ length p) where
  mouse_move_relative-IsDefined : IsDefined (deserialize_mouse_move_relative n p)
  mouse_move_relative-IsDefined = input-IsDefined 8 n (λ room.
      read-IsDefined p (12 + 2) _ _ (omega arith)
        (read-IsDefined p (14 + 2) _ _ (omega arith) (found-IsDefined _)))

  mouse_move_absolute-IsDefined : IsDefined (deserialize_mouse_move_absolute n p)
  mouse_move_absolute-IsDefined = input-IsDefined 14 n (λ room.
      read-IsDefined p (12 + 2) _ _ (omega arith) (
        read-IsDefined p (14 + 2) _ _ (omega arith) (
          read-IsDefined p (16 + 2) _ _ (omega arith) (
            read-IsDefined p (18 + 2) _ _ (omega arith)
              (read-IsDefined p (20 + 2) _ _ (omega arith) (found-IsDefined _))))))

  mouse_scroll-IsDefined : IsDefined (deserialize_mouse_scroll n p)
  mouse_scroll-IsDefined = input-IsDefined 10 n (λ room.
      read-IsDefined p (12 + 2) _ _ (omega arith) (
        read-IsDefined p (14 + 2) _ _ (omega arith)
          (read-IsDefined p (16 + 2) _ _ (omega arith) (found-IsDefined _))))

  mouse_horizontal_scroll-IsDefined : IsDefined (deserialize_mouse_horizontal_scroll n p)
  mouse_horizontal_scroll-IsDefined =
      input-IsDefined 6 n (λ room. read-IsDefined p (12 + 2) _ _ (omega arith) (found-IsDefined _))

  controller_arrival-IsDefined : IsDefined (deserialize_controller_arrival n p)
  controller_arrival-IsDefined = input-IsDefined 12 n (λ room.
      read-IsDefined p (12 + 1) _ _ (omega arith) (
        read-IsDefined p (13 + 1) _ _ (omega arith) (
          read-IsDefined p (14 + 2) _ _ (omega arith)
            (read-IsDefined p (16 + 4) _ _ (omega arith) (found-IsDefined _)))))

  mouse_button-IsDefined : (magic : ℕ) → IsDefined (deserialize_mouse_button magic n p)
  mouse_button-IsDefined magic =
      input-IsDefined 5 n
        (λ room. read-IsDefined p (12 + 1) _ _ (omega arith) (valid-IsDefined _ _))

  keyboard-IsDefined : (magic : ℕ) → IsDefined (deserialize_keyboard magic n p)
  keyboard-IsDefined magic = input-IsDefined 10 n (λ room.
      read-IsDefined p (12 + 1) _ _ (omega arith) (
        read-IsDefined p (13 + 2) _ _ (omega arith) (
          read-IsDefined p (15 + 1) _ _ (omega arith)
            (read-IsDefined p (16 + 2) _ _ (omega arith) (found-IsDefined _)))))

  touch-IsDefined : IsDefined (input_at_least 32 n (deserialize_touch p))
  unfolding deserialize_touch
  touch-IsDefined = input-IsDefined 32 n (λ room. read-IsDefined p (12 + 1) _ _ (omega arith) (
      valid_then-IsDefined _ (λ value. read-IsDefined p (13 + 1) _ _ (omega arith) (
        read-IsDefined p (14 + 2) _ _ (omega arith) (
          read-IsDefined p (16 + 4) _ _ (omega arith) (
            read-IsDefined p (20 + 4) _ _ (omega arith) (
              read-IsDefined p (24 + 4) _ _ (omega arith) (
                read-IsDefined p (28 + 4) _ _ (omega arith) (
                  read-IsDefined p (32 + 4) _ _ (omega arith)
                    (read-IsDefined p (36 + 4) _ _ (omega arith) (found-IsDefined _)))))))))))

  controller_state-IsDefined : IsDefined (input_at_least 30 n (deserialize_controller_state p))
  unfolding deserialize_controller_state
  controller_state-IsDefined = input-IsDefined 30 n (λ room.
      read-IsDefined p (12 + 2) _ _ (omega arith) (
        read-IsDefined p (14 + 2) _ _ (omega arith) (
          read-IsDefined p (16 + 2) _ _ (omega arith) (
            read-IsDefined p (18 + 2) _ _ (omega arith) (
              read-IsDefined p (20 + 2) _ _ (omega arith) (
                read-IsDefined p (22 + 1) _ _ (omega arith) (
                  read-IsDefined p (23 + 1) _ _ (omega arith) (
                    read-IsDefined p (24 + 2) _ _ (omega arith) (
                      read-IsDefined p (26 + 2) _ _ (omega arith) (
                        read-IsDefined p (28 + 2) _ _ (omega arith) (
                          read-IsDefined p (30 + 2) _ _ (omega arith) (
                            read-IsDefined p (32 + 2) _ _ (omega arith) (
                              read-IsDefined p (34 + 2) _ _ (omega arith) (
                                read-IsDefined p (36 + 2) _ _ (omega arith)
                                  (found-IsDefined _)))))))))))))))

  controller_touch-IsDefined : IsDefined (input_at_least 24 n (deserialize_controller_touch p))
  unfolding deserialize_controller_touch
  controller_touch-IsDefined = input-IsDefined 24 n (λ room.
      read-IsDefined p (13 + 1) _ _ (omega arith) (
        valid_then-IsDefined _ (λ value. read-IsDefined p (12 + 1) _ _ (omega arith) (
          read-IsDefined p (14 + 1) _ _ (omega arith) (
            read-IsDefined p (15 + 1) _ _ (omega arith) (
              read-IsDefined p (16 + 4) _ _ (omega arith) (
                read-IsDefined p (20 + 4) _ _ (omega arith) (
                  read-IsDefined p (24 + 4) _ _ (omega arith)
                    (read-IsDefined p (28 + 4) _ _ (omega arith) (found-IsDefined _))))))))))

  motion-IsDefined : IsDefined (input_at_least 20 n (deserialize_motion p))
  unfolding deserialize_motion
  motion-IsDefined = input-IsDefined 20 n (λ room. read-IsDefined p (13 + 1) _ _ (omega arith) (
      valid_then-IsDefined _ (λ value. read-IsDefined p (12 + 1) _ _ (omega arith) (
        read-IsDefined p (14 + 1) _ _ (omega arith) (
          read-IsDefined p (15 + 1) _ _ (omega arith) (
            read-IsDefined p (16 + 4) _ _ (omega arith) (
              read-IsDefined p (20 + 4) _ _ (omega arith)
                (read-IsDefined p (24 + 4) _ _ (omega arith) (found-IsDefined _)))))))))

  pen-IsDefined : IsDefined (input_at_least 32 n (deserialize_pen p))
  unfolding deserialize_pen
  pen-IsDefined = input-IsDefined 32 n (λ room. read-IsDefined p (12 + 1) _ _ (omega arith) (
      valid_then-IsDefined _ (λ value. read-IsDefined p (13 + 1) _ _ (omega arith) (
        read-IsDefined p (14 + 1) _ _ (omega arith) (
          read-IsDefined p (15 + 1) _ _ (omega arith) (
            read-IsDefined p (16 + 4) _ _ (omega arith) (
              read-IsDefined p (20 + 4) _ _ (omega arith) (
                read-IsDefined p (24 + 4) _ _ (omega arith) (
                  read-IsDefined p (28 + 2) _ _ (omega arith) (
                    read-IsDefined p (30 + 1) _ _ (omega arith) (
                      read-IsDefined p (31 + 1) _ _ (omega arith) (
                        read-IsDefined p (32 + 4) _ _ (omega arith) (
                          read-IsDefined p (36 + 4) _ _ (omega arith)
                            (found-IsDefined _))))))))))))))

  -- All input packets but text and the controller's battery.
  pub deserialize_input-IsDefined :
      (magic : ℕ)
      → (magic == 0x17) ≡ false
      → (magic == 0x55000007) ≡ false
      → IsDefined (deserialize_input n magic p)
  unfolding deserialize_input
  deserialize_input-IsDefined magic text battery =
      rw (text, battery)
        (if-IsDefined (magic == 7) (λ e. mouse_move_relative-IsDefined)
          (λ e.
            if-IsDefined (magic == 5) (λ e. mouse_move_absolute-IsDefined)
              (λ e.
                if-IsDefined ((magic == 8) || (magic == 9)) (λ e. mouse_button-IsDefined magic)
                  (λ e.
                    if-IsDefined (magic == 0xA) (λ e. mouse_scroll-IsDefined)
                      (λ e.
                        if-IsDefined (magic == 0x55000001) (λ e. mouse_horizontal_scroll-IsDefined)
                          (λ e.
                            if-IsDefined ((magic == 3) || (magic == 4))
                              (λ e. keyboard-IsDefined magic)
                              (λ e.
                                if-IsDefined (magic == 0x55000002) (λ e. touch-IsDefined)
                                  (λ e.
                                    if-IsDefined (magic == 0x55000004)
                                      (λ e. controller_arrival-IsDefined)
                                      (λ e.
                                        if-IsDefined (magic == 0xC)
                                          (λ e. controller_state-IsDefined)
                                          (λ e.
                                            if-IsDefined (magic == 0x55000005)
                                              (λ e. controller_touch-IsDefined)
                                              (λ e.
                                                if-IsDefined (magic == 0x55000006)
                                                  (λ e. motion-IsDefined)
                                                  (λ e.
                                                    if-IsDefined (magic == 0x55000003)
                                                      (λ e. pen-IsDefined)
                                                      (λ e. (none, refl))))))))))))))
