-- ===== src/Control/Packet/RoundTrip/Input.antt =====
-- Input packets that are read back.
use moonlight_common_rust.Common.{
  ℕ, ◌+◌, ◌-◌, ◌/◌, ◌%◌, ◌^◌, ◌≤◌, ◌≡◌, refl, arith, Bool, true, false, replicate, ◌==◌,
  if◌then◌else◌, u16_from_le, length-take, Bytes, ◌++◌, length, take, u32_to_le, u32_to_be,
  take_all, drop-append, length-append, ltb, leb,
}
use moonlight_common_rust.Control.Config.{ControlPacketConfig, input_data, serialize_ty}
use moonlight_common_rust.Control.Config.Types.{ReadsBack}
use moonlight_common_rust.Control.Packet.{
  ty, mouse_move_relative, mouse_move_absolute, mouse_button, keyboard, text, mouse_scroll,
  mouse_horizontal_scroll, touch, pen, controller_state, controller_arrival, controller_motion,
  controller_battery, controller_touch, utf8_text_max_count,
}
use moonlight_common_rust.Control.Packet.Serialize.{serialize}
use moonlight_common_rust.Control.Packet.Serialize.Parts.{packet, at_least_5}
use moonlight_common_rust.Control.Packet.Deserialize.{deserialize_content}
use moonlight_common_rust.Control.Packet.Deserialize.Input.{
  deserialize_input, deserialize_touch, deserialize_pen, deserialize_battery, deserialize_motion,
  deserialize_controller_state, deserialize_controller_touch, deserialize_text,
}
use moonlight_common_rust.Control.Packet.Deserialize.Fields.{found}
use moonlight_common_rust.Control.Packet.RoundTrip.Ranges.{Fits}
use moonlight_common_rust.Control.Packet.RoundTrip.Fields.{
  u16_le, u16_be, u32_le, u32_be, from_range_lem, deserialize-optional,
}
use moonlight_common_rust.Control.Packet.RoundTrip.Plain.{ComesBack}

pub mouse_move_absolute-ComesBack :
    (c : ControlPacketConfig) (x y u w h : ℕ)
    → ReadsBack c
    → Fits c (mouse_move_absolute x y u w h)
    → ComesBack c (mouse_move_absolute x y u w h)
unfolding serialize serialize_ty ty deserialize_content Fits deserialize_input
mouse_move_absolute-ComesBack c x y u w h back (hx, hy, hu, hw, hh) bytes written =
    deserialize-optional c input_data 18 _ (mouse_move_absolute x y u w h) back (omega arith) refl
      (λ id. rw (u16_be x hx, u16_be y hy, u16_be u hu, u16_be w hw, u16_be h hh)) written

pub mouse_horizontal_scroll-ComesBack :
    (c : ControlPacketConfig) (a : ℕ)
    → ReadsBack c
    → Fits c (mouse_horizontal_scroll a)
    → ComesBack c (mouse_horizontal_scroll a)
unfolding serialize serialize_ty ty deserialize_content Fits deserialize_input
mouse_horizontal_scroll-ComesBack c a back ha bytes written =
    deserialize-optional c input_data 10 _ (mouse_horizontal_scroll a) back (omega arith) refl
      (λ id. rw (u16_be a ha)) written

pub controller_arrival-ComesBack :
    (c : ControlPacketConfig) (a b d e : ℕ)
    → ReadsBack c
    → Fits c (controller_arrival a b d e)
    → ComesBack c (controller_arrival a b d e)
unfolding serialize serialize_ty ty deserialize_content Fits deserialize_input
controller_arrival-ComesBack c a b d e back (hb, hd, he) bytes written =
    deserialize-optional c input_data 16 _ (controller_arrival a b d e) back (omega arith) refl
      (λ id. rw (from_range_lem 0 4 b hb, u16_le d hd, u32_le e he)) written

pub controller_state-ComesBack :
    (c : ControlPacketConfig) (a b d e f l r g h i j k m n : ℕ)
    → ReadsBack c
    → Fits c (controller_state a b d e f l r g h i j k m n)
    → ComesBack c (controller_state a b d e f l r g h i j k m n)
unfolding serialize serialize_ty ty deserialize_content Fits deserialize_input
    deserialize_controller_state
controller_state-ComesBack c a b d e f l r g h i j k m n back
      (ha, hb, hd, he, hf, hg, hh, hi, hj, hk, hm, hn) bytes written =
    deserialize-optional c input_data 34 _ (controller_state a b d e f l r g h i j k m n) back
      (omega arith) refl
      (λ id. rw (
        u16_le a ha,
        u16_le b hb,
        u16_le d hd,
        u16_le e he,
        u16_le f hf,
        u16_le g hg,
        u16_le h hh,
        u16_le i hi,
        u16_le j hj,
        u16_le k hk,
        u16_le m hm,
        u16_le n hn,
      ))
      written

pub controller_touch-ComesBack :
    (c : ControlPacketConfig) (a e p q i x y z : ℕ)
    → ReadsBack c
    → Fits c (controller_touch a e p q i x y z)
    → ComesBack c (controller_touch a e p q i x y z)
unfolding serialize serialize_ty ty deserialize_content Fits deserialize_input
    deserialize_controller_touch
controller_touch-ComesBack c a e p q i x y z back (he, hi, hx, hy, hz) bytes written =
    deserialize-optional c input_data 28 _ (controller_touch a e p q i x y z) back (omega arith)
      refl (λ id. rw (from_range_lem 0 7 e he, u32_le i hi, u32_le x hx, u32_le y hy, u32_le z hz))
      written

pub controller_battery-ComesBack :
    (c : ControlPacketConfig) (a b d e : ℕ)
    → ReadsBack c
    → Fits c (controller_battery a b d e)
    → ComesBack c (controller_battery a b d e)
unfolding serialize serialize_ty ty deserialize_content Fits deserialize_input deserialize_battery
controller_battery-ComesBack c a b d e back hb bytes written =
    deserialize-optional c input_data 12 _ (controller_battery a b d e) back (omega arith) refl
      (λ id. rw (from_range_lem 0 5 b hb)) written

pub controller_motion-ComesBack :
    (c : ControlPacketConfig) (a m r s x y z : ℕ)
    → ReadsBack c
    → Fits c (controller_motion a m r s x y z)
    → ComesBack c (controller_motion a m r s x y z)
unfolding serialize serialize_ty ty deserialize_content Fits deserialize_input deserialize_motion
controller_motion-ComesBack c a m r s x y z back (hm, hx, hy, hz) bytes written =
    deserialize-optional c input_data 24 _ (controller_motion a m r s x y z) back (omega arith) refl
      (λ id. rw (from_range_lem 1 2 m hm, u32_le x hx, u32_le y hy, u32_le z hz)) written

pub touch-ComesBack :
    (c : ControlPacketConfig) (e r o i x y p m n : ℕ)
    → ReadsBack c
    → Fits c (touch e r o i x y p m n)
    → ComesBack c (touch e r o i x y p m n)
unfolding serialize serialize_ty ty deserialize_content Fits deserialize_input deserialize_touch
touch-ComesBack c e r o i x y p m n back (he, ho, hi, hx, hy, hp, hm, hn) bytes written =
    deserialize-optional c input_data 36 _ (touch e r o i x y p m n) back (omega arith) refl
      (λ id. rw (
        from_range_lem 0 7 e he,
        u16_le o ho,
        u32_le i hi,
        u32_le x hx,
        u32_le y hy,
        u32_le p hp,
        u32_le m hm,
        u32_le n hn,
      ))
      written

pub pen-ComesBack :
    (c : ControlPacketConfig) (e t u w x y p o l v m n : ℕ)
    → ReadsBack c
    → Fits c (pen e t u w x y p o l v m n)
    → ComesBack c (pen e t u w x y p o l v m n)
unfolding serialize serialize_ty ty deserialize_content Fits deserialize_input deserialize_pen
pen-ComesBack c e t u w x y p o l v m n back (he, ht, hx, hy, hp, ho, hm, hn) bytes written =
    deserialize-optional c input_data 36 _ (pen e t u w x y p o l v m n) back (omega arith) refl
      (λ id. rw (
        from_range_lem 0 7 e he,
        from_range_lem 0 2 t ht,
        u32_le x hx,
        u32_le y hy,
        u32_le p hp,
        u16_le o ho,
        u32_le m hm,
        u32_le n hn,
      ))
      written

pub mouse_move_relative-ComesBack :
    (c : ControlPacketConfig) (x y : ℕ)
    → ReadsBack c
    → at_least_5 c.server_version.major ≡ true
    → Fits c (mouse_move_relative x y)
    → ComesBack c (mouse_move_relative x y)
unfolding serialize serialize_ty ty deserialize_content deserialize_input Fits
mouse_move_relative-ComesBack c x y back recent (hx, hy) bytes written =
    deserialize-optional c input_data 12 _ (mouse_move_relative x y) back (omega arith) refl
      (λ id. rw (u16_be x hx, u16_be y hy)) (rw recent at written)

pub mouse_button-ComesBack :
    (c : ControlPacketConfig) (press : Bool) (b : ℕ)
    → ReadsBack c
    → Fits c (mouse_button press b)
    → ComesBack c (mouse_button press b)
unfolding serialize serialize_ty ty deserialize_content deserialize_input Fits
mouse_button-ComesBack c true b back fits bytes written =
    deserialize-optional c input_data 9 _ (mouse_button true b) back (omega arith) refl
      (λ id. rw (from_range_lem 1 5 b fits)) written
mouse_button-ComesBack c false b back fits bytes written =
    deserialize-optional c input_data 9 _ (mouse_button false b) back (omega arith) refl
      (λ id. rw (from_range_lem 1 5 b fits)) written

pub keyboard-ComesBack :
    (c : ControlPacketConfig) (down : Bool) (f k m p : ℕ)
    → ReadsBack c
    → Fits c (keyboard down f k m p)
    → ComesBack c (keyboard down f k m p)
unfolding serialize serialize_ty ty deserialize_content deserialize_input Fits
keyboard-ComesBack c true f k m p back (hk, hp) bytes written =
    deserialize-optional c input_data 14 _ (keyboard true f k m p) back (omega arith) refl
      (λ id. rw (u16_le k hk, u16_le p hp)) written
keyboard-ComesBack c false f k m p back (hk, hp) bytes written =
    deserialize-optional c input_data 14 _ (keyboard false f k m p) back (omega arith) refl
      (λ id. rw (u16_le k hk, u16_le p hp)) written

pub mouse_scroll-ComesBack :
    (c : ControlPacketConfig) (a b p : ℕ)
    → ReadsBack c
    → Fits c (mouse_scroll a b p)
    → ComesBack c (mouse_scroll a b p)
unfolding serialize serialize_ty ty deserialize_content deserialize_input Fits
mouse_scroll-ComesBack c a b p back (ha, hb, hp, even) bytes written =
    let swapped : u16_from_le (p / 2 ^ 8 % 2 ^ 8) (p % 2 ^ 8) ≡ p = omega arith in
    deserialize-optional c input_data 14 _ (mouse_scroll a b p) back (omega arith) refl
      (λ id. rw (u16_be a ha, u16_be b hb, swapped)) written

text_kept : (n : ℕ) → n ≤ 32 → (if leb 32 n then 32 else n) ≡ n
text_kept n h = ground arith

-- A text of at most 32 bytes behind the first 12 of the packet.
deserialize_text_lem :
    (head t : Bytes) (n : ℕ)
    → length head ≡ 12
    → length t ≡ n
    → n ≤ utf8_text_max_count
    → deserialize_text (4 + n) (head ++ t)
      ≡ found (text (t ++ replicate (utf8_text_max_count - n) 0) n)
unfolding deserialize_text
deserialize_text_lem head t n hh ht hn =
    let e1 : leb 4 (4 + n) ≡ true = ground arith in
    let e2 : 4 + n - 4 ≡ n = omega arith in
    let e3 : leb (12 + n) (length (head ++ t)) ≡ true = ground (arith, length-append head t) in
    let e4 : (n == n) ≡ true = ground arith in
    let e5 : 12 + n - 12 ≡ n = omega arith in
    rw (e1, e2, e3, text_kept n hn, e4, e5, drop-append head t 12 hh, take_all n t (omega arith))

pub text-ComesBack :
    (c : ControlPacketConfig) (t : Bytes) (n : ℕ)
    → ReadsBack c
    → Fits c (text t n)
    → ComesBack c (text t n)
unfolding serialize serialize_ty ty deserialize_content deserialize_input Fits
text-ComesBack c t n back (ht, hn, padded) bytes written =
    let room : ltb (length t) n ≡ false = ground arith in
    let whole : length (take n t) ≡ n = omega (arith, length-take n t) in
    deserialize-optional c input_data (4 + (4 + n))
      (u32_to_be (4 + n) ++ (u32_to_le 0x17 ++ take n t)) (text t n) back (omega arith)
      (omega arith)
      (λ id.
        let p = packet id (4 + (4 + n)) (u32_to_be (4 + n) ++ (u32_to_le 0x17 ++ take n t)) in
        let e1 : ltb (length p) 12 ≡ false = ground arith in
        let e2 : ltb (length p) (8 + (4 + n)) ≡ false = ground arith in
        let r1 : leb (4 + 4) (length p) ≡ true = ground arith in
        let r2 : leb (8 + 4) (length p) ≡ true = ground arith in
        rw (e1, u32_be (4 + n) (omega arith), r1, r2, e2)
          (rw (deserialize_text_lem (take 12 p) (take n t) n refl whole hn, padded)))
      (rw room at written)
