-- ===== src/Control/Packet/RoundTrip/Plain.antt =====
-- Packets but input that are read back.
use moonlight_common_rust.Common.{
  ℕ, ◌≡◌, refl, ap, arith, Bool, true, false, Bool-cases, inl, inr, Option, none, some, Bytes, [],
  ◌∷◌, ◌++◌, length, u16_to_le, u16_to_be, take_all, take-append, drop-append, length-append,
}
use moonlight_common_rust.Common.Int.{pos, eq_ℤ}
use moonlight_common_rust.Control.Config.{
  ControlPacketConfig, periodic_ping, request_idr, start_b, invalidate_reference_frames,
  long_term_reference_frame_acknowledgement, loss_stats, frame_stats, controller_rumble_data,
  termination, hdr_mode, frame_fec, controller_rumble_triggers, controller_set_motion,
  controller_set_led, controller_set_adaptive_triggers, web_state, direction, serialize_ty,
}
use moonlight_common_rust.Control.Config.Types.{ReadsBack}
use moonlight_common_rust.Control.Packet.{
  ControlPacket, ty, TerminationReason, long, short, SunshineHdrMetadata, rumble_data,
  rumble_triggers, set_motion, set_led, set_adaptive_triggers, idr_request, start_b_packet, ping,
  hdr, loss, frame_statistics, fec_status, invalidate_frames, long_term_reference_acknowledgement,
  server_termination, web_state_packet,
}
use moonlight_common_rust.Control.Packet.Serialize.{serialize}
use moonlight_common_rust.Control.Packet.Serialize.Parts.{
  serialize_hdr, serialize_metadata, serialize_primary, serialize_termination, u64_to_le,
}
use moonlight_common_rust.Control.Packet.Deserialize.{deserialize, deserialize_content}
use moonlight_common_rust.Control.Packet.Deserialize.Parts.{
  metadata, deserialize_hdr, termination_of,
}
use moonlight_common_rust.Control.Packet.Deserialize.Fields.{found}
use moonlight_common_rust.Control.Packet.RoundTrip.Ranges.{Fits, MetadataFits}
use moonlight_common_rust.Control.Packet.RoundTrip.Fields.{
  u16_le, u16_be, u32_le, u32_be, u64_le, from_range_lem, deserialize-optional,
}

-- The packet is read back as it was written, if it is written at all.
abbrev pub ComesBack : ControlPacketConfig → ControlPacket → Type 0
ComesBack c p =
    (bytes : Bytes) → serialize c p ≡ some bytes → deserialize (direction (ty p)) c bytes ≡ found p

pub ping-ComesBack : (c : ControlPacketConfig) → ReadsBack c → Fits c ping → ComesBack c ping
unfolding serialize serialize_ty ty deserialize_content Fits
ping-ComesBack c back fits bytes written =
    deserialize-optional c periodic_ping 4 _ ping back (omega arith) refl (λ id. refl) written

pub idr_request-ComesBack :
    (c : ControlPacketConfig) → ReadsBack c → Fits c idr_request → ComesBack c idr_request
unfolding serialize serialize_ty ty deserialize_content Fits
idr_request-ComesBack c back fits bytes written =
    deserialize-optional c request_idr 2 _ idr_request back (omega arith) refl (λ id. refl) written

pub frame_statistics-ComesBack :
    (c : ControlPacketConfig) → ReadsBack c → Fits c frame_statistics → ComesBack c frame_statistics
unfolding serialize serialize_ty ty deserialize_content Fits
frame_statistics-ComesBack c back fits bytes written =
    deserialize-optional c frame_stats 0 _ frame_statistics back (omega arith) refl (λ id. refl)
      written

pub rumble_data-ComesBack :
    (c : ControlPacketConfig) (a b d e : ℕ)
    → ReadsBack c
    → Fits c (rumble_data a b d e)
    → ComesBack c (rumble_data a b d e)
unfolding serialize serialize_ty ty deserialize_content Fits
rumble_data-ComesBack c a b d e back (ha, hb, hd, he) bytes written =
    deserialize-optional c controller_rumble_data 10 _ (rumble_data a b d e) back (omega arith) refl
      (λ id. rw (u32_le a ha, u16_le b hb, u16_le d hd, u16_le e he)) written

pub rumble_triggers-ComesBack :
    (c : ControlPacketConfig) (a b d : ℕ)
    → ReadsBack c
    → Fits c (rumble_triggers a b d)
    → ComesBack c (rumble_triggers a b d)
unfolding serialize serialize_ty ty deserialize_content Fits
rumble_triggers-ComesBack c a b d back (ha, hb, hd) bytes written =
    deserialize-optional c controller_rumble_triggers 6 _ (rumble_triggers a b d) back (omega arith)
      refl (λ id. rw (u16_le a ha, u16_le b hb, u16_le d hd)) written

pub set_motion-ComesBack :
    (c : ControlPacketConfig) (a b d : ℕ)
    → ReadsBack c
    → Fits c (set_motion a b d)
    → ComesBack c (set_motion a b d)
unfolding serialize serialize_ty ty deserialize_content Fits
set_motion-ComesBack c a b d back (ha, hb, hd) bytes written =
    deserialize-optional c controller_set_motion 5 _ (set_motion a b d) back (omega arith) refl
      (λ id. rw (u16_le a ha, u16_le b hb, from_range_lem 1 2 d hd)) written

pub set_led-ComesBack :
    (c : ControlPacketConfig) (a b d e : ℕ)
    → ReadsBack c
    → Fits c (set_led a b d e)
    → ComesBack c (set_led a b d e)
unfolding serialize serialize_ty ty deserialize_content Fits
set_led-ComesBack c a b d e back ha bytes written =
    deserialize-optional c controller_set_led 5 _ (set_led a b d e) back (omega arith) refl
      (λ id. rw (u16_le a ha)) written

pub loss-ComesBack :
    (c : ControlPacketConfig) (a b d l e f g : ℕ)
    → ReadsBack c
    → Fits c (loss a b d l e f g)
    → ComesBack c (loss a b d l e f g)
unfolding serialize serialize_ty ty deserialize_content Fits u64_to_le
loss-ComesBack c a b d l e f g back (ha, hb, hd, hl, he, hf, hg) bytes written =
    deserialize-optional c loss_stats 32 _ (loss a b d l e f g) back (omega arith) refl
      (λ id.
        rw (
          u32_le a ha,
          u32_le b hb,
          u32_le d hd,
          u64_le l hl,
          u32_le e he,
          u32_le f hf,
          u32_le g hg,
        ))
      written

pub fec_status-ComesBack :
    (c : ControlPacketConfig) (a b d e f g h i j k l : ℕ)
    → ReadsBack c
    → Fits c (fec_status a b d e f g h i j k l)
    → ComesBack c (fec_status a b d e f g h i j k l)
unfolding serialize serialize_ty ty deserialize_content Fits
fec_status-ComesBack c a b d e f g h i j k l back (ha, hb, hd, he, hf, hg, hh, hi) bytes written =
    deserialize-optional c frame_fec 21 _ (fec_status a b d e f g h i j k l) back (omega arith) refl
      (λ id. rw (
        u32_be a ha,
        u16_be b hb,
        u16_be d hd,
        u16_be e he,
        u16_be f hf,
        u16_be g hg,
        u16_be h hh,
        u16_be i hi,
      ))
      written

pub invalidate_frames-ComesBack :
    (c : ControlPacketConfig) (a b d e f g : ℕ)
    → ReadsBack c
    → Fits c (invalidate_frames a b d e f g)
    → ComesBack c (invalidate_frames a b d e f g)
unfolding serialize serialize_ty ty deserialize_content Fits
invalidate_frames-ComesBack c a b d e f g back (ha, hb, hd, he, hf, hg) bytes written =
    deserialize-optional c invalidate_reference_frames 24 _ (invalidate_frames a b d e f g) back
      (omega arith) refl
      (λ id. rw (u32_le a ha, u32_le b hb, u32_le d hd, u32_le e he, u32_le f hf, u32_le g hg))
      written

pub long_term_reference_acknowledgement-ComesBack :
    (c : ControlPacketConfig) (a b : ℕ)
    → ReadsBack c
    → Fits c (long_term_reference_acknowledgement a b)
    → ComesBack c (long_term_reference_acknowledgement a b)
unfolding serialize serialize_ty ty deserialize_content Fits
long_term_reference_acknowledgement-ComesBack c a b back (ha, hb) bytes written =
    deserialize-optional c long_term_reference_frame_acknowledgement 8 _
      (long_term_reference_acknowledgement a b) back (omega arith) refl
      (λ id. rw (u32_le a ha, u32_le b hb)) written

pub start_b_packet-ComesBack : (c : ControlPacketConfig) → ReadsBack c → ComesBack c start_b_packet
unfolding serialize serialize_ty ty deserialize_content
start_b_packet-ComesBack c back bytes written =
    elim (Bool-cases (eq_ℤ c.server_version.major (pos 3))) [
      | inl e ↦
          deserialize-optional c start_b 4 (0 ∷ 0 ∷ 0 ∷ 0xa ∷ []) start_b_packet back (omega arith)
            refl (λ id. refl) (rw e at written)
      | inr e ↦
          deserialize-optional c start_b 1 (0 ∷ []) start_b_packet back (omega arith) refl
            (λ id. refl) (rw e at written)
    ]

-- The nine numbers and pairs of the HDR metadata, from behind the packet's first five bytes.
metadata_lem :
    (a b d e f : ℕ) (m : SunshineHdrMetadata)
    → MetadataFits m
    → metadata (a ∷ b ∷ d ∷ e ∷ f ∷ serialize_metadata m) ≡ m
unfolding serialize_metadata serialize_primary
metadata_lem a b d e f m ((x0, y0), (x1, y1), (x2, y2), (xw, yw), h1, h2, h3, h4, h5) = rw (
  u16_le m.display_primary_0.x x0,
  u16_le m.display_primary_0.y y0,
  u16_le m.display_primary_1.x x1,
  u16_le m.display_primary_1.y y1,
  u16_le m.display_primary_2.x x2,
  u16_le m.display_primary_2.y y2,
  u16_le m.white_point.x xw,
  u16_le m.white_point.y yw,
  u16_le m.max_display_luminance h1,
  u16_le m.min_display_luminance h2,
  u16_le m.max_content_light_level h3,
  u16_le m.max_frame_average_light_level h4,
  u16_le m.max_full_frame_luminance h5,
)

pub hdr-ComesBack :
    (c : ControlPacketConfig) (enabled : Bool) (m : Option SunshineHdrMetadata)
    → ReadsBack c
    → Fits c (hdr enabled m)
    → ComesBack c (hdr enabled m)
unfolding serialize serialize_hdr serialize_metadata serialize_primary serialize_ty ty
    deserialize_content deserialize_hdr Fits
hdr-ComesBack c true none back fits bytes written =
    deserialize-optional c hdr_mode 1 _ (hdr true none) back (omega arith) refl (λ id. ground arith)
      written
hdr-ComesBack c false none back fits bytes written =
    deserialize-optional c hdr_mode 1 _ (hdr false none) back (omega arith) refl
      (λ id. ground arith) written
hdr-ComesBack c true (some m) back (like, fits) bytes written =
    deserialize-optional c hdr_mode 27 _ (hdr true (some m)) back (omega arith) refl
      (λ id. rw like (ap (λ n. found (hdr true (some n))) (metadata_lem 0 0 0 0 0 m fits))) written
hdr-ComesBack c false (some m) back (like, fits) bytes written =
    deserialize-optional c hdr_mode 27 _ (hdr false (some m)) back (omega arith) refl
      (λ id. rw like (ap (λ n. found (hdr false (some n))) (metadata_lem 0 0 0 0 0 m fits))) written

pub termination-ComesBack :
    (c : ControlPacketConfig) (reason : TerminationReason)
    → ReadsBack c
    → Fits c (server_termination reason)
    → ComesBack c (server_termination reason)
unfolding serialize serialize_termination serialize_ty ty deserialize_content termination_of Fits
termination-ComesBack c (short code) back fits bytes written =
    deserialize-optional c termination 2 _ (server_termination (short code)) back (omega arith) refl
      (λ id. rw (u16_be code fits)) written
termination-ComesBack c (long code) back fits bytes written =
    deserialize-optional c termination 4 _ (server_termination (long code)) back (omega arith) refl
      (λ id. rw (u32_be code fits)) written

pub web_state-ComesBack :
    (c : ControlPacketConfig) (a : ℕ) (keys : Bytes)
    → ReadsBack c
    → Fits c (web_state_packet a keys)
    → ComesBack c (web_state_packet a keys)
unfolding serialize serialize_ty ty deserialize_content Fits
web_state-ComesBack c a keys back (ha, hk) bytes written =
    deserialize-optional c web_state 34 (u16_to_be a ++ keys) (web_state_packet a keys) back
      (omega arith) (omega arith) (λ id. rw (hk, u16_be a ha, take_all 32 keys (omega arith)))
      written

pub set_adaptive_triggers-ComesBack :
    (c : ControlPacketConfig) (a b d e : ℕ) (left right : Bytes)
    → ReadsBack c
    → Fits c (set_adaptive_triggers a b d e left right)
    → ComesBack c (set_adaptive_triggers a b d e left right)
unfolding serialize serialize_ty ty deserialize_content Fits
set_adaptive_triggers-ComesBack c a b d e left right back (ha, hl, hr) bytes written =
    let n : length (left ++ right) ≡ 20 = omega (arith, length-append left right) in
    deserialize-optional c controller_set_adaptive_triggers 25
      (u16_to_le a ++ (b ∷ d ∷ e ∷ (left ++ right))) (set_adaptive_triggers a b d e left right) back
      (omega arith) (omega arith)
      (λ id. rw (
        n,
        u16_le a ha,
        take-append left right 10 hl,
        drop-append left right 10 hl,
        take_all 10 right (omega arith),
      ))
      written
