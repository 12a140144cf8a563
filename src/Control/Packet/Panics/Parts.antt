-- ===== src/Control/Packet/Panics/Parts.antt =====
-- The content of packets but input, without a panic.
use moonlight_common_rust.Common.{
  ◌+◌, ◌≡◌, ◌>>=◌, Bool-cases, inl, inr, refl, arith, Bool, true, false, Option, none, some, ok,
  Bytes, length, ltb, leb, if◌then◌else◌,
}
use moonlight_common_rust.Control.Config.{ControlPacketConfig}
use moonlight_common_rust.Control.Packet.{ControlPacket}
use moonlight_common_rust.Control.Packet.Deserialize.Fields.{found}
use moonlight_common_rust.Version.{is_sunshine_like}
use moonlight_common_rust.Control.Packet.{SunshineHdrMetadata}
use moonlight_common_rust.Control.Packet.Deserialize.Parts.{
  metadata, read_metadata, termination_of, deserialize_hdr, deserialize_hdr_mode,
  deserialize_termination, deserialize_controller_rumble_data,
  deserialize_controller_rumble_triggers, deserialize_controller_set_motion,
  deserialize_controller_set_led, deserialize_loss_stats, deserialize_frame_fec,
  deserialize_long_term_reference_frame_acknowledgement, deserialize_invalidate_reference_frames,
  deserialize_web_state,
}
use moonlight_common_rust.Control.Packet.Panics.Defined.{
  IsDefined, read-IsDefined, if-IsDefined, at_least-IsDefined, valid-IsDefined, found-IsDefined,
}

module _ (p : Bytes) where
  pub controller_rumble_data-IsDefined : IsDefined (deserialize_controller_rumble_data p)
  controller_rumble_data-IsDefined = at_least-IsDefined 14 p (λ room.
      read-IsDefined p (4 + 4) _ _ (omega arith) (
        read-IsDefined p (8 + 2) _ _ (omega arith) (
          read-IsDefined p (10 + 2) _ _ (omega arith)
            (read-IsDefined p (12 + 2) _ _ (omega arith) (found-IsDefined _)))))

  pub controller_rumble_triggers-IsDefined : IsDefined (deserialize_controller_rumble_triggers p)
  controller_rumble_triggers-IsDefined = at_least-IsDefined 10 p (λ room.
      read-IsDefined p (4 + 2) _ _ (omega arith) (
        read-IsDefined p (6 + 2) _ _ (omega arith)
          (read-IsDefined p (8 + 2) _ _ (omega arith) (found-IsDefined _))))

  pub controller_set_motion-IsDefined : IsDefined (deserialize_controller_set_motion p)
  controller_set_motion-IsDefined = at_least-IsDefined 9 p (λ room.
      read-IsDefined p (8 + 1) _ _ (omega arith) (
        read-IsDefined p (4 + 2) _ _ (omega arith)
          (read-IsDefined p (6 + 2) _ _ (omega arith) (valid-IsDefined _ _))))

  pub controller_set_led-IsDefined : IsDefined (deserialize_controller_set_led p)
  controller_set_led-IsDefined = at_least-IsDefined 9 p (λ room.
      read-IsDefined p (4 + 2) _ _ (omega arith) (
        read-IsDefined p (6 + 1) _ _ (omega arith) (
          read-IsDefined p (7 + 1) _ _ (omega arith)
            (read-IsDefined p (8 + 1) _ _ (omega arith) (found-IsDefined _)))))

  pub loss_stats-IsDefined : IsDefined (deserialize_loss_stats p)
  loss_stats-IsDefined = at_least-IsDefined 36 p (λ room.
      read-IsDefined p (4 + 4) _ _ (omega arith) (
        read-IsDefined p (8 + 4) _ _ (omega arith) (
          read-IsDefined p (12 + 4) _ _ (omega arith) (
            read-IsDefined p (16 + 8) _ _ (omega arith) (
              read-IsDefined p (24 + 4) _ _ (omega arith) (
                read-IsDefined p (28 + 4) _ _ (omega arith)
                  (read-IsDefined p (32 + 4) _ _ (omega arith) (found-IsDefined _))))))))

  pub frame_fec-IsDefined : IsDefined (deserialize_frame_fec p)
  frame_fec-IsDefined = at_least-IsDefined 25 p (λ room.
      read-IsDefined p (4 + 4) _ _ (omega arith) (
        read-IsDefined p (8 + 2) _ _ (omega arith) (
          read-IsDefined p (10 + 2) _ _ (omega arith) (
            read-IsDefined p (12 + 2) _ _ (omega arith) (
              read-IsDefined p (14 + 2) _ _ (omega arith) (
                read-IsDefined p (16 + 2) _ _ (omega arith) (
                  read-IsDefined p (18 + 2) _ _ (omega arith) (
                    read-IsDefined p (20 + 2) _ _ (omega arith) (
                      read-IsDefined p (22 + 1) _ _ (omega arith) (
                        read-IsDefined p (23 + 1) _ _ (omega arith) (
                          read-IsDefined p (24 + 1) _ _ (omega arith) (found-IsDefined _))))))))))))

  pub long_term_reference_frame_acknowledgement-IsDefined :
      IsDefined (deserialize_long_term_reference_frame_acknowledgement p)
  long_term_reference_frame_acknowledgement-IsDefined = at_least-IsDefined 12 p (λ room.
      read-IsDefined p (4 + 4) _ _ (omega arith)
        (read-IsDefined p (8 + 4) _ _ (omega arith) (found-IsDefined _)))

  pub invalidate_reference_frames-IsDefined : IsDefined (deserialize_invalidate_reference_frames p)
  invalidate_reference_frames-IsDefined = at_least-IsDefined 28 p (λ room.
      read-IsDefined p (4 + 4) _ _ (omega arith) (
        read-IsDefined p (8 + 4) _ _ (omega arith) (
          read-IsDefined p (12 + 4) _ _ (omega arith) (
            read-IsDefined p (16 + 4) _ _ (omega arith) (
              read-IsDefined p (20 + 4) _ _ (omega arith)
                (read-IsDefined p (24 + 4) _ _ (omega arith) (found-IsDefined _)))))))

  pub web_state-IsDefined : IsDefined (deserialize_web_state p)
  web_state-IsDefined = at_least-IsDefined 38 p (λ room.
      read-IsDefined p (4 + 2) _ _ (omega arith)
        (read-IsDefined p 38 _ _ (omega arith) (found-IsDefined _)))

  pub termination-IsDefined : IsDefined (deserialize_termination p)
  unfolding termination_of
  termination-IsDefined = at_least-IsDefined 6 p (λ room.
      if-IsDefined (leb 8 (length p))
        (λ e. read-IsDefined p (4 + 4) _ _ (ground arith) (found-IsDefined _))
        (λ e. read-IsDefined p (4 + 2) _ _ (omega arith) (found-IsDefined _)))

  metadata-IsDefined :
      (sunshine : Bool) (rest : Option SunshineHdrMetadata → ControlPacket)
      → IsDefined ((if sunshine then read_metadata p else ok none) >>= λ m. found (rest m))
  metadata-IsDefined false rest = (some (rest none), refl)
  metadata-IsDefined true rest = elim (Bool-cases (ltb (length p) 31)) [
    | inl short ↦ (some (rest none), rw short refl)
    | inr long ↦
        let e : leb 31 (length p) ≡ true = ground arith in
        (some (rest (some (metadata p))), rw (long, e) refl)
  ]

  pub hdr_mode-IsDefined : (c : ControlPacketConfig) → IsDefined (deserialize_hdr_mode c p)
  unfolding deserialize_hdr
  hdr_mode-IsDefined c = at_least-IsDefined 5 p (λ room.
      read-IsDefined p (4 + 1) _ _ (omega arith)
        (metadata-IsDefined (is_sunshine_like c.server_version) _))
