-- ===== src/Audio/Payloader/Block.antt =====
-- Four frames in a row, from the first shard of a block on.
use moonlight_common_rust.Common.{
  ℕ, ◌+◌, ◌%◌, ◌^◌, ◌≡◌, ◌≢◌, refl, ap, ◌∙◌, arith, true, false, List, [], ◌∷◌, ◌++◌, append_assoc,
  none, some, Bytes, length, set, ◌==◌, ==_refl, wrapping_add_u16, wrapping_sub_u16, IsU16, Outcome,
  ok, ◌>>=◌,
}
use moonlight_common_rust.ReedSolomon.{ReedSolomon}
use moonlight_common_rust.Crypto.{CryptoBackend}
use moonlight_common_rust.Audio.Packet.{
  serialize_rtp_audio, serialize_fec, rtp_audio_header, rtp_payload_type_audio,
  rtp_payload_type_audio_fec,
}
use moonlight_common_rust.Audio.Payloader.{
  AudioPayloader, AudioPayloaderError, push_frame, payload_of, queue_data, queue_fec, data_header,
  fec_packets, fec_packet, safe_payload_len,
}

-- What the packet of an unencrypted frame is.
abbrev pub data_packet : ℕ → ℕ → Bytes → Bytes
data_packet sequence_number timestamp payload =
    serialize_rtp_audio (data_header sequence_number timestamp) ++ payload

-- The FEC packet of the block that starts at `base`.
abbrev pub parity_packet : ℕ → ℕ → ℕ → ℕ → Bytes → Bytes
parity_packet index sequence_number base base_timestamp parity =
    serialize_rtp_audio (record {
      header = rtp_audio_header;
      packet_type = rtp_payload_type_audio_fec;
      sequence_number = sequence_number;
      timestamp = 0;
      ssrc = 0;
    })
    ++ (serialize_fec (record {
      fec_shard_index = index;
      payload_type = rtp_payload_type_audio;
      base_sequence_number = base;
      base_timestamp = base_timestamp;
      ssrc = 0;
    })
        ++ parity)

module _ (rs : ReedSolomon) (crypto : CryptoBackend) where
  -- The four frames one after another.
  unfoldable pub push_frames :
      AudioPayloader
      → List (ℕ × Bytes)
      → Outcome (AudioPayloaderError × AudioPayloader) AudioPayloader
  push_frames p [] = ok p
  push_frames p ((millis, frame) ∷ frames) =
      push_frame rs crypto p millis frame >>= λ q. push_frames q frames

  push_frame_inside :
      (p : AudioPayloader) (millis : ℕ) (frame : Bytes)
      → p.encryption ≡ none
      → length frame ≡ p.frame_len
      → p.sequence_number % 4 ≢ 3
      → push_frame rs crypto p millis frame ≡ ok (queue_data p (millis % 2 ^ 32) frame)
  unfolding push_frame payload_of
  push_frame_inside p millis frame plain len inside =
      let e : (p.sequence_number % 4 == 3) ≡ false = ground arith in
      rw (len, ==_refl p.frame_len, plain, e)

  push_frame_last :
      (p : AudioPayloader) (millis : ℕ) (frame : Bytes)
      → p.encryption ≡ none
      → p.fec ≡ true
      → length frame ≡ p.frame_len
      → p.sequence_number % 4 ≡ 3
      → push_frame rs crypto p millis frame
        ≡ queue_fec rs crypto (queue_data p (millis % 2 ^ 32) frame)
  unfolding push_frame payload_of
  push_frame_last p millis frame plain fec len last =
      rw (len, ==_refl p.frame_len, plain, last, fec)

  four_set :
      (shards : List Bytes) (a b c d : Bytes)
      → length shards ≡ 4
      → set (set (set (set shards 0 a) 1 b) 2 c) 3 d ≡ a ∷ b ∷ c ∷ d ∷ []
  four_set [] a b c d h = absurd (omega arith)
  four_set (w ∷ []) a b c d h = absurd (omega arith)
  four_set (w ∷ x ∷ []) a b c d h = absurd (omega arith)
  four_set (w ∷ x ∷ y ∷ []) a b c d h = absurd (omega arith)
  four_set (w ∷ x ∷ y ∷ z ∷ []) a b c d h = refl
  four_set (w ∷ x ∷ y ∷ z ∷ v ∷ s) a b c d h = absurd (omega arith)

  four_appends :
      (q : List Bytes) (a b c d : Bytes)
      → (((q ++ (a ∷ [])) ++ (b ∷ [])) ++ (c ∷ [])) ++ (d ∷ []) ≡ q ++ (a ∷ b ∷ c ∷ d ∷ [])
  four_appends [] a b c d = refl
  four_appends (x ∷ q) a b c d = ap (◌∷◌ x) (four_appends q a b c d)

  -- The four frames queued, without the FEC packets.
  abbrev four_done : AudioPayloader → ℕ → ℕ → ℕ → ℕ → Bytes → Bytes → Bytes → Bytes → AudioPayloader
  four_done p t0 t1 t2 t3 f0 f1 f2 f3 = record p {
    sequence_number = (p.sequence_number + 4) % 2 ^ 16;
    base_timestamp = t0;
    data_shards = f0 ∷ f1 ∷ f2 ∷ f3 ∷ [];
    packet_queue =
        p.packet_queue
        ++ (data_packet p.sequence_number t0 f0
            ∷ data_packet (p.sequence_number + 1) t1 f1
            ∷ data_packet (p.sequence_number + 2) t2 f2
            ∷ data_packet (p.sequence_number + 3) t3 f3
            ∷ []);
  }

  four_queued :
      (p : AudioPayloader) (t0 t1 t2 t3 : ℕ) (f0 f1 f2 f3 : Bytes)
      → p.sequence_number % 4 ≡ 0
      → IsU16 p.sequence_number
      → length p.data_shards ≡ 4
      → queue_data (queue_data (queue_data (queue_data p t0 f0) t1 f1) t2 f2) t3 f3
        ≡ four_done p t0 t1 t2 t3 f0 f1 f2 f3
  unfolding queue_data
  four_queued p t0 t1 t2 t3 f0 f1 f2 f3 aligned small four =
      let n : ℕ = p.sequence_number in
      let e1 : (n + 1) % 2 ^ 16 ≡ n + 1 = omega arith in
      let e2 : (n + 1 + 1) % 2 ^ 16 ≡ n + 2 = omega arith in
      let e3 : (n + 2 + 1) % 2 ^ 16 ≡ n + 3 = omega arith in
      let e4 : (n + 3 + 1) % 2 ^ 16 ≡ (n + 4) % 2 ^ 16 = omega arith in
      let m1 : (n + 1) % 4 ≡ 1 = omega arith in
      let m2 : (n + 2) % 4 ≡ 2 = omega arith in
      let m3 : (n + 3) % 4 ≡ 3 = omega arith in
      rw
        (e1, e2, e3, aligned, m1, m2, m3, four_set p.data_shards f0 f1 f2 f3 four, four_appends, e4)

  fec_packets-two :
      (n t : ℕ) (a b : Bytes)
      → IsU16 n
      → n % 4 ≡ 0
      → fec_packets 0 ((n + 4) % 2 ^ 16) t (a ∷ b ∷ [])
        ≡ parity_packet 0 ((n + 4) % 2 ^ 16) n t a
          ∷ parity_packet 1 ((n + 4) % 2 ^ 16 + 1) n t b
          ∷ []
  unfolding fec_packets fec_packet
  fec_packets-two n t a b small aligned =
      let base : wrapping_sub_u16 ((n + 4) % 2 ^ 16) 4 ≡ n = omega arith in
      let s0 : wrapping_add_u16 ((n + 4) % 2 ^ 16) 0 ≡ (n + 4) % 2 ^ 16 = omega arith in
      let s1 : wrapping_add_u16 ((n + 4) % 2 ^ 16) 1 ≡ (n + 4) % 2 ^ 16 + 1 = omega arith in
      rw (base, s0, s1)

  queue_fec_at :
      (q : AudioPayloader) (parity : List Bytes)
      → q.encryption ≡ none
      → rs.encode_sep 4 2 q.frame_len q.data_shards ≡ some parity
      → queue_fec rs crypto q
        ≡ ok (record q {
          packet_queue = q.packet_queue ++ fec_packets 0 q.sequence_number q.base_timestamp parity;
        })
  unfolding queue_fec safe_payload_len
  queue_fec_at q parity plain encodes =
      let e : safe_payload_len q ≡ q.frame_len = rw plain in rw (queue_fec, e, encodes)

  last_queued :
      (p : AudioPayloader) (t0 t1 t2 t3 : ℕ) (f0 f1 f2 f3 parity0 parity1 : Bytes)
      → p.encryption ≡ none
      → p.sequence_number % 4 ≡ 0
      → IsU16 p.sequence_number
      → length p.data_shards ≡ 4
      → rs.encode_sep 4 2 p.frame_len (f0 ∷ f1 ∷ f2 ∷ f3 ∷ []) ≡ some (parity0 ∷ parity1 ∷ [])
      → queue_fec rs crypto
          (queue_data (queue_data (queue_data (queue_data p t0 f0) t1 f1) t2 f2) t3 f3)
        ≡ ok (record p {
          sequence_number = (p.sequence_number + 4) % 2 ^ 16;
          base_timestamp = t0;
          data_shards = f0 ∷ f1 ∷ f2 ∷ f3 ∷ [];
          packet_queue =
              p.packet_queue
              ++ (data_packet p.sequence_number t0 f0
                  ∷ data_packet (p.sequence_number + 1) t1 f1
                  ∷ data_packet (p.sequence_number + 2) t2 f2
                  ∷ data_packet (p.sequence_number + 3) t3 f3
                  ∷ parity_packet 0 ((p.sequence_number + 4) % 2 ^ 16) p.sequence_number t0 parity0
                  ∷ parity_packet 1
                      ((p.sequence_number + 4) % 2 ^ 16 + 1)
                      p.sequence_number
                      t0
                      parity1
                  ∷ []);
        })
  last_queued p t0 t1 t2 t3 f0 f1 f2 f3 parity0 parity1 plain aligned small four encodes =
      ap (queue_fec rs crypto) (four_queued p t0 t1 t2 t3 f0 f1 f2 f3 aligned small four)
      ∙ queue_fec_at (four_done p t0 t1 t2 t3 f0 f1 f2 f3) (parity0 ∷ parity1 ∷ []) plain encodes
      ∙ rw (
        fec_packets-two p.sequence_number t0 parity0 parity1 small aligned,
        append_assoc p.packet_queue,
      )

  -- Without encryption and with FEC, at the first shard of a block (a 16-bit sequence number that is a
  -- multiple of four), four frames of the configured length whose encoding succeeds with two parity
  -- shards: `push_frame` accepts them all. It appends the four frames as packets with consecutive
  -- sequence numbers and their own timestamps modulo 2^32, then two FEC packets with the indices 0 and
  -- 1, the parity of these four frames, the sequence number and the timestamp of the first frame as the
  -- base, and the next two sequence numbers. The sequence number itself goes up by four only,
  -- modulo 2^16, and what an earlier block left in the shard buffers and as base timestamp has no part.
  pub push_frames-block :
      (p : AudioPayloader) (t0 t1 t2 t3 : ℕ) (f0 f1 f2 f3 parity0 parity1 : Bytes)
      → p.encryption ≡ none
      → p.fec ≡ true
      → p.sequence_number % 4 ≡ 0
      → IsU16 p.sequence_number
      → length p.data_shards ≡ 4
      → length f0 ≡ p.frame_len
      → length f1 ≡ p.frame_len
      → length f2 ≡ p.frame_len
      → length f3 ≡ p.frame_len
      → rs.encode_sep 4 2 p.frame_len (f0 ∷ f1 ∷ f2 ∷ f3 ∷ []) ≡ some (parity0 ∷ parity1 ∷ [])
      → push_frames p ((t0, f0) ∷ (t1, f1) ∷ (t2, f2) ∷ (t3, f3) ∷ [])
        ≡ ok (record p {
          sequence_number = (p.sequence_number + 4) % 2 ^ 16;
          base_timestamp = t0 % 2 ^ 32;
          data_shards = f0 ∷ f1 ∷ f2 ∷ f3 ∷ [];
          packet_queue =
              p.packet_queue
              ++ (data_packet p.sequence_number (t0 % 2 ^ 32) f0
                  ∷ data_packet (p.sequence_number + 1) (t1 % 2 ^ 32) f1
                  ∷ data_packet (p.sequence_number + 2) (t2 % 2 ^ 32) f2
                  ∷ data_packet (p.sequence_number + 3) (t3 % 2 ^ 32) f3
                  ∷ parity_packet 0
                      ((p.sequence_number + 4) % 2 ^ 16)
                      p.sequence_number
                      (t0 % 2 ^ 32)
                      parity0
                  ∷ parity_packet 1
                      ((p.sequence_number + 4) % 2 ^ 16 + 1)
                      p.sequence_number
                      (t0 % 2 ^ 32)
                      parity1
                  ∷ []);
        })
  unfolding push_frames queue_data
  push_frames-block p t0 t1 t2 t3 f0 f1 f2 f3 parity0 parity1 plain fec aligned small four l0 l1 l2
        l3 encodes =
      let a : AudioPayloader = queue_data p (t0 % 2 ^ 32) f0 in
      let b : AudioPayloader = queue_data a (t1 % 2 ^ 32) f1 in
      let c : AudioPayloader = queue_data b (t2 % 2 ^ 32) f2 in
      rw (
        push_frame_inside p t0 f0 plain l0 (omega arith),
        push_frame_inside a t1 f1 plain l1 (omega arith),
        push_frame_inside b t2 f2 plain l2 (omega arith),
        push_frame_last c t3 f3 plain fec l3 (omega arith),
        last_queued p (t0 % 2 ^ 32) (t1 % 2 ^ 32) (t2 % 2 ^ 32) (t3 % 2 ^ 32) f0 f1 f2 f3 parity0
            parity1 plain aligned small four encodes,
      )
