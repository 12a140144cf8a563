-- ===== src/Audio/Depayloader/Receive/Delivery.antt =====
-- From the payloader to the depayloader: a frame that arrives in order.
use moonlight_common_rust.Common.{
  ℕ, suc, ◌+◌, ◌%◌, ◌^◌, ◌≡◌, refl, ap, ◌∙◌, arith, Bool, true, false, ◌&&◌, List, [], ◌++◌, none,
  some, Bytes, find?, length, slice, ◌==◌, ltb, ==_refl, wrapping_add_u16, IsU16, IsU32, ok,
  Option-cases, inl, inr,
}
use moonlight_common_rust.Common.Map.{get, get-insert}
use moonlight_common_rust.ReedSolomon.{ReedSolomon}
use moonlight_common_rust.Crypto.{CryptoBackend, round_to_pkcs7_safe_len}
use moonlight_common_rust.Audio.Packet.{
  RtpAudioHeader, serialize_rtp_audio, deserialize_rtp_audio, IsRtpAudioHeader, packet_iv,
}
use moonlight_common_rust.Audio.Packet.Headers.{deserialize_rtp_audio-serialize_rtp_audio}
use moonlight_common_rust.Audio.Payloader.{
  AudioPayloader, push_frame, payload_of, queue_data, data_header, encrypted, safe_payload_len,
  poll_packet,
}
use moonlight_common_rust.Audio.Depayloader.{
  AudioDepayloader, AudioFrame, DataPacket, FecPacket, poll_frame, poll_loop, decrypted, to_frame,
  cleanup, advance, pop_old,
}
use moonlight_common_rust.Audio.Depayloader.Receive.{handle_packet, handle_data, store_data, covers}

module _ (rs : ReedSolomon) (search : ℕ → List FecPacket → Bool × ℕ) where
  handle_data-in_order :
      (d : AudioDepayloader) (h : RtpAudioHeader) (payload : Bytes)
      → h.sequence_number ≡ d.current_sequence_number
      → d.fec_packets ≡ []
      → handle_data rs search d h payload ≡ ok (store_data d h payload)
  unfolding handle_data
  handle_data-in_order d h payload due quiet =
      let l : ltb h.sequence_number d.current_sequence_number ≡ false = ground arith in
      let none_waits : find? (covers h.sequence_number) d.fec_packets ≡ none = rw quiet in
      rw (handle_data, l, none_waits)

  handle-data_header :
      (d : AudioDepayloader) (timestamp : ℕ) (payload : Bytes)
      → IsU16 d.current_sequence_number
      → IsU32 timestamp
      → d.fec_packets ≡ []
      → handle_packet rs search d
          (serialize_rtp_audio (data_header d.current_sequence_number timestamp) ++ payload)
        ≡ ok (store_data d (data_header d.current_sequence_number timestamp) payload)
  unfolding handle_packet serialize_rtp_audio data_header
  handle-data_header d timestamp payload small fits quiet =
      let h : RtpAudioHeader = data_header d.current_sequence_number timestamp in
      let fit : IsRtpAudioHeader h = record {
        sequence_number_fits = small;
        timestamp_fits = fits;
        ssrc_fits = omega arith;
      } in
      let e : deserialize_rtp_audio (slice 0 12 (serialize_rtp_audio h ++ payload)) ≡ h =
        deserialize_rtp_audio-serialize_rtp_audio h fit in
      let long : ltb (length (serialize_rtp_audio h ++ payload)) 12 ≡ false = ground arith in
      rw (long, e, handle_data-in_order d h payload refl quiet)

-- The backend decrypts what it encrypted, with the room that the depayloader gives it.
abbrev pub Decrypts : CryptoBackend → Type 0
Decrypts crypto =
    (key iv frame cipher : Bytes) (room : ℕ)
    → crypto.encrypt_aes_cbc key iv frame room ≡ some cipher
    → crypto.decrypt_aes_cbc key iv cipher (round_to_pkcs7_safe_len (length cipher)) ≡ some frame

module _ (rs : ReedSolomon) (crypto : CryptoBackend) (decrypts : Decrypts crypto) where
  decrypted-payload_of :
      (p : AudioPayloader) (frame payload : Bytes) (timestamp : ℕ)
      → payload_of rs crypto p frame ≡ ok payload
      → decrypted crypto p.encryption p.sequence_number
          (record { timestamp = timestamp; buffer = payload })
        ≡ some (record { timestamp = timestamp; buffer = frame })
  unfolding payload_of encrypted decrypted
  decrypted-payload_of p frame payload timestamp sent = elim (Option-cases p.encryption) [
    | inl e ↦ ground arith
    | inr (k, e) ↦ ground (
      arith,
      decrypts k.aes_key (packet_iv k.aes_iv p.sequence_number) frame payload
          (12 + safe_payload_len p),
    )
  ]

  poll_loop-due :
      (fuel : ℕ) (d : AudioDepayloader) (packet : DataPacket) (f : AudioFrame)
      → get d.current_sequence_number d.data_packets ≡ some packet
      → decrypted crypto d.encryption d.current_sequence_number (to_frame packet) ≡ some f
      → poll_loop crypto (suc fuel) d ≡ ok (cleanup (advance d), some f)
  unfolding poll_loop
  poll_loop-due fuel d packet f there plain = rw (poll_loop, there, plain)

  poll-due :
      (d : AudioDepayloader) (packet : DataPacket) (f : AudioFrame)
      → get d.current_sequence_number d.data_packets ≡ some packet
      → decrypted crypto d.encryption d.current_sequence_number (to_frame packet) ≡ some f
      → poll_frame crypto d ≡ ok (cleanup (advance d), some f)
  unfolding poll_frame
  poll-due d packet f there plain = poll_loop-due 131073 d packet f there plain

  -- The state after the frame is delivered.
  abbrev pub delivered : AudioDepayloader → RtpAudioHeader → Bytes → AudioDepayloader
  delivered d h payload = cleanup (advance (store_data d h payload))

  push_frame-queued :
      (p : AudioPayloader) (millis : ℕ) (frame payload : Bytes)
      → p.fec ≡ false
      → length frame ≡ p.frame_len
      → payload_of rs crypto p frame ≡ ok payload
      → push_frame rs crypto p millis frame ≡ ok (queue_data p (millis % 2 ^ 32) payload)
  unfolding push_frame
  push_frame-queued p millis frame payload plain len sent =
      let l : (length frame == p.frame_len) ≡ true = rw (len, ==_refl p.frame_len) in
      let n : ((p.sequence_number % 4 == 3) && p.fec) ≡ false = ground arith in
      rw (push_frame, l, sent, n)

  poll-stored :
      (p : AudioPayloader) (d : AudioDepayloader) (timestamp : ℕ) (frame payload : Bytes)
      → d.encryption ≡ p.encryption
      → d.current_sequence_number ≡ p.sequence_number
      → payload_of rs crypto p frame ≡ ok payload
      → poll_frame crypto (store_data d (data_header d.current_sequence_number timestamp) payload)
        ≡ ok (
          delivered d (data_header d.current_sequence_number timestamp) payload,
          some (record { timestamp = timestamp; buffer = frame }),
        )
  unfolding store_data data_header to_frame
  poll-stored p d timestamp frame payload enc cur sent =
      let n : ℕ = d.current_sequence_number in
      let packet : DataPacket = record { timestamp = timestamp; payload = payload } in
      poll-due (store_data d (data_header n timestamp) payload) packet _
        (get-insert n n packet d.data_packets ∙ rw (==_refl n))
        (rw (enc, cur, decrypted-payload_of p frame payload timestamp sent))

  -- A frame arrives as it was sent. Take a backend that decrypts what it encrypted, a payloader with
  -- FEC off and an empty queue, and a depayloader with the same encryption, the same 16-bit sequence
  -- number and no waiting FEC packet. A frame of the configured length whose payload the backend
  -- makes is accepted; the one packet that is then polled is accepted by the depayloader, which next
  -- gives out the same frame with the timestamp modulo 2^32. Both sides are then ready for
  -- the next frame: the queue is empty, the sequence numbers and the encryption agree, and no FEC packet waits.
  pub push-poll :
      (search : ℕ → List FecPacket → Bool × ℕ) (p : AudioPayloader) (d : AudioDepayloader)
      (millis : ℕ) (frame payload : Bytes)
      → p.fec ≡ false
      → p.packet_queue ≡ []
      → length frame ≡ p.frame_len
      → IsU16 p.sequence_number
      → d.encryption ≡ p.encryption
      → d.current_sequence_number ≡ p.sequence_number
      → d.fec_packets ≡ []
      → payload_of rs crypto p frame ≡ ok payload
      → (q r : AudioPayloader) × (packet : Bytes) × (stored after : AudioDepayloader) × (push_frame
            rs crypto p millis frame
          ≡ ok q)
        × (poll_packet q ≡ (r, some packet))
        × (handle_packet rs search d packet ≡ ok stored)
        × (poll_frame crypto stored
            ≡ ok (after, some (record { timestamp = millis % 2 ^ 32; buffer = frame })))
        × (r.packet_queue ≡ [])
        × (after.current_sequence_number ≡ r.sequence_number)
        × (after.encryption ≡ r.encryption)
        × (after.fec_packets ≡ [])
  unfolding poll_packet queue_data store_data cleanup advance pop_old
  push-poll search p d millis frame payload plain empty len small enc cur quiet sent =
      let t : ℕ = millis % 2 ^ 32 in
      let h : RtpAudioHeader = data_header d.current_sequence_number t in
      let n : IsU16 d.current_sequence_number = omega arith in
      let first_queued : poll_packet (queue_data p t payload) ≡ (
        record (queue_data p t payload) { packet_queue = [] },
        some (serialize_rtp_audio h ++ payload),
      ) =
        rw (poll_packet, empty, cur) in
      (
        queue_data p t payload,
        record (queue_data p t payload) { packet_queue = [] },
        serialize_rtp_audio h ++ payload,
        store_data d h payload,
        delivered d h payload,
        push_frame-queued p millis frame payload plain len sent,
        first_queued,
        handle-data_header rs search d t payload n (omega arith) quiet,
        poll-stored p d t frame payload enc cur sent,
        refl,
        ap (λ x. wrapping_add_u16 x 1) cur,
        enc,
        rw quiet,
      )
