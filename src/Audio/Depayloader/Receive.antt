-- ===== src/Audio/Depayloader/Receive.antt =====
-- `handle_packet` of src/stream/proto/audio/depayloader.rs.
pub mod Recovery
pub mod Delivery
use moonlight_common_rust.Common.{
  ℕ, zero, suc, ◌+◌, ◌-◌, ◌%◌, Bool, true, false, ◌&&◌, not, List, [], ◌∷◌, ◌++◌, Option, none,
  some, Bytes, length, take, drop, slice, get_elem?, find?, ltb, leb, ◌==◌, if◌then◌else◌,
  saturating_add_u16, Outcome, ok, err, panic, ◌>>=◌, ◌>>◌, assert,
}
use moonlight_common_rust.Common.Map.{insert}
use moonlight_common_rust.ReedSolomon.{ReedSolomon}
use moonlight_common_rust.Audio.Packet.{
  RtpAudioHeader, AudioFecHeader, deserialize_rtp_audio, deserialize_fec, rtp_audio_header_size,
  audio_fec_header_size, rtp_payload_type_audio, rtp_payload_type_audio_fec, rtp_audio_data_shards,
  rtp_audio_total_shards,
}
use moonlight_common_rust.Audio.Depayloader.{
  AudioDepayloader, AudioDepayloaderError, buffer_too_small, DataPacket, FecPacket,
}
use moonlight_common_rust.Audio.Depayloader.Reconstruct.{try_reconstruct_fec_block}

-- Is the sequence number in the block of this FEC packet?
unfoldable pub covers : ℕ → FecPacket → Bool
covers sequence_number p =
    leb p.header.base_sequence_number sequence_number
    && ltb sequence_number (saturating_add_u16 p.header.base_sequence_number rtp_audio_data_shards)

-- `VecDeque::insert`, which panics past the end.
unfoldable pub insert_at :
    {E : Type 0} → ℕ → FecPacket → List FecPacket → Outcome E (List FecPacket)
insert_at i p packets =
    assert (leb i (length packets)) >> ok (take i packets ++ (p ∷ drop i packets))

unfoldable pub store_data : AudioDepayloader → RtpAudioHeader → Bytes → AudioDepayloader
store_data d h payload = record d {
  data_packets =
      insert h.sequence_number (record { timestamp = h.timestamp; payload = payload })
        d.data_packets;
}

-- FEC is given up when a block does not start at a multiple of four; the packet is stored all the same.
unfoldable pub check_alignment : AudioDepayloader → AudioFecHeader → AudioDepayloader
check_alignment d h = record d {
  fec_decoder = d.fec_decoder && (h.base_sequence_number % rtp_audio_data_shards == 0);
}

-- `search base packets` is the answer of `VecDeque::binary_search_by`: whether a packet of that base is
-- there, and an index of one or the index to insert at. Of several it may give any.
module _ (rs : ReedSolomon) (search : ℕ → List FecPacket → Bool × ℕ) where
  unfoldable pub handle_data :
      AudioDepayloader
      → RtpAudioHeader
      → Bytes
      → Outcome (AudioDepayloaderError × AudioDepayloader) AudioDepayloader
  handle_data d h payload =
      let stored = store_data d h payload in
      if ltb h.sequence_number d.current_sequence_number
      then ok d
      else elim (find? (covers h.sequence_number) d.fec_packets) [
        | none ↦ ok stored
        | some p ↦
            try_reconstruct_fec_block rs stored p.header.base_sequence_number >>= λ r. ok (r.0)
      ]

  unfoldable pub insert_fec :
      FecPacket
      → List FecPacket
      → Outcome (AudioDepayloaderError × AudioDepayloader) (List FecPacket)
  insert_fec p packets =
      let found = search p.header.base_sequence_number packets in
      if found.0
      then elim (get_elem? packets (found.1)) [
        | none ↦ panic
        | some other ↦
            insert_at
              (if ltb other.header.fec_shard_index p.header.fec_shard_index
                then found.1 + 1
                else found.1)
              p packets
      ]
      else insert_at (found.1) p packets

  unfoldable pub queue_fec :
      AudioDepayloader
      → AudioFecHeader
      → Bytes
      → Outcome (AudioDepayloaderError × AudioDepayloader) AudioDepayloader
  queue_fec d h payload = do
    packets ← insert_fec (record { header = h; payload = payload }) d.fec_packets
    r ← try_reconstruct_fec_block rs (record d { fec_packets = packets }) h.base_sequence_number
    ok (r.0)

  unfoldable pub handle_fec :
      AudioDepayloader
      → AudioFecHeader
      → Bytes
      → Outcome (AudioDepayloaderError × AudioDepayloader) AudioDepayloader
  handle_fec d h payload =
      if not d.fec_decoder
      then ok d
      else if ltb (saturating_add_u16 h.base_sequence_number rtp_audio_total_shards)
          d.current_sequence_number
      then ok (check_alignment d h)
      else queue_fec (check_alignment d h) h payload

  -- An error or a success, each with the state that is left. A packet of another type, or too short
  -- for its type, is dropped.
  unfoldable pub handle_packet :
      AudioDepayloader → Bytes → Outcome (AudioDepayloaderError × AudioDepayloader) AudioDepayloader
  handle_packet d packet =
      let h = deserialize_rtp_audio (slice 0 rtp_audio_header_size packet) in
      let fec_start = rtp_audio_header_size + audio_fec_header_size in
      if ltb (length packet) rtp_audio_header_size
      then err (buffer_too_small, d)
      else if h.packet_type == rtp_payload_type_audio
      then handle_data d h (drop rtp_audio_header_size packet)
      else if (h.packet_type == rtp_payload_type_audio_fec) && leb fec_start (length packet)
      then handle_fec d (deserialize_fec (slice rtp_audio_header_size fec_start packet))
          (drop fec_start packet)
      else ok d
