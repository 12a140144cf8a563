-- ===== src/Audio/Packet.antt =====
-- src/stream/proto/audio/packet.rs, and the initialisation vector of an audio packet.
pub mod Headers
use moonlight_common_rust.Common.{
  ℕ, ◌*◌, ◌/◌, ◌%◌, ◌^◌, ◌<◌, ◌≡◌, refl, ap, arith, List, [], ◌∷◌, ◌++◌, Bytes, byte, replicate,
  u16_to_be, u32_to_be, u16_from_be, u32_from_be, wrapping_add_u32, IsU8, IsU16, IsU32, length, All,
  ◌+◌,
}

abbrev pub rtp_audio_header : ℕ
rtp_audio_header = 0x80

abbrev pub invalid_opus_header : ℕ
invalid_opus_header = 0

abbrev pub rtp_payload_type_audio : ℕ
rtp_payload_type_audio = 97

abbrev pub rtp_payload_type_audio_fec : ℕ
rtp_payload_type_audio_fec = 127

abbrev pub rtp_audio_data_shards : ℕ
rtp_audio_data_shards = 4

abbrev pub rtp_audio_fec_shards : ℕ
rtp_audio_fec_shards = 2

abbrev pub rtp_audio_total_shards : ℕ
rtp_audio_total_shards = rtp_audio_data_shards + rtp_audio_fec_shards

pub record RtpAudioHeader : Type 0 where
  pub header : ℕ
  pub packet_type : ℕ
  pub sequence_number : ℕ
  pub timestamp : ℕ
  pub ssrc : ℕ

abbrev pub rtp_audio_header_size : ℕ
rtp_audio_header_size = 12

unfoldable pub deserialize_rtp_audio : Bytes → RtpAudioHeader
deserialize_rtp_audio buffer = record {
  header = byte buffer 0;
  packet_type = byte buffer 1;
  sequence_number = u16_from_be (byte buffer 2) (byte buffer 3);
  timestamp = u32_from_be (byte buffer 4) (byte buffer 5) (byte buffer 6) (byte buffer 7);
  ssrc = u32_from_be (byte buffer 8) (byte buffer 9) (byte buffer 10) (byte buffer 11);
}

unfoldable pub serialize_rtp_audio : RtpAudioHeader → Bytes
serialize_rtp_audio h =
    h.header
    ∷ h.packet_type
    ∷ (u16_to_be h.sequence_number ++ (u32_to_be h.timestamp ++ u32_to_be h.ssrc))

pub record AudioFecHeader : Type 0 where
  pub fec_shard_index : ℕ
  pub payload_type : ℕ
  pub base_sequence_number : ℕ
  pub base_timestamp : ℕ
  pub ssrc : ℕ

abbrev pub audio_fec_header_size : ℕ
audio_fec_header_size = 12

unfoldable pub deserialize_fec : Bytes → AudioFecHeader
deserialize_fec buffer = record {
  fec_shard_index = byte buffer 0;
  payload_type = byte buffer 1;
  base_sequence_number = u16_from_be (byte buffer 2) (byte buffer 3);
  base_timestamp = u32_from_be (byte buffer 4) (byte buffer 5) (byte buffer 6) (byte buffer 7);
  ssrc = u32_from_be (byte buffer 8) (byte buffer 9) (byte buffer 10) (byte buffer 11);
}

unfoldable pub serialize_fec : AudioFecHeader → Bytes
serialize_fec h =
    h.fec_shard_index
    ∷ h.payload_type
    ∷ (u16_to_be h.base_sequence_number ++ (u32_to_be h.base_timestamp ++ u32_to_be h.ssrc))

-- Both sides add the sequence number to the first word of the initialisation vector.
unfoldable pub packet_iv : ℕ → ℕ → Bytes
packet_iv aes_iv sequence_number =
    u32_to_be (wrapping_add_u32 aes_iv sequence_number) ++ replicate 12 0

-- The fields that the byte layout can hold.
pub record IsRtpAudioHeader (h : RtpAudioHeader) : Type 0 where
  pub sequence_number_fits : IsU16 h.sequence_number
  pub timestamp_fits : IsU32 h.timestamp
  pub ssrc_fits : IsU32 h.ssrc

pub record IsAudioFecHeader (h : AudioFecHeader) : Type 0 where
  pub base_sequence_number_fits : IsU16 h.base_sequence_number
  pub base_timestamp_fits : IsU32 h.base_timestamp
  pub ssrc_fits : IsU32 h.ssrc
