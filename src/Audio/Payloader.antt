-- ===== src/Audio/Payloader.antt =====
-- src/stream/proto/audio/payloader.rs: an Opus frame becomes a queued packet, and every fourth frame
-- two FEC packets. The codec of `create_audio_reed_solomon` is `rs`, the backend `crypto`.
pub mod Block
use moonlight_common_rust.Common.{
  ℕ, zero, suc, ◌+◌, ◌-◌, ◌*◌, ◌%◌, ◌^◌, Bool, true, false, ◌&&◌, not, List, [], ◌∷◌, ◌++◌, Option,
  none, some, Bytes, length, set, replicate, leb, ◌==◌, if◌then◌else◌, wrapping_add_u16,
  wrapping_sub_u16, Outcome, ok, err, panic, out_of_fuel, ◌>>=◌, ◌>>◌, assert,
}
use moonlight_common_rust.ReedSolomon.{ReedSolomon}
use moonlight_common_rust.Crypto.{CryptoBackend, SunshineEncryption, round_to_pkcs7_safe_len}
use moonlight_common_rust.Audio.Packet.{
  RtpAudioHeader, AudioFecHeader, serialize_rtp_audio, serialize_fec, packet_iv, rtp_audio_header,
  rtp_payload_type_audio, rtp_payload_type_audio_fec, rtp_audio_header_size, audio_fec_header_size,
  rtp_audio_data_shards, rtp_audio_fec_shards,
}

pub record AudioPayloaderConfig : Type 0 where
  pub fec : Bool
  pub frame_len : ℕ
  pub encryption : Option SunshineEncryption

pub data AudioPayloaderError : Type 0 where
  invalid_frame_size : AudioPayloaderError
  crypto_failed : AudioPayloaderError

-- `fec` tells whether there is a codec.
pub record AudioPayloader : Type 0 where
  pub fec : Bool
  pub frame_len : ℕ
  pub encryption : Option SunshineEncryption
  pub base_timestamp : ℕ
  pub sequence_number : ℕ
  pub data_shards : List Bytes
  pub packet_queue : List Bytes

unfoldable pub new : AudioPayloaderConfig → AudioPayloader
new config = record {
  fec = config.fec;
  frame_len = config.frame_len;
  encryption = config.encryption;
  base_timestamp = 0;
  sequence_number = 0;
  data_shards = replicate 4 (replicate config.frame_len 0);
  packet_queue = [];
}

unfoldable pub poll_packet : AudioPayloader → AudioPayloader × Option Bytes
poll_packet p = elim p.packet_queue [
  | [] ↦ (p, none)
  | packet ∷ queue ↦ (record p { packet_queue = queue }, some packet)
]

-- The room for a payload.
unfoldable pub safe_payload_len : AudioPayloader → ℕ
safe_payload_len p = elim p.encryption [
  | none ↦ p.frame_len
  | some e ↦ round_to_pkcs7_safe_len p.frame_len
]

unfoldable pub data_header : ℕ → ℕ → RtpAudioHeader
data_header sequence_number timestamp = record {
  header = rtp_audio_header;
  packet_type = rtp_payload_type_audio;
  sequence_number = sequence_number;
  timestamp = timestamp;
  ssrc = 0;
}

-- An FEC packet, after the sequence number has gone past the block.
unfoldable pub fec_packet : ℕ → ℕ → ℕ → Bytes → Bytes
fec_packet index sequence_number base_timestamp parity =
    serialize_rtp_audio (record {
      header = rtp_audio_header;
      packet_type = rtp_payload_type_audio_fec;
      sequence_number = wrapping_add_u16 sequence_number index;
      timestamp = 0;
      ssrc = 0;
    })
    ++ (serialize_fec (record {
      fec_shard_index = index;
      payload_type = rtp_payload_type_audio;
      base_sequence_number = wrapping_sub_u16 sequence_number 4;
      base_timestamp = base_timestamp;
      ssrc = 0;
    })
        ++ parity)

unfoldable pub fec_packets : ℕ → ℕ → ℕ → List Bytes → List Bytes
fec_packets index sequence_number base_timestamp [] = []
fec_packets index sequence_number base_timestamp (parity ∷ rest) =
    fec_packet index sequence_number base_timestamp parity
    ∷ fec_packets (suc index) sequence_number base_timestamp rest

-- Everything that follows once the payload is there: numbering, the shard buffers, the queue.
unfoldable pub queue_data : AudioPayloader → ℕ → Bytes → AudioPayloader
queue_data p timestamp payload =
    let shard_index = p.sequence_number % 4 in
    record p {
      sequence_number = wrapping_add_u16 p.sequence_number 1;
      base_timestamp = if shard_index == 0 then timestamp else p.base_timestamp;
      data_shards = set p.data_shards shard_index payload;
      packet_queue =
          p.packet_queue
          ++ ((serialize_rtp_audio (data_header p.sequence_number timestamp) ++ payload) ∷ []);
    }

module _ (rs : ReedSolomon) (crypto : CryptoBackend) where
  unfoldable pub encrypted :
      AudioPayloader
      → SunshineEncryption
      → Bytes
      → Outcome (AudioPayloaderError × AudioPayloader) Bytes
  encrypted p e frame =
      let room = audio_fec_header_size + safe_payload_len p in
      elim (crypto.encrypt_aes_cbc e.aes_key (packet_iv e.aes_iv p.sequence_number) frame room) [
        | none ↦ err (crypto_failed, p)
        | some payload ↦ assert (leb (length payload) room) >> ok payload
      ]

  unfoldable pub payload_of :
      AudioPayloader → Bytes → Outcome (AudioPayloaderError × AudioPayloader) Bytes
  payload_of p frame = elim p.encryption [ none ↦ ok frame | some e ↦ encrypted p e frame ]

  -- A codec that refuses the shards makes `expect` panic.
  unfoldable pub queue_fec :
      AudioPayloader → Outcome (AudioPayloaderError × AudioPayloader) AudioPayloader
  queue_fec p =
      elim (rs.encode_sep rtp_audio_data_shards rtp_audio_fec_shards (safe_payload_len p)
        p.data_shards) [
          | none ↦ panic
          | some parity ↦ ok (record p {
            packet_queue =
                p.packet_queue ++ fec_packets 0 p.sequence_number p.base_timestamp parity;
          })
        ]

  -- `as_millis() as u32` cuts the timestamp to a word. An error leaves the payloader as it was.
  unfoldable pub push_frame :
      AudioPayloader → ℕ → Bytes → Outcome (AudioPayloaderError × AudioPayloader) AudioPayloader
  push_frame p millis frame =
      if not (length frame == p.frame_len) then err (invalid_frame_size, p) else do
        payload ← payload_of p frame
        let queued = queue_data p (millis % 2 ^ 32) payload
        if (p.sequence_number % 4 == 3) && p.fec then queue_fec queued else ok queued
