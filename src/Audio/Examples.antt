-- ===== src/Audio/Examples.antt =====
-- The theorems on src/stream/proto/audio at concrete packets.
use moonlight_common_rust.Common.{
  ℕ, ◌+◌, ◌*◌, ◌≡◌, ◌≢◌, refl, arith, Bool, true, false, List, [], ◌∷◌, ◌++◌, Option, none, some,
  Bytes, replicate, ok, out_of_fuel,
}
use moonlight_common_rust.Common.Map.{get, insert}
use moonlight_common_rust.ReedSolomon.{ReedSolomon}
use moonlight_common_rust.Crypto.{CryptoBackend, round_to_pkcs7_safe_len, round_to_pkcs7_padded_len}
use moonlight_common_rust.Audio.Packet.{
  RtpAudioHeader, AudioFecHeader, deserialize_rtp_audio, serialize_rtp_audio, deserialize_fec,
  serialize_fec,
}
use moonlight_common_rust.Audio.Packet.Headers.{
  deserialize_rtp_audio-serialize_rtp_audio, deserialize_fec-serialize_fec,
}
use moonlight_common_rust.Audio.Payloader.{
  AudioPayloader, push_frame, poll_packet, payload_of, encrypted, safe_payload_len,
}
use moonlight_common_rust.Audio.Payloader.Block.{
  push_frames, push_frames-block, data_packet, parity_packet,
}
use moonlight_common_rust.Audio.Depayloader.{AudioDepayloader, DataPacket, FecPacket, poll_frame}
use moonlight_common_rust.Audio.Depayloader.Reconstruct.{
  try_reconstruct_fec_block, reconstruct_with, recover, store_shards, or_insert, skip_others,
  of_block, fec_shards, present, data_shard, fec_shard, timestamp_increment,
}
use moonlight_common_rust.Audio.Depayloader.Receive.{handle_packet}
use moonlight_common_rust.Audio.Depayloader.Receive.Delivery.{push-poll, Decrypts}
use moonlight_common_rust.Audio.Depayloader.Receive.Recovery.{try_reconstruct_fec_block-keeps}
use moonlight_common_rust.Audio.Depayloader.Ends.{poll_frame-ends}

abbrev codec : ReedSolomon
codec = record {
  new = λ d p. true;
  encode_sep = λ d p len shards. some (replicate p (replicate len 7));
  reconstruct_data = λ d p shards. (replicate d (99 ∷ []), true);
}

-- Encryption puts one byte in front, and decryption takes it off.
abbrev encrypt : Bytes → Bytes → Bytes → ℕ → Option Bytes
encrypt key iv input room = some (1 ∷ input)

abbrev decrypt : Bytes → Bytes → Bytes → ℕ → Option Bytes
decrypt key iv [] room = none
decrypt key iv (b ∷ bytes) room = some bytes

abbrev backend : CryptoBackend
backend = record { encrypt_aes_cbc = encrypt; decrypt_aes_cbc = decrypt }

backend-Decrypts : Decrypts backend
backend-Decrypts key iv input cipher room e = ground arith

abbrev search : ℕ → List FecPacket → Bool × ℕ
search base packets = (false, 0)

abbrev payloader : AudioPayloader
payloader = record {
  fec = false;
  frame_len = 3;
  encryption = some (record { aes_key = 1 ∷ 2 ∷ []; aes_iv = 4294967295 });
  base_timestamp = 0;
  sequence_number = 65535;
  data_shards = replicate 4 (0 ∷ 0 ∷ 0 ∷ []);
  packet_queue = [];
}

abbrev depayloader : AudioDepayloader
depayloader = record {
  encryption = payloader.encryption;
  current_sequence_number = 65535;
  data_packets = [];
  fec_packets = [];
  fec_decoder = true;
}

abbrev sample : Bytes
sample = 5 ∷ 6 ∷ 7 ∷ []

sample_encrypted : payload_of codec backend payloader sample ≡ ok (1 ∷ sample)
unfolding payload_of encrypted safe_payload_len round_to_pkcs7_safe_len round_to_pkcs7_padded_len
sample_encrypted = refl

push-poll_example :
    (q r : AudioPayloader) × (packet : Bytes) × (stored after : AudioDepayloader) × (push_frame
        codec backend payloader 4294967301 sample
      ≡ ok q)
    × (poll_packet q ≡ (r, some packet))
    × (handle_packet codec search depayloader packet ≡ ok stored)
    × (poll_frame backend stored ≡ ok (after, some (record { timestamp = 5; buffer = sample })))
    × (r.packet_queue ≡ [])
    × (after.current_sequence_number ≡ r.sequence_number)
    × (after.encryption ≡ r.encryption)
    × (after.fec_packets ≡ [])
push-poll_example =
    push-poll codec backend backend-Decrypts search payloader depayloader 4294967301 sample
      (1 ∷ sample) refl refl refl (omega arith) refl refl refl sample_encrypted

abbrev with_fec : AudioPayloader
with_fec = record payloader {
  fec = true;
  encryption = none;
  sequence_number = 65532;
  base_timestamp = 17;
}

push_frames-block_example :
    push_frames codec backend with_fec
      ((10, sample) ∷ (15, sample) ∷ (20, sample) ∷ (25, sample) ∷ [])
    ≡ ok (record with_fec {
      sequence_number = 0;
      base_timestamp = 10;
      data_shards = sample ∷ sample ∷ sample ∷ sample ∷ [];
      packet_queue =
          []
          ++ (data_packet 65532 10 sample
              ∷ data_packet 65533 15 sample
              ∷ data_packet 65534 20 sample
              ∷ data_packet 65535 25 sample
              ∷ parity_packet 0 0 65532 10 (7 ∷ 7 ∷ 7 ∷ [])
              ∷ parity_packet 1 1 65532 10 (7 ∷ 7 ∷ 7 ∷ [])
              ∷ []);
    })
push_frames-block_example =
    push_frames-block codec backend with_fec 10 15 20 25 sample sample sample sample
      (7 ∷ 7 ∷ 7 ∷ []) (7 ∷ 7 ∷ 7 ∷ []) refl refl refl (omega arith) refl refl refl refl refl refl

abbrev fec_header : AudioFecHeader
fec_header = record {
  fec_shard_index = 1;
  payload_type = 97;
  base_sequence_number = 8;
  base_timestamp = 100;
  ssrc = 0;
}

deserialize_fec-serialize_fec_example : deserialize_fec (serialize_fec fec_header) ≡ fec_header
deserialize_fec-serialize_fec_example = deserialize_fec-serialize_fec fec_header (record {
  base_sequence_number_fits = omega arith;
  base_timestamp_fits = omega arith;
  ssrc_fits = omega arith;
})

abbrev rtp_header : RtpAudioHeader
rtp_header = record {
  header = 128;
  packet_type = 97;
  sequence_number = 65535;
  timestamp = 4294967295;
  ssrc = 1;
}

deserialize_rtp_audio-serialize_rtp_audio_example :
    deserialize_rtp_audio (serialize_rtp_audio rtp_header) ≡ rtp_header
deserialize_rtp_audio-serialize_rtp_audio_example =
    deserialize_rtp_audio-serialize_rtp_audio rtp_header (record {
      sequence_number_fits = omega arith;
      timestamp_fits = omega arith;
      ssrc_fits = omega arith;
    })

abbrev received : ℕ → DataPacket
received n = record { timestamp = 100 + 5 * n; payload = n ∷ [] }

-- Packet 10 of the block from 8 on is missing.
abbrev one_missing : AudioDepayloader
one_missing = record depayloader {
  current_sequence_number = 8;
  data_packets = (8, received 0) ∷ (9, received 1) ∷ (11, received 3) ∷ [];
  fec_packets = record { header = fec_header; payload = 7 ∷ [] } ∷ [];
}

abbrev recovered : AudioDepayloader
recovered = record one_missing {
  data_packets =
      (8, received 0)
      ∷ (9, received 1)
      ∷ (10, record { timestamp = 110; payload = 99 ∷ [] })
      ∷ (11, received 3)
      ∷ [];
}

one_missing-recovered : try_reconstruct_fec_block codec one_missing 8 ≡ ok (recovered, true)
unfolding try_reconstruct_fec_block reconstruct_with recover store_shards or_insert skip_others
    of_block fec_shards present data_shard fec_shard timestamp_increment get insert
one_missing-recovered = refl

eleven_stored : get 11 one_missing.data_packets ≡ some (received 3)
unfolding get
eleven_stored = refl

try_reconstruct_fec_block-keeps_example : get 11 recovered.data_packets ≡ some (received 3)
try_reconstruct_fec_block-keeps_example =
    try_reconstruct_fec_block-keeps codec one_missing 8 recovered true one_missing-recovered 11
      (received 3) eleven_stored

poll_frame-ends_example : poll_frame backend one_missing ≢ out_of_fuel
poll_frame-ends_example = poll_frame-ends backend one_missing (omega arith)
