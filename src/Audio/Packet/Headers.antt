-- ===== src/Audio/Packet/Headers.antt =====
-- The headers of an audio packet, written and read back.
use moonlight_common_rust.Common.{◌≡◌, arith}
use moonlight_common_rust.Audio.Packet.{
  RtpAudioHeader, deserialize_rtp_audio, serialize_rtp_audio, IsRtpAudioHeader, AudioFecHeader,
  deserialize_fec, serialize_fec, IsAudioFecHeader,
}

-- An audio RTP header whose sequence number, timestamp and ssrc fit 16, 32 and 32 bits is read back
-- from the 12 bytes that `serialize` writes.
pub deserialize_rtp_audio-serialize_rtp_audio :
    (h : RtpAudioHeader) → IsRtpAudioHeader h → deserialize_rtp_audio (serialize_rtp_audio h) ≡ h
unfolding deserialize_rtp_audio serialize_rtp_audio
deserialize_rtp_audio-serialize_rtp_audio h v = ground arith

-- An audio FEC header whose base sequence number, base timestamp and ssrc fit 16, 32 and 32 bits is
-- read back from the 12 bytes that `serialize` writes.
pub deserialize_fec-serialize_fec :
    (h : AudioFecHeader) → IsAudioFecHeader h → deserialize_fec (serialize_fec h) ≡ h
unfolding deserialize_fec serialize_fec
deserialize_fec-serialize_fec h v = ground arith
