-- ===== src/Microphone.antt =====
-- src/stream/proto/microphone/foundation: packet.rs, payloader.rs and the stream of mod.rs. An address is
-- a number, a timestamp one of milliseconds.
pub mod Sent
mod Examples
use moonlight_common_rust.Common.{
  ℕ, ◌+◌, ◌%◌, ◌^◌, Option, none, some, Outcome, ok, err, ◌>>=◌, Bytes, List, [], ◌∷◌, ◌++◌, length,
  replicate, byte, ltb, if◌then◌else◌, u16_to_le, u32_to_le, u32_to_be, u16_from_le, u32_from_le,
  wrapping_add_u16, wrapping_add_u32,
}
use moonlight_common_rust.Crypto.{
  CryptoBackend, SunshineEncryption, round_to_pkcs7_safe_len, or_error,
}

pub record FoundationMicHeader : Type 0 where
  pub flags : ℕ
  pub packet_type : ℕ
  pub sequence_number : ℕ
  pub timestamp : ℕ
  pub ssrc : ℕ

abbrev pub mic_header_size : ℕ
mic_header_size = 12

abbrev pub foundation_max_mic_packet_size : ℕ
foundation_max_mic_packet_size = 1400

unfoldable pub serialize_mic_header : FoundationMicHeader → Bytes
serialize_mic_header h =
    h.flags
    ∷ h.packet_type
    ∷ (u16_to_le h.sequence_number ++ (u32_to_le h.timestamp ++ u32_to_le h.ssrc))

unfoldable pub deserialize_mic_header : Bytes → FoundationMicHeader
deserialize_mic_header header = record {
  flags = byte header 0;
  packet_type = byte header 1;
  sequence_number = u16_from_le (byte header 2) (byte header 3);
  timestamp = u32_from_le (byte header 4) (byte header 5) (byte header 6) (byte header 7);
  ssrc = u32_from_le (byte header 8) (byte header 9) (byte header 10) (byte header 11);
}

pub data FoundationMicPayloaderError : Type 0 where
  packet_too_large crypto_failed : FoundationMicPayloaderError

pub record FoundationMicPayloader : Type 0 where
  pub encryption : Option SunshineEncryption
  pub packets : List Bytes
  pub sequence_number : ℕ

unfoldable pub new_payloader : Option SunshineEncryption → FoundationMicPayloader
new_payloader encryption = record { encryption = encryption; packets = []; sequence_number = 0 }

abbrev pub mic_header : (sequence_number timestamp : ℕ) → FoundationMicHeader
mic_header sequence_number timestamp = record {
  flags = 0;
  packet_type = 0x61;
  sequence_number = sequence_number;
  timestamp = timestamp % 2 ^ 32;
  ssrc = 0x12345678;
}

abbrev pub mic_iv : (aes_iv sequence_number : ℕ) → Bytes
mic_iv aes_iv sequence_number =
    u32_to_be (wrapping_add_u32 aes_iv sequence_number) ++ replicate 12 0

-- What follows the header: the frame, or what the backend writes for it in the room of `safe_len`.
unfoldable pub mic_payload :
    CryptoBackend → Option SunshineEncryption → (sequence_number : ℕ) (frame : Bytes) → Option Bytes
mic_payload crypto none sequence_number frame = some frame
mic_payload crypto (some e) sequence_number frame =
    crypto.encrypt_aes_cbc e.aes_key (mic_iv e.aes_iv sequence_number) frame
      (round_to_pkcs7_safe_len (length frame))

-- On an error the payloader is the one before the call.
unfoldable pub push_frame :
    CryptoBackend
    → FoundationMicPayloader
    → (timestamp : ℕ) (frame : Bytes) → Outcome FoundationMicPayloaderError FoundationMicPayloader
push_frame crypto p timestamp frame =
    or_error crypto_failed (mic_payload crypto p.encryption p.sequence_number frame) >>= (λ payload.
      let packet = serialize_mic_header (mic_header p.sequence_number timestamp) ++ payload in
      if ltb foundation_max_mic_packet_size (length packet)
      then err packet_too_large
      else ok (record p {
        packets = p.packets ++ (packet ∷ []);
        sequence_number = wrapping_add_u16 p.sequence_number 1;
      }))

unfoldable pub poll_packet : FoundationMicPayloader → FoundationMicPayloader × Option Bytes
poll_packet p = elim p.packets [
  | [] ↦ (p, none)
  | packet ∷ queue ↦ (record p { packets = queue }, some packet)
]

pub record FoundationMicStream : Type 0 where
  pub addr : ℕ
  pub payloader : FoundationMicPayloader

pub record Transmit : Type 0 where
  pub destination : ℕ
  pub data_bytes : Bytes

unfoldable pub new : (addr : ℕ) → Option SunshineEncryption → FoundationMicStream
new addr encryption = record { addr = addr; payloader = new_payloader encryption }

unfoldable pub send_microphone_opus_data :
    CryptoBackend
    → FoundationMicStream
    → (timestamp : ℕ) (frame : Bytes) → Outcome FoundationMicPayloaderError FoundationMicStream
send_microphone_opus_data crypto s timestamp frame =
    push_frame crypto s.payloader timestamp frame >>= (λ p. ok (record s { payloader = p }))

unfoldable pub poll_transmit : FoundationMicStream → FoundationMicStream × Option Transmit
poll_transmit s =
    let (p, packet) = poll_packet s.payloader in
    (
      record s { payloader = p },
      elim packet [
        | none ↦ none
        | some bytes ↦ some (record { destination = s.addr; data_bytes = bytes })
      ],
    )
