-- ===== src/Control/Encryption.antt =====
-- src/stream/proto/control/encryption.rs, with the encrypted header of control/packet.rs. A buffer that
-- is written to is an argument, and its new bytes a result.
pub mod Opened
pub mod RoundTrip
pub mod Nonces
use moonlight_common_rust.Common.{
  ℕ, ◌+◌, ◌-◌, ◌%◌, ◌^◌, Bool, true, false, not, Option, none, some, Outcome, ok, err, assert,
  ◌>>=◌, ◌>>◌, Bytes, List, [], ◌∷◌, ◌++◌, length, drop, slice, replicate, byte, ltb, leb, ◌==◌,
  if◌then◌else◌, u16_to_le, u32_to_le, u16_from_le, u32_from_le,
}
use moonlight_common_rust.Crypto.{AesGcmBackend, write, or_error}

pub data ControlEncryptionMethod : Type 0 where
  nvidia sunshine : ControlEncryptionMethod

-- The last is the backend's own error.
pub data ControlEncryptionError : Type 0 where
  packet_too_small invalid_encryption_header_packet_type encryption_header_length_mismatch
        payload_too_small encryption_header_length_too_small crypto_error :
      ControlEncryptionError

pub record EncryptedControlHeader : Type 0 where
  pub ty : ℕ
  pub len : ℕ
  pub sequence_number : ℕ
  pub tag : Bytes

abbrev pub encrypted_control_packet_type : ℕ
encrypted_control_packet_type = 1

abbrev pub header_size : ℕ
header_size = 24

abbrev pub sub_len : ℕ
sub_len = 20

unfoldable pub serialize_header : EncryptedControlHeader → Bytes
serialize_header h = u16_to_le h.ty ++ (u16_to_le h.len ++ (u32_to_le h.sequence_number ++ h.tag))

unfoldable pub deserialize_header : Bytes → EncryptedControlHeader
deserialize_header buffer = record {
  ty = u16_from_le (byte buffer 0) (byte buffer 1);
  len = u16_from_le (byte buffer 2) (byte buffer 3);
  sequence_number = u32_from_le (byte buffer 4) (byte buffer 5) (byte buffer 6) (byte buffer 7);
  tag = slice 8 24 buffer;
}

unfoldable pub len_with_payload_size : ℕ → ℕ
len_with_payload_size payload_size = sub_len + payload_size

unfoldable pub payload_size : EncryptedControlHeader → Option ℕ
payload_size h = if ltb h.len sub_len then none else some (h.len - sub_len)

unfoldable pub generate_iv : ControlEncryptionMethod → Bool → ℕ → Bytes
generate_iv nvidia is_clientbound sequence_number = (sequence_number % 2 ^ 8) ∷ replicate 15 0
generate_iv sunshine is_clientbound sequence_number =
    u32_to_le sequence_number
    ++ (replicate 6 0 ++ ((if not is_clientbound then 67 else 72) ∷ 67 ∷ []))

-- The size that is returned, and the buffer.
unfoldable pub encrypt_control_packet_into :
    AesGcmBackend
    → (aes_key : Bytes) (sequence_number : ℕ) (iv unencrypted_packet encrypted_packet : Bytes)
    → Outcome ControlEncryptionError (ℕ × Bytes)
unfolding len_with_payload_size
encrypt_control_packet_into crypto aes_key sequence_number iv unencrypted_packet encrypted_packet =
    assert (leb header_size (length encrypted_packet))
    >> (or_error crypto_error (
          crypto.encrypt_aes_gcm aes_key iv unencrypted_packet
            (length encrypted_packet - header_size))
        >>= (λ sealed.
            let (cipher, tag) = sealed in
            ok (
              header_size + length unencrypted_packet,
              serialize_header (record {
                ty = encrypted_control_packet_type;
                len = len_with_payload_size (length unencrypted_packet) % 2 ^ 16;
                sequence_number = sequence_number;
                tag = tag;
              })
                  ++ write cipher (drop header_size encrypted_packet),
            )))

-- What is done once the header has been read.
unfoldable pub decrypt_payload :
    AesGcmBackend
    → (aes_key : Bytes) → (iv : ℕ → Bytes) → EncryptedControlHeader
    → (payload unencrypted_packet : Bytes) → Outcome ControlEncryptionError (ℕ × Bytes)
unfolding payload_size
decrypt_payload crypto aes_key iv header payload unencrypted_packet =
    if not (header.ty == encrypted_control_packet_type)
    then err invalid_encryption_header_packet_type
    else if ltb header.len sub_len
    then err invalid_encryption_header_packet_type
    else or_error encryption_header_length_too_small (payload_size header) >>= (λ expected.
      if not (length payload == expected)
      then err encryption_header_length_mismatch
      else or_error crypto_error (
          crypto.decrypt_aes_gcm aes_key (iv header.sequence_number) payload header.tag
            (length unencrypted_packet))
        >>= (λ plain. ok (length payload, write plain unencrypted_packet)))

unfoldable pub decrypt_control_packet_into :
    AesGcmBackend
    → (aes_key : Bytes) → (iv : ℕ → Bytes) → (encrypted_packet unencrypted_packet : Bytes)
    → Outcome ControlEncryptionError (ℕ × Bytes)
decrypt_control_packet_into crypto aes_key iv encrypted_packet unencrypted_packet =
    if ltb (length encrypted_packet) header_size
    then err packet_too_small
    else decrypt_payload crypto aes_key iv (deserialize_header encrypted_packet)
        (drop header_size encrypted_packet) unencrypted_packet

unfoldable pub encrypt_clientbound_control_packet_into :
    AesGcmBackend
    → ControlEncryptionMethod
    → (aes_key : Bytes) (sequence_number : ℕ) (unencrypted_packet encrypted_packet : Bytes)
    → Outcome ControlEncryptionError (ℕ × Bytes)
encrypt_clientbound_control_packet_into crypto method aes_key sequence_number =
    encrypt_control_packet_into crypto aes_key sequence_number
      (generate_iv method true sequence_number)

unfoldable pub decrypt_clientbound_control_packet_into :
    AesGcmBackend
    → ControlEncryptionMethod
    → (aes_key encrypted_packet unencrypted_packet : Bytes)
    → Outcome ControlEncryptionError (ℕ × Bytes)
decrypt_clientbound_control_packet_into crypto method aes_key =
    decrypt_control_packet_into crypto aes_key (generate_iv method true)

unfoldable pub encrypt_serverbound_control_packet_into :
    AesGcmBackend
    → ControlEncryptionMethod
    → (aes_key : Bytes) (sequence_number : ℕ) (unencrypted_packet encrypted_packet : Bytes)
    → Outcome ControlEncryptionError (ℕ × Bytes)
encrypt_serverbound_control_packet_into crypto method aes_key sequence_number =
    encrypt_control_packet_into crypto aes_key sequence_number
      (generate_iv method false sequence_number)

unfoldable pub decrypt_serverbound_control_packet_into :
    AesGcmBackend
    → ControlEncryptionMethod
    → (aes_key encrypted_packet unencrypted_packet : Bytes)
    → Outcome ControlEncryptionError (ℕ × Bytes)
decrypt_serverbound_control_packet_into crypto method aes_key =
    decrypt_control_packet_into crypto aes_key (generate_iv method false)
