-- ===== src/Rtsp/Encryption.antt =====
-- src/stream/proto/rtsp/encryption.rs, with the header of rtsp/packet.rs. A buffer that is written to is
-- an argument, and its new bytes a result; a usize has 64 bits.
pub mod RoundTrip
pub mod Nonces
use moonlight_common_rust.Common.{
  ℕ, ◌+◌, ◌-◌, ◌%◌, ◌^◌, Bool, true, false, not, Option, none, some, Outcome, ok, err, ◌>>=◌, Bytes,
  List, [], ◌∷◌, ◌++◌, length, drop, slice, replicate, byte, ltb, leb, ◌==◌, if◌then◌else◌,
  u32_to_le, u32_to_be, u32_from_be,
}
use moonlight_common_rust.Crypto.{AesGcmBackend, write, or_error}

-- The last is the backend's own error.
pub data RtspEncryptionError : Type 0 where
  message_too_small_header message_unencrypted encrypted_message_wrong_size output_too_small
        crypto_error :
      RtspEncryptionError

pub record RtspEncryptionHeader : Type 0 where
  pub encrypted : Bool
  pub len : ℕ
  pub sequence_number : ℕ
  pub tag : Bytes

abbrev pub header_size : ℕ
header_size = 24

-- `len as u32 | ENCRYPTED_RTSP_BIT`: the bit is the highest of 32, whatever the length has there.
unfoldable pub type_and_length : Bool → ℕ → ℕ
type_and_length true len = 2 ^ 31 + len % 2 ^ 31
type_and_length false len = len % 2 ^ 32

unfoldable pub serialize_header : RtspEncryptionHeader → Bytes
serialize_header h =
    u32_to_be (type_and_length h.encrypted h.len)
    ++ (u32_to_be (h.sequence_number % 2 ^ 32) ++ h.tag)

unfoldable pub deserialize_header : Bytes → RtspEncryptionHeader
deserialize_header header =
    let number = u32_from_be (byte header 0) (byte header 1) (byte header 2) (byte header 3) in
    record {
      encrypted = leb (2 ^ 31) number;
      len = number % 2 ^ 31;
      sequence_number = u32_from_be (byte header 4) (byte header 5) (byte header 6) (byte header 7);
      tag = slice 8 24 header;
    }

-- The twelve bytes; `origin` is `C` or `H`.
unfoldable pub message_iv : (origin sequence_number : ℕ) → Bytes
message_iv origin sequence_number =
    u32_to_le (sequence_number % 2 ^ 32) ++ (replicate 6 0 ++ (origin ∷ 82 ∷ []))

-- What the two encryptions share: all but the origin. The size that is returned, and the buffer.
unfoldable pub encrypt_message :
    AesGcmBackend
    → (origin : ℕ) (aes_key : Bytes) (sequence_number : ℕ) (message encrypted_message : Bytes)
    → Outcome RtspEncryptionError (ℕ × Bytes)
encrypt_message crypto origin aes_key sequence_number message encrypted_message =
    if ltb (length encrypted_message) (header_size + length message)
    then err output_too_small
    else or_error crypto_error (
        crypto.encrypt_aes_gcm aes_key (message_iv origin sequence_number) message
          (length encrypted_message - header_size))
      >>= (λ sealed.
          let (cipher, tag) = sealed in
          ok (
            header_size + length message,
            serialize_header (record {
              encrypted = true;
              len = length message;
              sequence_number = sequence_number;
              tag = tag;
            })
                ++ write cipher (drop header_size encrypted_message),
          ))

-- What is done once the header has been read.
unfoldable pub decrypt_with :
    AesGcmBackend
    → (origin : ℕ) (aes_key : Bytes) → RtspEncryptionHeader
    → (encrypted_message message : Bytes) → Outcome RtspEncryptionError (ℕ × Bytes)
decrypt_with crypto origin aes_key header encrypted_message message =
    if not header.encrypted
    then err message_unencrypted
    else if not (length encrypted_message == (header_size + header.len))
    then err encrypted_message_wrong_size
    else if ltb (length message) header.len
    then err output_too_small
    else or_error crypto_error (
        crypto.decrypt_aes_gcm aes_key (message_iv origin header.sequence_number)
          (drop header_size encrypted_message) header.tag header.len)
      >>= (λ plain. ok (header.len, write plain message))

unfoldable pub decrypt_message :
    AesGcmBackend
    → (origin : ℕ) (aes_key encrypted_message message : Bytes)
    → Outcome RtspEncryptionError (ℕ × Bytes)
decrypt_message crypto origin aes_key encrypted_message message =
    if ltb (length encrypted_message) header_size
    then err message_too_small_header
    else decrypt_with crypto origin aes_key (deserialize_header encrypted_message) encrypted_message
        message

abbrev pub client_origin : ℕ
client_origin = 67

abbrev pub host_origin : ℕ
host_origin = 72

unfoldable pub encrypt_client_rtsp_message_into :
    AesGcmBackend
    → (aes_key : Bytes) (sequence_number : ℕ) (message encrypted_message : Bytes)
    → Outcome RtspEncryptionError (ℕ × Bytes)
encrypt_client_rtsp_message_into crypto = encrypt_message crypto client_origin

unfoldable pub decrypt_client_rtsp_message_into :
    AesGcmBackend
    → (aes_key encrypted_message message : Bytes) → Outcome RtspEncryptionError (ℕ × Bytes)
decrypt_client_rtsp_message_into crypto = decrypt_message crypto client_origin

unfoldable pub encrypt_server_rtsp_message_into :
    AesGcmBackend
    → (aes_key : Bytes) (sequence_number : ℕ) (message encrypted_message : Bytes)
    → Outcome RtspEncryptionError (ℕ × Bytes)
encrypt_server_rtsp_message_into crypto = encrypt_message crypto host_origin

unfoldable pub decrypt_server_rtsp_message_into :
    AesGcmBackend
    → (aes_key encrypted_message message : Bytes) → Outcome RtspEncryptionError (ℕ × Bytes)
decrypt_server_rtsp_message_into crypto = decrypt_message crypto host_origin
