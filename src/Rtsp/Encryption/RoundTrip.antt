-- ===== src/Rtsp/Encryption/RoundTrip.antt =====
-- RTSP messages that are encrypted and decrypted.
use moonlight_common_rust.Common.{
  ℕ, ◌+◌, ◌-◌, ◌<◌, ◌≤◌, ◌%◌, ◌/◌, ◌^◌, ◌≡◌, arith, true, false, some, Outcome, ok, Bytes, ◌++◌,
  length, take, drop, ltb, leb, ◌==◌, IsU32, u32_from_be, length-append, take-append, drop-append,
}
use moonlight_common_rust.Crypto.{AesGcmBackend, IsAesGcm, write, take-sealed}
use moonlight_common_rust.Rtsp.Encryption.{
  RtspEncryptionError, RtspEncryptionHeader, header_size, type_and_length, serialize_header,
  deserialize_header, message_iv, encrypt_message, decrypt_with, decrypt_message, client_origin,
  host_origin, encrypt_client_rtsp_message_into, decrypt_client_rtsp_message_into,
  encrypt_server_rtsp_message_into, decrypt_server_rtsp_message_into,
}

abbrev pub header_for : (len sequence_number : ℕ) (tag : Bytes) → RtspEncryptionHeader
header_for len sequence_number tag = record {
  encrypted = true;
  len = len;
  sequence_number = sequence_number;
  tag = tag;
}

u32_be :
    (n : ℕ)
    → IsU32 n
    → u32_from_be (n / 2 ^ 24 % 2 ^ 8) (n / 2 ^ 16 % 2 ^ 8) (n / 2 ^ 8 % 2 ^ 8) (n % 2 ^ 8) ≡ n
u32_be n h = omega arith

-- A header with a length of 31 bits and a sequence number of 32 is read back.
deserialize_header-serialize_header :
    (len s : ℕ) (tag rest : Bytes)
    → len < 2 ^ 31
    → IsU32 s
    → length tag ≡ 16
    → deserialize_header (serialize_header (header_for len s tag) ++ rest) ≡ header_for len s tag
unfolding deserialize_header serialize_header type_and_length
deserialize_header-serialize_header len s tag rest short small sized =
    let n = 2 ^ 31 + len % 2 ^ 31 in
    let e0 : u32_from_be (n / 2 ^ 24 % 2 ^ 8) (n / 2 ^ 16 % 2 ^ 8) (n / 2 ^ 8 % 2 ^ 8) (n % 2 ^ 8)
        ≡ 2 ^ 31 + len =
      omega arith in
    let e1 : leb (2 ^ 31) (2 ^ 31 + len) ≡ true = ground arith in
    let e2 : (2 ^ 31 + len) % 2 ^ 31 ≡ len = omega arith in
    let e3 : s % 2 ^ 32 ≡ s = omega arith in
    rw (e0, e1, e2, e3, u32_be s small, take-append tag rest 16 sized)

length-serialize_header :
    (h : RtspEncryptionHeader) → length h.tag ≡ 16 → length (serialize_header h) ≡ header_size
unfolding serialize_header
length-serialize_header h sized = omega arith

-- The message is encrypted, and what was written is decrypted to it.
abbrev pub ComesBack :
    (encrypt : Bytes → Bytes → Outcome RtspEncryptionError (ℕ × Bytes))
    (decrypt : Bytes → Bytes → Outcome RtspEncryptionError (ℕ × Bytes))
    (message buffer place : Bytes)
    → Type 0
ComesBack encrypt decrypt message buffer place =
    (written : Bytes) × (encrypt message buffer ≡ ok (header_size + length message, written))
    × (decrypt (take (header_size + length message) written) place
        ≡ ok (length message, write message place))

decrypt-sealed :
    (crypto : AesGcmBackend) (origin : ℕ) (key : Bytes) (n s : ℕ) (tag cipher place plain : Bytes)
    → n < 2 ^ 31
    → IsU32 s
    → length tag ≡ 16
    → length cipher ≡ n
    → n ≤ length place
    → crypto.decrypt_aes_gcm key (message_iv origin s) cipher tag n ≡ some plain
    → decrypt_message crypto origin key (serialize_header (header_for n s tag) ++ cipher) place
      ≡ ok (n, write plain place)
unfolding decrypt_message decrypt_with
decrypt-sealed crypto origin key n s tag cipher place plain short small tagged sized wide opened =
    let head = serialize_header (header_for n s tag) in
    let hh : length head ≡ header_size = length-serialize_header (header_for n s tag) tagged in
    let all : length (head ++ cipher) ≡ header_size + n =
      omega (arith, length-append head cipher) in
    let e1 : ltb (header_size + n) header_size ≡ false = ground arith in
    let e2 : ((header_size + n) == (header_size + n)) ≡ true = ground arith in
    let e3 : ltb (length place) n ≡ false = ground arith in
    rw (
      all,
      e1,
      deserialize_header-serialize_header n s tag cipher short small tagged,
      e2,
      e3,
      drop-append head cipher header_size hh,
      opened,
    )

encrypt_message-ComesBack :
    (crypto : AesGcmBackend) (origin : ℕ) (key : Bytes) (s : ℕ) (message buffer place : Bytes)
    → IsAesGcm crypto
    → IsU32 s
    → length message < 2 ^ 31
    → header_size + length message ≤ length buffer
    → length message ≤ length place
    → ComesBack
        (encrypt_message crypto origin key s)
        (decrypt_message crypto origin key)
        message
        buffer
        place
unfolding encrypt_message
encrypt_message-ComesBack crypto origin key s message buffer place gcm small short room wide =
    let (cipher, tag, done, sized, tagged, opens) =
      gcm key (message_iv origin s) message (length buffer - header_size) (omega arith) in
    let head = serialize_header (header_for (length message) s tag) in
    let e1 : ltb (length buffer) (header_size + length message) ≡ false = ground arith in
    (
      head ++ write cipher (drop header_size buffer),
      rw (e1, done),
      rw
          (take-sealed head cipher (drop header_size buffer) header_size (length message)
            (length-serialize_header (header_for (length message) s tag) tagged) sized)
          (decrypt-sealed crypto origin key (length message) s tag cipher place message short small
            tagged sized wide (opens (length message) (omega arith))),
    )

-- For a backend that is AES-GCM, a sequence number of 32 bits, a message of less than 2 ^ 31 bytes and
-- buffers with room for the result: a client's message that is encrypted is decrypted to the same
-- message, and a server's is, too.
pub rtsp_decrypt-encrypt :
    (crypto : AesGcmBackend) (key : Bytes) (s : ℕ) (message buffer place : Bytes)
    → IsAesGcm crypto
    → IsU32 s
    → length message < 2 ^ 31
    → header_size + length message ≤ length buffer
    → length message ≤ length place
    → ComesBack
        (encrypt_client_rtsp_message_into crypto key s)
        (decrypt_client_rtsp_message_into crypto key)
        message
        buffer
        place
      × ComesBack
          (encrypt_server_rtsp_message_into crypto key s)
          (decrypt_server_rtsp_message_into crypto key)
          message
          buffer
          place
unfolding encrypt_client_rtsp_message_into decrypt_client_rtsp_message_into
    encrypt_server_rtsp_message_into decrypt_server_rtsp_message_into
rtsp_decrypt-encrypt crypto key s message buffer place gcm small short room wide = (
  encrypt_message-ComesBack crypto client_origin key s message buffer place gcm small short room
      wide,
  encrypt_message-ComesBack crypto host_origin key s message buffer place gcm small short room wide,
)
