-- ===== src/Control/Encryption/RoundTrip.antt =====
-- Control packets that are encrypted and decrypted.
use moonlight_common_rust.Common.{
  ℕ, ◌+◌, ◌-◌, ◌<◌, ◌≤◌, ◌%◌, ◌/◌, ◌^◌, ◌≡◌, arith, true, false, some, Outcome, ok, Bytes, ◌++◌,
  length, take, drop, ltb, leb, ◌==◌, IsU32, u16_from_le, u32_from_le, length-append, take-append,
  drop-append,
}
use moonlight_common_rust.Crypto.{AesGcmBackend, IsAesGcm, write, take-sealed}
use moonlight_common_rust.Control.Encryption.{
  ControlEncryptionMethod, ControlEncryptionError, EncryptedControlHeader,
  encrypted_control_packet_type, header_size, sub_len, serialize_header, deserialize_header,
  payload_size, generate_iv, encrypt_control_packet_into, decrypt_payload,
  decrypt_control_packet_into, encrypt_clientbound_control_packet_into,
  decrypt_clientbound_control_packet_into, encrypt_serverbound_control_packet_into,
  decrypt_serverbound_control_packet_into,
}

-- The header that is written for a payload of `len` bytes.
abbrev pub header_for : (len sequence_number : ℕ) (tag : Bytes) → EncryptedControlHeader
header_for len sequence_number tag = record {
  ty = encrypted_control_packet_type;
  len = (sub_len + len) % 2 ^ 16;
  sequence_number = sequence_number;
  tag = tag;
}

-- A header with a tag of 16 bytes is read back from the packet's start.
pub deserialize_header-serialize_header :
    (len s : ℕ) (tag rest : Bytes)
    → IsU32 s
    → length tag ≡ 16
    → deserialize_header (serialize_header (header_for len s tag) ++ rest) ≡ header_for len s tag
unfolding deserialize_header serialize_header
deserialize_header-serialize_header len s tag rest small sized =
    let n = (sub_len + len) % 2 ^ 16 in
    let e1 : u16_from_le (n % 2 ^ 8) (n / 2 ^ 8 % 2 ^ 8) ≡ n = omega arith in
    let e2 : u32_from_le (s % 2 ^ 8) (s / 2 ^ 8 % 2 ^ 8) (s / 2 ^ 16 % 2 ^ 8) (s / 2 ^ 24 % 2 ^ 8)
        ≡ s =
      omega arith in
    rw (e1, e2, take-append tag rest 16 sized)

pub length-serialize_header :
    (h : EncryptedControlHeader) → length h.tag ≡ 16 → length (serialize_header h) ≡ header_size
unfolding serialize_header
length-serialize_header h sized = omega arith

-- What decryption makes of a header's bytes and a payload: what it makes of the header.
pub decrypt-sealed :
    (crypto : AesGcmBackend) (key : Bytes) (iv : ℕ → Bytes) (len s : ℕ) (tag cipher place : Bytes)
    → IsU32 s
    → length tag ≡ 16
    → decrypt_control_packet_into crypto key iv
        (serialize_header (header_for len s tag) ++ cipher)
        place
      ≡ decrypt_payload crypto key iv (header_for len s tag) cipher place
unfolding decrypt_control_packet_into
decrypt-sealed crypto key iv len s tag cipher place small sized =
    let head = serialize_header (header_for len s tag) in
    let hh : length head ≡ header_size = length-serialize_header (header_for len s tag) sized in
    let e1 : ltb (length (head ++ cipher)) header_size ≡ false =
      ground (arith, length-append head cipher) in
    rw (
      e1,
      deserialize_header-serialize_header len s tag cipher small sized,
      drop-append head cipher header_size hh,
    )

-- What a call of the encryption leaves in the buffer.
pub encrypt-sealed :
    (crypto : AesGcmBackend) (key : Bytes) (s : ℕ) (iv packet buffer cipher tag : Bytes)
    → header_size ≤ length buffer
    → crypto.encrypt_aes_gcm key iv packet (length buffer - header_size) ≡ some (cipher, tag)
    → encrypt_control_packet_into crypto key s iv packet buffer
      ≡ ok (
        header_size + length packet,
        serialize_header (header_for (length packet) s tag)
            ++ write cipher (drop header_size buffer),
      )
unfolding encrypt_control_packet_into
encrypt-sealed crypto key s iv packet buffer cipher tag fits done =
    let e1 : leb header_size (length buffer) ≡ true = ground arith in rw (e1, done)

decrypt_payload-short :
    (crypto : AesGcmBackend) (key : Bytes) (iv : ℕ → Bytes) (n s : ℕ)
    (tag cipher place plain : Bytes)
    → length cipher ≡ n
    → sub_len + n < 2 ^ 16
    → crypto.decrypt_aes_gcm key (iv s) cipher tag (length place) ≡ some plain
    → decrypt_payload crypto key iv (header_for n s tag) cipher place ≡ ok (n, write plain place)
unfolding decrypt_payload payload_size
decrypt_payload-short crypto key iv n s tag cipher place plain sized short opened =
    let e1 : (sub_len + n) % 2 ^ 16 ≡ sub_len + n = omega arith in
    let e2 : ltb (sub_len + n) sub_len ≡ false = ground arith in
    let e3 : sub_len + n - sub_len ≡ n = omega arith in
    let e4 : (n == n) ≡ true = ground arith in rw (e1, e2, e3, sized, e4, opened)

-- The packet is encrypted, and what was written is decrypted to it.
abbrev pub ComesBack :
    (encrypt : Bytes → Bytes → Outcome ControlEncryptionError (ℕ × Bytes))
    (decrypt : Bytes → Bytes → Outcome ControlEncryptionError (ℕ × Bytes))
    (packet buffer place : Bytes)
    → Type 0
ComesBack encrypt decrypt packet buffer place =
    (written : Bytes) × (encrypt packet buffer ≡ ok (header_size + length packet, written))
    × (decrypt (take (header_size + length packet) written) place
        ≡ ok (length packet, write packet place))

encrypt_into-ComesBack :
    (crypto : AesGcmBackend) (key : Bytes) (s : ℕ) (iv : ℕ → Bytes) (packet buffer place : Bytes)
    → IsAesGcm crypto
    → IsU32 s
    → sub_len + length packet < 2 ^ 16
    → header_size + length packet ≤ length buffer
    → length packet ≤ length place
    → ComesBack
        (encrypt_control_packet_into crypto key s (iv s))
        (decrypt_control_packet_into crypto key iv)
        packet
        buffer
        place
encrypt_into-ComesBack crypto key s iv packet buffer place gcm small short room wide =
    let (cipher, tag, done, sized, tagged, opens) =
      gcm key (iv s) packet (length buffer - header_size) (omega arith) in
    let head = serialize_header (header_for (length packet) s tag) in
    (
      head ++ write cipher (drop header_size buffer),
      encrypt-sealed crypto key s (iv s) packet buffer cipher tag (omega arith) done,
      rw
          (
            take-sealed head cipher (drop header_size buffer) header_size (length packet)
                (length-serialize_header (header_for (length packet) s tag) tagged) sized,
            decrypt-sealed crypto key iv (length packet) s tag cipher place small tagged,
          )
          (decrypt_payload-short crypto key iv (length packet) s tag cipher place packet sized short
            (opens (length place) wide)),
    )

-- For a backend that is AES-GCM, either method, a sequence number of 32 bits, a packet of at most 65515
-- bytes and buffers with room for the result: a clientbound packet that is encrypted is decrypted to
-- the same packet, and a serverbound one is, too.
pub decrypt-encrypt :
    (crypto : AesGcmBackend) (method : ControlEncryptionMethod) (key : Bytes) (s : ℕ)
    (packet buffer place : Bytes)
    → IsAesGcm crypto
    → IsU32 s
    → sub_len + length packet < 2 ^ 16
    → header_size + length packet ≤ length buffer
    → length packet ≤ length place
    → ComesBack
        (encrypt_clientbound_control_packet_into crypto method key s)
        (decrypt_clientbound_control_packet_into crypto method key)
        packet
        buffer
        place
      × ComesBack
          (encrypt_serverbound_control_packet_into crypto method key s)
          (decrypt_serverbound_control_packet_into crypto method key)
          packet
          buffer
          place
unfolding encrypt_clientbound_control_packet_into decrypt_clientbound_control_packet_into
    encrypt_serverbound_control_packet_into decrypt_serverbound_control_packet_into
decrypt-encrypt crypto method key s packet buffer place gcm small short room wide = (
  encrypt_into-ComesBack crypto key s (generate_iv method true) packet buffer place gcm small short
      room wide,
  encrypt_into-ComesBack crypto key s (generate_iv method false) packet buffer place gcm small short
      room wide,
)
