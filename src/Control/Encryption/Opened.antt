-- ===== src/Control/Encryption/Opened.antt =====
-- Which bytes are decrypted, and what becomes of a packet whose length does not fit the header.
mod Parts
use moonlight_common_rust.Common.{
  ℕ, ◌+◌, ◌-◌, ◌<◌, ◌≤◌, ◌%◌, ◌/◌, ◌*◌, ◌^◌, ◌≡◌, refl, sym, ap, arith, Bool, true, false, not,
  Bool-cases, inl, inr, Option, Option-cases, none, some, Outcome, ok, err, ◌>>=◌, Bytes, ◌++◌,
  length, take, drop, ltb, ◌==◌, if◌then◌else◌, IsU32, All, IsU8, length-drop,
}
use moonlight_common_rust.Crypto.{AesGcmBackend, IsAesGcm, write, or_error, take-sealed}
use moonlight_common_rust.Control.Encryption.{
  ControlEncryptionMethod, sunshine, ControlEncryptionError, invalid_encryption_header_packet_type,
  encryption_header_length_mismatch, encryption_header_length_too_small, crypto_error,
  EncryptedControlHeader, encrypted_control_packet_type, header_size, sub_len, serialize_header,
  deserialize_header, generate_iv, payload_size, encrypt_control_packet_into, decrypt_payload,
  decrypt_control_packet_into,
}
use moonlight_common_rust.Control.Encryption.RoundTrip.{
  header_for, encrypt-sealed, decrypt-sealed, length-serialize_header,
}
use moonlight_common_rust.Control.Encryption.Opened.Parts.{
  serialize_header-deserialize_header, deserialize_header_bound, serialize_header-header_for,
}

-- The bytes are a header that tells the payload's length, and a payload that the backend decrypts.
abbrev pub IsSealed :
    AesGcmBackend
    → (key : Bytes) → (iv : ℕ → Bytes) → (bytes place : Bytes) → (n : ℕ) → (out : Bytes) → Type 0
IsSealed crypto key iv bytes place n out =
    (s : ℕ) × (tag payload plain : Bytes) × (sub_len + n < 2 ^ 16)
    × (length payload ≡ n)
    × (bytes ≡ serialize_header (header_for n s tag) ++ payload)
    × (crypto.decrypt_aes_gcm key (iv s) payload tag (length place) ≡ some plain)
    × (out ≡ write plain place)

decrypt_payload-eq-ok :
    (crypto : AesGcmBackend) (key : Bytes) (iv : ℕ → Bytes) (h : EncryptedControlHeader)
    (payload place : Bytes) (n : ℕ) (out : Bytes)
    → decrypt_payload crypto key iv h payload place ≡ ok (n, out)
    → (plain : Bytes) × (h.ty ≡ encrypted_control_packet_type)
      × (h.len ≡ sub_len + n)
      × (length payload ≡ n)
      × (crypto.decrypt_aes_gcm key (iv h.sequence_number) payload h.tag (length place)
          ≡ some plain)
      × (out ≡ write plain place)
unfolding decrypt_payload payload_size
decrypt_payload-eq-ok crypto key iv h payload place n out e =
    let t : h.ty ≡ encrypted_control_packet_type = ground arith in
    let l : sub_len ≤ h.len = ground arith in
    let m : length payload ≡ h.len - sub_len = ground arith in
    elim (Option-cases
      (crypto.decrypt_aes_gcm key (iv h.sequence_number) payload h.tag (length place))) [
        | inl none_opened ↦ absurd (ground arith)
        | inr (plain, opened) ↦
            let k : length payload ≡ n = ground arith in
            let o : out ≡ write plain place = ground arith in (plain, t, omega arith, k, opened, o)
      ]

decrypt_payload-long :
    (crypto : AesGcmBackend) (key : Bytes) (iv : ℕ → Bytes) (n s : ℕ) (tag cipher place : Bytes)
    → length cipher ≡ n
    → 2 ^ 16 ≤ sub_len + n
    → (error : ControlEncryptionError) × (decrypt_payload crypto key iv
          (header_for n s tag)
          cipher
          place
        ≡ err error)
unfolding decrypt_payload payload_size
decrypt_payload-long crypto key iv n s tag cipher place sized long =
    elim (Bool-cases (ltb ((sub_len + n) % 2 ^ 16) sub_len)) [
      | inl e ↦ (invalid_encryption_header_packet_type, rw e)
      | inr e ↦
          let m : (length cipher == (sub_len + n) % 2 ^ 16 - sub_len) ≡ false = ground arith in
          (encryption_header_length_mismatch, rw (e, m))
    ]

-- Bytes of 8 bits that are decrypted, under any backend, to `n` bytes: they are an encrypted header with
-- the control packets' type and the length of `n` bytes behind it, and then these, which the backend
-- decrypts under the header's own tag and sequence number. All other bytes are refused.
pub decrypt-opened :
    (crypto : AesGcmBackend) (key : Bytes) (iv : ℕ → Bytes) (bytes place : Bytes) (n : ℕ)
    (out : Bytes)
    → All IsU8 bytes
    → decrypt_control_packet_into crypto key iv bytes place ≡ ok (n, out)
    → IsSealed crypto key iv bytes place n out
unfolding decrypt_control_packet_into
decrypt-opened crypto key iv bytes place n out words e =
    let h = deserialize_header bytes in
    let long : header_size ≤ length bytes = ground arith in
    let read : decrypt_payload crypto key iv h (drop header_size bytes) place ≡ ok (n, out) =
      ground arith in
    let (plain, t, l, k, opened, o) =
      decrypt_payload-eq-ok crypto key iv h (drop header_size bytes) place n out read in
    let bound : h.len < 2 ^ 16 = deserialize_header_bound bytes words long in
    let same : serialize_header h ≡ serialize_header (header_for n h.sequence_number h.tag) =
      serialize_header-header_for h n t l bound in
    (
      h.sequence_number,
      h.tag,
      drop header_size bytes,
      plain,
      omega arith,
      k,
      sym (rw (sym same) (serialize_header-deserialize_header bytes words long)),
      opened,
      o,
    )

-- A packet of 65516 bytes or more, whose length does not fit the header's 16 bits, is still encrypted; but
-- what was written is refused when it is decrypted.
pub decrypt-encrypt_long :
    (crypto : AesGcmBackend) (key : Bytes) (s : ℕ) (iv : ℕ → Bytes) (packet buffer place : Bytes)
    → IsAesGcm crypto
    → IsU32 s
    → 2 ^ 16 ≤ sub_len + length packet
    → header_size + length packet ≤ length buffer
    → (written : Bytes) × (error : ControlEncryptionError) × (encrypt_control_packet_into crypto key
          s
          (iv s)
          packet
          buffer
        ≡ ok (header_size + length packet, written))
      × (decrypt_control_packet_into crypto key iv
            (take (header_size + length packet) written)
            place
          ≡ err error)
decrypt-encrypt_long crypto key s iv packet buffer place gcm small long room =
    let (cipher, tag, done, sized, tagged, opens) =
      gcm key (iv s) packet (length buffer - header_size) (omega arith) in
    let (error, refused) =
      decrypt_payload-long crypto key iv (length packet) s tag cipher place sized long in
    let head = serialize_header (header_for (length packet) s tag) in
    (
      head ++ write cipher (drop header_size buffer),
      error,
      encrypt-sealed crypto key s (iv s) packet buffer cipher tag (omega arith) done,
      rw
          (
            take-sealed head cipher (drop header_size buffer) header_size (length packet)
                (length-serialize_header (header_for (length packet) s tag) tagged) sized,
            decrypt-sealed crypto key iv (length packet) s tag cipher place small tagged,
          )
          refused,
    )
