-- ===== src/Crypto.antt =====
-- src/stream/proto/crypto/mod.rs. Its trait CryptoBackend is implemented over OpenSSL or RustCrypto;
-- an implementation is a value of this record.
use moonlight_common_rust.Common.{
  ℕ, ◌+◌, ◌*◌, ◌≤◌, ◌≡◌, Option, none, some, Outcome, ok, err, Bytes, ◌++◌, length, drop, take,
  arith, take-append, take-append_beyond, div_ceil,
}

-- `encrypt_aes_cbc key iv input room` is what is written to an output buffer of `room` bytes, as
-- many bytes as the call returns, or `none` for an error.
pub record CryptoBackend : Type 0 where
  pub encrypt_aes_cbc : Bytes → Bytes → Bytes → ℕ → Option Bytes
  pub decrypt_aes_cbc : Bytes → Bytes → Bytes → ℕ → Option Bytes

pub record SunshineEncryption : Type 0 where
  pub aes_key : Bytes
  pub aes_iv : ℕ

abbrev pub block_size : ℕ
block_size = 16

unfoldable pub round_to_pkcs7_padded_len : ℕ → ℕ
round_to_pkcs7_padded_len x = div_ceil x block_size * block_size

unfoldable pub round_to_pkcs7_safe_len : ℕ → ℕ
unfolding round_to_pkcs7_padded_len
round_to_pkcs7_safe_len x = round_to_pkcs7_padded_len x + block_size

-- The trait's AES-GCM half. `encrypt_aes_gcm key iv input room` is what is written to an output buffer of
-- `room` bytes and to the tag, or `none` for an error; `decrypt_aes_gcm key iv input tag room` what is
-- written to the output buffer.
pub record AesGcmBackend : Type 0 where
  pub encrypt_aes_gcm : Bytes → Bytes → Bytes → ℕ → Option (Bytes × Bytes)
  pub decrypt_aes_gcm : Bytes → Bytes → Bytes → Bytes → ℕ → Option Bytes

-- What is asked of a backend: with room enough it encrypts to as many bytes and a tag of 16, and these
-- are decrypted, with room enough, under the same key and IV.
abbrev pub IsAesGcm : AesGcmBackend → Type 0
IsAesGcm crypto =
    (key iv input : Bytes) (room : ℕ)
    → length input ≤ room
    → (cipher tag : Bytes) × (crypto.encrypt_aes_gcm key iv input room ≡ some (cipher, tag))
      × (length cipher ≡ length input)
      × (length tag ≡ 16)
      × ((place : ℕ)
          → length input ≤ place
          → crypto.decrypt_aes_gcm key iv cipher tag place ≡ some input)

-- A buffer after a write at its start.
abbrev pub write : Bytes → Bytes → Bytes
write bytes buffer = bytes ++ drop (length bytes) buffer

-- `?` on the backend's result.
abbrev pub or_error : {E A : Type 0} → E → Option A → Outcome E A
or_error error none = err error
or_error error (some value) = ok value

-- The bytes that were written, of a buffer with a header and a write behind it.
pub take-sealed :
    (head cipher rest : Bytes) (m n : ℕ)
    → length head ≡ m
    → length cipher ≡ n
    → take (m + n) (head ++ write cipher rest) ≡ head ++ cipher
take-sealed head cipher rest m n hh hc = rw (
  take-append_beyond head (write cipher rest) (m + n) n (omega arith),
  take-append cipher (drop (length cipher) rest) n hc,
)
