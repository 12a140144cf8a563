-- ===== src/Rtsp/Examples.antt =====
-- The theorems on src/stream/proto/rtsp at concrete messages.
use moonlight_common_rust.Common.{ℕ, ◌≡◌, ◌≢◌, refl, arith, true, [], ◌∷◌, Bytes, some, replicate}
use moonlight_common_rust.Crypto.{AesGcmBackend, IsAesGcm}
use moonlight_common_rust.Control.Encryption.{sunshine, generate_iv}
use moonlight_common_rust.Rtsp.Encryption.{
  message_iv, encrypt_client_rtsp_message_into, decrypt_client_rtsp_message_into,
  encrypt_server_rtsp_message_into, decrypt_server_rtsp_message_into,
}
use moonlight_common_rust.Rtsp.Encryption.RoundTrip.{ComesBack, rtsp_decrypt-encrypt}
use moonlight_common_rust.Rtsp.Encryption.Nonces.{message_iv_separate}

-- A backend that leaves the bytes as they are.
abbrev backend : AesGcmBackend
backend = record {
  encrypt_aes_gcm = λ key iv input room. some (input, replicate 16 0);
  decrypt_aes_gcm = λ key iv input tag room. some input;
}

backend-IsAesGcm : IsAesGcm backend
backend-IsAesGcm =
    λ key iv input room fits. (input, replicate 16 0, refl, refl, refl, λ place wide. refl)

abbrev options : Bytes
options = 79 ∷ 80 ∷ 84 ∷ []

rtsp_decrypt-encrypt_example :
    ComesBack
      (encrypt_client_rtsp_message_into backend [] 3)
      (decrypt_client_rtsp_message_into backend [])
      options
      (replicate 30 0)
      (replicate 4 0)
    × ComesBack
        (encrypt_server_rtsp_message_into backend [] 3)
        (decrypt_server_rtsp_message_into backend [])
        options
        (replicate 30 0)
        (replicate 4 0)
rtsp_decrypt-encrypt_example =
    rtsp_decrypt-encrypt backend [] 3 options (replicate 30 0) (replicate 4 0) backend-IsAesGcm
      (omega arith) (omega arith) (omega arith) (omega arith)

message_iv_separate_example :
    ((◌≡◌ {A = ℕ} 67 67) × (◌≡◌ {A = ℕ} 9 9)) × (message_iv 67 9 ≢ generate_iv sunshine true 9)
message_iv_separate_example = message_iv_separate 67 67 9 9 true 9 (omega arith) (omega arith) refl
