-- ===== src/Microphone/Examples.antt =====
-- The theorem on the microphone stream at two frames.
use moonlight_common_rust.Common.{ℕ, refl, [], ◌∷◌, List, Bytes, none, some}
use moonlight_common_rust.Crypto.{CryptoBackend}
use moonlight_common_rust.Microphone.{new, new_payloader}
use moonlight_common_rust.Microphone.Sent.{Delivers, packets_of, send_all-poll_all}

abbrev backend : CryptoBackend
backend = record {
  encrypt_aes_cbc = λ key iv input room. some input;
  decrypt_aes_cbc = λ key iv input room. some input;
}

abbrev frames : List (ℕ × Bytes)
frames = (20, 1 ∷ 2 ∷ []) ∷ (40, 3 ∷ []) ∷ []

send_all-poll_all_example :
    Delivers backend (new 7 none) frames 1 (packets_of backend none 0 frames)
unfolding new new_payloader
send_all-poll_all_example = send_all-poll_all backend (new 7 none) frames 1 refl
