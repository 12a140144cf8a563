-- ===== src/Rtsp/Encryption/Nonces.antt =====
-- The IVs of the RTSP messages, beside those of the control packets, which have the same key.
use moonlight_common_rust.Common.{ℕ, ◌%◌, ◌/◌, ◌^◌, ◌≡◌, ◌≢◌, ap, arith, Bool, byte, IsU32}
use moonlight_common_rust.Control.Encryption.{sunshine, generate_iv}
use moonlight_common_rust.Rtsp.Encryption.{message_iv}

message_iv-injective :
    (one other s t : ℕ)
    → IsU32 s
    → IsU32 t
    → message_iv one s ≡ message_iv other t
    → (one ≡ other) × (s ≡ t)
unfolding message_iv
message_iv-injective one other s t hs ht e =
    let b0 : s % 2 ^ 32 % 2 ^ 8 ≡ t % 2 ^ 32 % 2 ^ 8 = ap (λ iv. byte iv 0) e in
    let b1 : s % 2 ^ 32 / 2 ^ 8 % 2 ^ 8 ≡ t % 2 ^ 32 / 2 ^ 8 % 2 ^ 8 = ap (λ iv. byte iv 1) e in
    let b2 : s % 2 ^ 32 / 2 ^ 16 % 2 ^ 8 ≡ t % 2 ^ 32 / 2 ^ 16 % 2 ^ 8 = ap (λ iv. byte iv 2) e in
    let b3 : s % 2 ^ 32 / 2 ^ 24 % 2 ^ 8 ≡ t % 2 ^ 32 / 2 ^ 24 % 2 ^ 8 = ap (λ iv. byte iv 3) e in
    (ap (λ iv. byte iv 10) e, omega arith)

message_iv-ne-generate_iv :
    (origin s : ℕ) (is_clientbound : Bool) (t : ℕ)
    → message_iv origin s ≢ generate_iv sunshine is_clientbound t
unfolding message_iv generate_iv
message_iv-ne-generate_iv origin s is_clientbound t =
    λ e. let b : ◌≡◌ {A = ℕ} 82 67 = ap (λ iv. byte iv 11) e in absurd (omega arith)

-- For sequence numbers of 32 bits, two RTSP messages have one IV only if they have the same origin and the
-- same sequence number; and no RTSP message has the IV of a control packet of the Sunshine method,
-- whatever their sequence numbers and directions.
pub message_iv_separate :
    (one other s t : ℕ) (is_clientbound : Bool) (u : ℕ)
    → IsU32 s
    → IsU32 t
    → message_iv one s ≡ message_iv other t
    → ((one ≡ other) × (s ≡ t)) × (message_iv one s ≢ generate_iv sunshine is_clientbound u)
message_iv_separate one other s t is_clientbound u hs ht e =
    (message_iv-injective one other s t hs ht e, message_iv-ne-generate_iv one s is_clientbound u)
