-- ===== src/Control/Encryption/Nonces.antt =====
-- The IVs of the control packets.
use moonlight_common_rust.Common.{
  ℕ, ◌%◌, ◌/◌, ◌^◌, ◌≡◌, refl, ap, arith, Bool, true, false, byte, IsU32,
}
use moonlight_common_rust.Control.Encryption.{sunshine, generate_iv}

pub u32_to_le-injective :
    (s t : ℕ)
    → IsU32 s
    → IsU32 t
    → s % 2 ^ 8 ≡ t % 2 ^ 8
    → s / 2 ^ 8 % 2 ^ 8 ≡ t / 2 ^ 8 % 2 ^ 8
    → s / 2 ^ 16 % 2 ^ 8 ≡ t / 2 ^ 16 % 2 ^ 8
    → s / 2 ^ 24 % 2 ^ 8 ≡ t / 2 ^ 24 % 2 ^ 8
    → s ≡ t
u32_to_le-injective s t hs ht e0 e1 e2 e3 = omega arith

-- The sequence number, in the first four bytes.
iv_number :
    (one other : Bool) (s t : ℕ)
    → IsU32 s
    → IsU32 t
    → generate_iv sunshine one s ≡ generate_iv sunshine other t
    → s ≡ t
unfolding generate_iv
iv_number one other s t hs ht e =
    u32_to_le-injective s t hs ht (ap (λ iv. byte iv 0) e) (ap (λ iv. byte iv 1) e)
      (ap (λ iv. byte iv 2) e) (ap (λ iv. byte iv 3) e)

iv_direction :
    (one other : Bool) (s t : ℕ)
    → generate_iv sunshine one s ≡ generate_iv sunshine other t
    → one ≡ other
unfolding generate_iv
iv_direction true true s t e = refl
iv_direction false false s t e = refl
iv_direction true false s t e =
    let b : ◌≡◌ {A = ℕ} 72 67 = ap (λ iv. byte iv 10) e in absurd (omega arith)
iv_direction false true s t e =
    let b : ◌≡◌ {A = ℕ} 67 72 = ap (λ iv. byte iv 10) e in absurd (omega arith)

-- Under the Sunshine method and sequence numbers of 32 bits, two control packets have one IV only if they
-- go in the same direction and have the same sequence number.
pub generate_iv-injective :
    (one other : Bool) (s t : ℕ)
    → IsU32 s
    → IsU32 t
    → generate_iv sunshine one s ≡ generate_iv sunshine other t
    → (one ≡ other) × (s ≡ t)
generate_iv-injective one other s t hs ht e =
    (iv_direction one other s t e, iv_number one other s t hs ht e)
