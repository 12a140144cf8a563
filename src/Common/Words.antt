-- ===== src/Common/Words.antt =====
-- Unsigned machine words as numbers, and their bytes in both orders.
use mathlib.Core.Path.{◌≡◌}
use native.Mathlib.Nat.{div-add-mod, mod-lt}
use native.Mathlib.Omega.{arith}
use Prim.Native.Nat.{ℕ, ◌≤◌, ◌+◌, ◌-◌, ◌*◌, ◌/◌, ◌%◌, ◌^◌, ◌<◌, min}
use mathlib.Core.List.{List, [], ◌∷◌}
use moonlight_common_rust.Common.Tests.{◌==◌, if◌then◌else◌, Bool-cases}
use mathlib.Core.Logic.{inl, inr}
use moonlight_common_rust.Common.Lists.{get_or}

abbrev pub Bytes : Type 0
Bytes = List ℕ

abbrev pub IsU8 : ℕ → Type 0
IsU8 n = n < 2 ^ 8

abbrev pub IsU16 : ℕ → Type 0
IsU16 n = n < 2 ^ 16

abbrev pub IsU32 : ℕ → Type 0
IsU32 n = n < 2 ^ 32

-- `buffer[i]`, for an array that is long enough by its type.
abbrev pub byte : Bytes → ℕ → ℕ
byte buffer i = get_or buffer i 0

abbrev pub wrapping_add_u16 : ℕ → ℕ → ℕ
wrapping_add_u16 a b = (a + b) % 2 ^ 16

abbrev pub wrapping_sub_u16 : ℕ → ℕ → ℕ
wrapping_sub_u16 a b = (a + 2 ^ 16 - b) % 2 ^ 16

abbrev pub wrapping_add_u32 : ℕ → ℕ → ℕ
wrapping_add_u32 a b = (a + b) % 2 ^ 32

abbrev pub saturating_add_u8 : ℕ → ℕ → ℕ
saturating_add_u8 a b = min (a + b) 255

abbrev pub saturating_add_u16 : ℕ → ℕ → ℕ
saturating_add_u16 a b = min (a + b) 65535

abbrev pub div_ceil : ℕ → ℕ → ℕ
div_ceil a b = if a % b == 0 then a / b else a / b + 1

-- Enough groups of `b` for `a`, and no group to spare.
pub div_ceil_bounds : (a b : ℕ) → 0 < b → (a ≤ div_ceil a b * b) × (div_ceil a b * b < a + b)
div_ceil_bounds a b h = elim (Bool-cases (a % b == 0)) [
  | inl e ↦
      let z : a % b ≡ 0 = ground arith in
      rw e (omega (arith, div-add-mod a b), omega (arith, div-add-mod a b))
  | inr e ↦
      let z : 0 < a % b = ground arith in
      let m : a % b < b = omega (arith, mod-lt a h) in
      rw e (omega (arith, div-add-mod a b), omega (arith, div-add-mod a b))
]

groups_unique : (a b k n : ℕ) → a ≤ k * b → k * b < a + b → a ≤ n * b → n * b < a + b → k ≤ n
groups_unique a b k n p q r s = grind arith

pub div_ceil_unique : (a b n : ℕ) → 0 < b → a ≤ n * b → n * b < a + b → div_ceil a b ≡ n
div_ceil_unique a b n h lo hi =
    let (p, q) = div_ceil_bounds a b h in
    omega (
      arith,
      groups_unique a b (div_ceil a b) n p q lo hi,
      groups_unique a b n (div_ceil a b) lo hi p q,
    )

abbrev pub u16_to_be : ℕ → Bytes
u16_to_be n = (n / 2 ^ 8 % 2 ^ 8) ∷ (n % 2 ^ 8) ∷ []

abbrev pub u16_to_le : ℕ → Bytes
u16_to_le n = (n % 2 ^ 8) ∷ (n / 2 ^ 8 % 2 ^ 8) ∷ []

abbrev pub u32_to_be : ℕ → Bytes
u32_to_be n = (n / 2 ^ 24 % 2 ^ 8) ∷ (n / 2 ^ 16 % 2 ^ 8) ∷ (n / 2 ^ 8 % 2 ^ 8) ∷ (n % 2 ^ 8) ∷ []

abbrev pub u32_to_le : ℕ → Bytes
u32_to_le n = (n % 2 ^ 8) ∷ (n / 2 ^ 8 % 2 ^ 8) ∷ (n / 2 ^ 16 % 2 ^ 8) ∷ (n / 2 ^ 24 % 2 ^ 8) ∷ []

abbrev pub u16_from_be : ℕ → ℕ → ℕ
u16_from_be a b = a * 2 ^ 8 + b

abbrev pub u16_from_le : ℕ → ℕ → ℕ
u16_from_le a b = a + b * 2 ^ 8

abbrev pub u32_from_be : ℕ → ℕ → ℕ → ℕ → ℕ
u32_from_be a b c d = a * 2 ^ 24 + b * 2 ^ 16 + c * 2 ^ 8 + d

abbrev pub u32_from_le : ℕ → ℕ → ℕ → ℕ → ℕ
u32_from_le a b c d = a + b * 2 ^ 8 + c * 2 ^ 16 + d * 2 ^ 24
