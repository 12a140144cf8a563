-- ===== src/Control/Encryption/Opened/Parts.antt =====
-- A header that was read, written again.
use moonlight_common_rust.Common.{
  ℕ, ◌+◌, ◌<◌, ◌≤◌, ◌%◌, ◌/◌, ◌^◌, ◌≡◌, arith, Bytes, ◌∷◌, ◌++◌, length, drop, IsU8, All,
  take-append-drop, u16_from_le, u32_from_le,
}
use moonlight_common_rust.Control.Encryption.RoundTrip.{header_for}
use moonlight_common_rust.Control.Encryption.{
  EncryptedControlHeader, encrypted_control_packet_type, sub_len, header_size, serialize_header,
  deserialize_header,
}

u16_le_bytes :
    (a b : ℕ)
    → IsU8 a
    → IsU8 b
    → (u16_from_le a b % 2 ^ 8 ≡ a) × (u16_from_le a b / 2 ^ 8 % 2 ^ 8 ≡ b)
u16_le_bytes a b ha hb = (omega arith, omega arith)

u32_le_bytes :
    (a b c d : ℕ)
    → IsU8 a
    → IsU8 b
    → IsU8 c
    → IsU8 d
    → (u32_from_le a b c d % 2 ^ 8 ≡ a)
      × (u32_from_le a b c d / 2 ^ 8 % 2 ^ 8 ≡ b)
      × (u32_from_le a b c d / 2 ^ 16 % 2 ^ 8 ≡ c)
      × (u32_from_le a b c d / 2 ^ 24 % 2 ^ 8 ≡ d)
u32_le_bytes a b c d ha hb hc hd = (omega arith, omega arith, omega arith, omega arith)

pub serialize_header-deserialize_header :
    (bytes : Bytes)
    → All IsU8 bytes
    → header_size ≤ length bytes
    → serialize_header (deserialize_header bytes) ++ drop header_size bytes ≡ bytes
unfolding serialize_header deserialize_header
serialize_header-deserialize_header (a ∷ b ∷ c ∷ d ∷ e ∷ f ∷ g ∷ h ∷ rest) all long =
    let (ha, (hb, (hc, (hd, (he, (hf, (hg, (hh, others)))))))) = all in
    let (e0, e1) = u16_le_bytes a b ha hb in
    let (e2, e3) = u16_le_bytes c d hc hd in
    let (e4, e5, e6, e7) = u32_le_bytes e f g h he hf hg hh in
    rw (e0, e1, e2, e3, e4, e5, e6, e7, take-append-drop 16 rest)
serialize_header-deserialize_header _ all long = absurd (omega arith)

pub deserialize_header_bound :
    (bytes : Bytes)
    → All IsU8 bytes
    → header_size ≤ length bytes
    → (deserialize_header bytes).len < 2 ^ 16
unfolding deserialize_header
deserialize_header_bound (a ∷ b ∷ c ∷ d ∷ rest) all long =
    let (ha, (hb, (hc, (hd, others)))) = all in omega arith
deserialize_header_bound _ all long = absurd (omega arith)

-- Only the type and the length are fixed by the payload.
pub serialize_header-header_for :
    (h : EncryptedControlHeader) (n : ℕ)
    → h.ty ≡ encrypted_control_packet_type
    → h.len ≡ sub_len + n
    → h.len < 2 ^ 16
    → serialize_header h ≡ serialize_header (header_for n h.sequence_number h.tag)
unfolding serialize_header
serialize_header-header_for h n t l small =
    let m : (sub_len + n) % 2 ^ 16 ≡ sub_len + n = omega arith in rw (m, t, l)
