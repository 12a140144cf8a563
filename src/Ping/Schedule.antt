-- ===== src/Ping/Schedule.antt =====
-- How many pings are sent, and which.
use moonlight_common_rust.Common.{
  ℕ, zero, suc, ◌+◌, ◌-◌, ◌*◌, ◌%◌, ◌^◌, ◌≤◌, ◌≡◌, refl, arith, List, [], ◌∷◌, ◌++◌, Option, none,
  some, Bytes, All, length, take, byte, u32_to_be, ◌/◌, ltb, Bool-cases, inl, inr, take-append,
  get_or, IsU32,
}
use moonlight_common_rust.Ping.{
  PingSender, SunshinePingPacket, serialize_ping, deserialize_ping, ping_packet, push_packet,
  advance_packet, new_sender, handle_timeout, poll_timeout,
}

-- One timeout after another.
unfoldable pub handle_timeouts : PingSender → List ℕ → PingSender
handle_timeouts s [] = s
handle_timeouts s (now ∷ times) = handle_timeouts (handle_timeout s now) times

-- The bytes of the ping with number `n`: "PING" for an old host, and else the host's payload with the
-- number behind it in big endian.
unfoldable pub ping_bytes : Option Bytes → ℕ → Bytes
ping_bytes none n = 0x50 ∷ 0x49 ∷ 0x4E ∷ 0x47 ∷ []
ping_bytes (some payload) n =
    payload
    ++ ((n / 2 ^ 24 % 2 ^ 8) ∷ (n / 2 ^ 16 % 2 ^ 8) ∷ (n / 2 ^ 8 % 2 ^ 8) ∷ (n % 2 ^ 8) ∷ [])

-- The first `n` pings.
unfoldable pub pings : Option Bytes → ℕ → List Bytes
pings sunshine_ping zero = []
pings sunshine_ping (suc n) = pings sunshine_ping n ++ (ping_bytes sunshine_ping n ∷ [])

ping_packet-ping_bytes :
    (ping : Option Bytes) (n : ℕ) → ping_packet ping (n % 2 ^ 32) ≡ ping_bytes ping n
unfolding ping_packet ping_bytes serialize_ping
ping_packet-ping_bytes none n = refl
ping_packet-ping_bytes (some payload) n =
    let e3 : n % 2 ^ 32 / 2 ^ 24 % 2 ^ 8 ≡ n / 2 ^ 24 % 2 ^ 8 = omega arith in
    let e2 : n % 2 ^ 32 / 2 ^ 16 % 2 ^ 8 ≡ n / 2 ^ 16 % 2 ^ 8 = omega arith in
    let e1 : n % 2 ^ 32 / 2 ^ 8 % 2 ^ 8 ≡ n / 2 ^ 8 % 2 ^ 8 = omega arith in
    let e0 : n % 2 ^ 32 % 2 ^ 8 ≡ n % 2 ^ 8 = omega arith in rw (e3, e2, e1, e0)

-- The state after `n` pings, the last of them not after `t`.
record Sent (start t n : ℕ) (sunshine_ping : Option Bytes) (s : PingSender) : Type 0 where
  same_ping : s.sunshine_ping ≡ sunshine_ping
  in_order : s.transmits ≡ pings sunshine_ping n
  numbered : s.next_attempt ≡ n % 2 ^ 32
  on_time : s.next_ping_send ≡ start + 500 * n
  not_early : 500 * n ≤ (t - start) + 500

Sent-advance_packet :
    (start t n : ℕ) (ping : Option Bytes) (s : PingSender)
    → start + 500 * n ≤ t
    → Sent start t n ping s
    → Sent start t (suc n) ping (advance_packet s)
unfolding advance_packet push_packet pings
Sent-advance_packet start t n ping s due h = record {
  same_ping = h.same_ping;
  in_order = rw (h.in_order, h.same_ping, h.numbered, ping_packet-ping_bytes ping n);
  numbered = omega (arith, h.numbered);
  on_time = omega (arith, h.on_time);
  not_early = omega arith;
}

Sent-handle_timeout :
    (start t n : ℕ) (ping : Option Bytes) (s : PingSender) (now : ℕ)
    → now ≤ t
    → Sent start t n ping s
    → (m : ℕ) × Sent start t m ping (handle_timeout s now)
unfolding handle_timeout
Sent-handle_timeout start t n ping s now before h =
    let woken : PingSender = record s { now = now } in
    let same : Sent start t n ping woken = record {
      same_ping = h.same_ping;
      in_order = h.in_order;
      numbered = h.numbered;
      on_time = h.on_time;
      not_early = h.not_early;
    } in
    elim (Bool-cases (ltb now s.next_ping_send)) [
      | inl e ↦ rw e (n, same)
      | inr e ↦
          let due : start + 500 * n ≤ t = ground (arith, h.on_time) in
          rw e (suc n, Sent-advance_packet start t n ping woken due same)
    ]

Sent-handle_timeouts :
    (start t n : ℕ) (ping : Option Bytes) (s : PingSender) (times : List ℕ)
    → All (λ now. now ≤ t) times
    → Sent start t n ping s
    → (m : ℕ) × Sent start t m ping (handle_timeouts s times)
unfolding handle_timeouts
Sent-handle_timeouts start t n ping s [] before h = (n, h)
Sent-handle_timeouts start t n ping s (now ∷ times) before h =
    let (m, g) = Sent-handle_timeout start t n ping s now before.0 h in
    Sent-handle_timeouts start t m ping (handle_timeout s now) times before.1 g

-- A sender that starts at `start` and is woken at any times, none after `t`, and whose pings are not yet polled,
-- has queued some number `n` of pings, none of them overwritten: each is the host's payload with the
-- number of the ping, 0, 1, 2 and so on modulo 2^32, in big endian behind it, or the four bytes "PING" where the
-- host gave no payload. The next is due at `start` plus 500 milliseconds for each of them, and they are no
-- more than one at the start and one for each full 500 milliseconds since.
pub handle_timeouts-new_sender :
    (start t : ℕ) (ping : Option Bytes) (times : List ℕ)
    → All (λ now. now ≤ t) times
    → (n : ℕ) × ((handle_timeouts (new_sender start ping) times).transmits ≡ pings ping n)
      × (poll_timeout (handle_timeouts (new_sender start ping) times) ≡ start + 500 * n)
      × (500 * n ≤ (t - start) + 500)
unfolding new_sender advance_packet push_packet pings poll_timeout
handle_timeouts-new_sender start t ping times before =
    let first : Sent start t 1 ping (new_sender start ping) = record {
      same_ping = refl;
      in_order = rw (ping_packet-ping_bytes ping 0) refl;
      numbered = refl;
      on_time = omega arith;
      not_early = omega arith;
    } in
    let (n, h) = Sent-handle_timeouts start t 1 ping (new_sender start ping) times before first in
    (n, h.in_order, h.on_time, h.not_early)

byte_after :
    (payload rest : Bytes) (i n : ℕ)
    → length payload ≡ n
    → get_or (payload ++ rest) (n + i) 0 ≡ get_or rest i 0
byte_after [] rest i n e = let z : n + i ≡ i = omega arith in rw z
byte_after (x ∷ payload) rest i zero e = absurd (omega arith)
byte_after (x ∷ payload) rest i (suc n) e =
    let z : suc n + i ≡ suc (n + i) = omega arith in
    rw z (byte_after payload rest i n (omega arith))

-- A ping packet with a payload of 16 bytes and a 32-bit sequence number is read back as it was written.
pub deserialize_ping-serialize_ping :
    (p : SunshinePingPacket)
    → length p.payload ≡ 16
    → IsU32 p.sequence_number
    → deserialize_ping (serialize_ping p) ≡ p
unfolding deserialize_ping serialize_ping
deserialize_ping-serialize_ping p len small =
    let n : ℕ = p.sequence_number in
    let word : Bytes = u32_to_be n in
    let front : take 16 (p.payload ++ word) ≡ p.payload = take-append p.payload word 16 len in
    let b0 : byte (p.payload ++ word) 16 ≡ n / 2 ^ 24 % 2 ^ 8 =
      byte_after p.payload word 0 16 len in
    let b1 : byte (p.payload ++ word) 17 ≡ n / 2 ^ 16 % 2 ^ 8 =
      byte_after p.payload word 1 16 len in
    let b2 : byte (p.payload ++ word) 18 ≡ n / 2 ^ 8 % 2 ^ 8 = byte_after p.payload word 2 16 len in
    let b3 : byte (p.payload ++ word) 19 ≡ n % 2 ^ 8 = byte_after p.payload word 3 16 len in
    ground (arith, front, b0, b1, b2, b3)
