-- ===== src/Ping.antt =====
-- src/stream/proto/ping.rs and the packet of src/stream/proto/packet.rs: the pings that keep a stream's
-- port open. Times are in milliseconds; the counter of a release build wraps.
pub mod Schedule
pub mod Examples
use moonlight_common_rust.Common.{
  ℕ, ◌+◌, ◌^◌, List, [], ◌∷◌, ◌++◌, Option, none, some, Bytes, byte, take, ltb, if◌then◌else◌,
  wrapping_add_u32, u32_to_be, u32_from_be,
}

pub record SunshinePingPacket : Type 0 where
  pub payload : Bytes
  pub sequence_number : ℕ

unfoldable pub serialize_ping : SunshinePingPacket → Bytes
serialize_ping p = p.payload ++ u32_to_be p.sequence_number

unfoldable pub deserialize_ping : Bytes → SunshinePingPacket
deserialize_ping buffer = record {
  payload = take 16 buffer;
  sequence_number = u32_from_be (byte buffer 16) (byte buffer 17) (byte buffer 18) (byte buffer 19);
}

abbrev pub ping_retry_timeout : ℕ
ping_retry_timeout = 500

abbrev pub legacy_ping : Bytes
legacy_ping = 0x50 ∷ 0x49 ∷ 0x4E ∷ 0x47 ∷ []

pub record PingSender : Type 0 where
  pub now : ℕ
  pub next_ping_send : ℕ
  pub sunshine_ping : Option Bytes
  pub next_attempt : ℕ
  pub transmits : List Bytes

unfoldable pub ping_packet : Option Bytes → ℕ → Bytes
ping_packet none sequence_number = legacy_ping
ping_packet (some payload) sequence_number =
    serialize_ping (record { payload = payload; sequence_number = sequence_number })

unfoldable pub push_packet : PingSender → ℕ → PingSender
push_packet s sequence_number = record s {
  transmits = s.transmits ++ (ping_packet s.sunshine_ping sequence_number ∷ []);
}

unfoldable pub advance_packet : PingSender → PingSender
advance_packet s =
    let pushed =
      push_packet (record s { next_ping_send = s.next_ping_send + ping_retry_timeout })
        s.next_attempt in
    record pushed { next_attempt = wrapping_add_u32 s.next_attempt 1 }

unfoldable pub new_sender : ℕ → Option Bytes → PingSender
new_sender now sunshine_ping = advance_packet (record {
  now = now;
  next_ping_send = now;
  sunshine_ping = sunshine_ping;
  next_attempt = 0;
  transmits = [];
})

unfoldable pub poll_timeout : PingSender → ℕ
poll_timeout s = s.next_ping_send

unfoldable pub poll_transmit : PingSender → PingSender × Option Bytes
poll_transmit s = elim s.transmits [
  | [] ↦ (s, none)
  | packet ∷ rest ↦ (record s { transmits = rest }, some packet)
]

unfoldable pub handle_timeout : PingSender → ℕ → PingSender
handle_timeout s now =
    let woken = record s { now = now } in
    if ltb now s.next_ping_send then woken else advance_packet woken
