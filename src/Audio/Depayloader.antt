-- ===== src/Audio/Depayloader.antt =====
-- src/stream/proto/audio/depayloader.rs: the state, and the queries of one call. Arithmetic on u16 and
-- u32 wraps, as in a release build.
pub mod Reconstruct
pub mod Receive
pub mod Ends
use moonlight_common_rust.Common.{
  ℕ, zero, suc, ◌+◌, ◌-◌, ◌*◌, ◌%◌, ◌^◌, Bool, true, false, ◌&&◌, not, List, [], ◌∷◌, ◌++◌, Option,
  none, some, Bytes, length, retain, find?, ltb, leb, ◌==◌, if◌then◌else◌, wrapping_add_u16,
  Outcome, ok, out_of_fuel,
}
use moonlight_common_rust.Common.Map.{Map, get}
use moonlight_common_rust.Crypto.{CryptoBackend, SunshineEncryption, round_to_pkcs7_safe_len}
use moonlight_common_rust.Audio.Packet.{AudioFecHeader, packet_iv, rtp_audio_data_shards}

pub data AudioDepayloaderError : Type 0 where
  buffer_too_small : AudioDepayloaderError
  reed_solomon : AudioDepayloaderError

pub record AudioDepayloaderConfig : Type 0 where
  pub fec : Bool
  pub encryption : Option SunshineEncryption

pub record DataPacket : Type 0 where
  pub timestamp : ℕ
  pub payload : Bytes

pub record FecPacket : Type 0 where
  pub header : AudioFecHeader
  pub payload : Bytes

-- A frame with its time in milliseconds.
pub record AudioFrame : Type 0 where
  pub timestamp : ℕ
  pub buffer : Bytes

-- `fec_decoder` tells whether there is a codec.
pub record AudioDepayloader : Type 0 where
  pub encryption : Option SunshineEncryption
  pub current_sequence_number : ℕ
  pub data_packets : Map DataPacket
  pub fec_packets : List FecPacket
  pub fec_decoder : Bool

unfoldable pub new : AudioDepayloaderConfig → AudioDepayloader
new config = record {
  encryption = config.encryption;
  current_sequence_number = 0;
  data_packets = [];
  fec_packets = [];
  fec_decoder = config.fec;
}

unfoldable pub to_frame : DataPacket → AudioFrame
to_frame packet = record { timestamp = packet.timestamp; buffer = packet.payload }

-- The smallest sequence number that FEC can still need.
unfoldable pub minimum_sequence_number : ℕ → ℕ
minimum_sequence_number current = current - rtp_audio_data_shards

-- `while pop_front_if(..).is_some() {}`
unfoldable pub pop_old : ℕ → List FecPacket → List FecPacket
pop_old minimum [] = []
pop_old minimum (p ∷ packets) =
    if ltb p.header.base_sequence_number minimum then pop_old minimum packets else p ∷ packets

unfoldable pub retain_from : ℕ → Map DataPacket → Map DataPacket
retain_from minimum [] = []
retain_from minimum (entry ∷ packets) =
    if leb minimum entry.0 then entry ∷ retain_from minimum packets else retain_from minimum packets

unfoldable pub cleanup : AudioDepayloader → AudioDepayloader
cleanup d =
    let minimum = minimum_sequence_number d.current_sequence_number in
    record d {
      data_packets = retain_from minimum d.data_packets;
      fec_packets = pop_old minimum d.fec_packets;
    }

unfoldable pub advance : AudioDepayloader → AudioDepayloader
advance d = record d { current_sequence_number = wrapping_add_u16 d.current_sequence_number 1 }

-- Each round but the last uses up the packet at the current number; the numbers wrap around at most twice.
abbrev pub max_polls : ℕ
max_polls = 131074

module _ (crypto : CryptoBackend) where
  -- `none` when the packet cannot be decrypted.
  unfoldable pub decrypted : Option SunshineEncryption → ℕ → AudioFrame → Option AudioFrame
  decrypted none sequence_number f = some f
  decrypted (some e) sequence_number f =
      elim (crypto.decrypt_aes_cbc e.aes_key (packet_iv e.aes_iv sequence_number) f.buffer
        (round_to_pkcs7_safe_len (length f.buffer))) [
          | none ↦ none
          | some buffer ↦ some (record f { buffer = buffer })
        ]

  unfoldable pub poll_loop : ℕ → AudioDepayloader → Outcome ⊥ (AudioDepayloader × Option AudioFrame)
  poll_loop zero d = out_of_fuel
  poll_loop (suc fuel) d =
      let after = cleanup (advance d) in
      elim (get d.current_sequence_number d.data_packets) [
        | none ↦ ok (cleanup d, none)
        | some packet ↦ elim (decrypted d.encryption d.current_sequence_number (to_frame packet)) [
          | some f ↦ ok (after, some f)
          | none ↦ poll_loop fuel after
        ]
      ]

  unfoldable pub poll_frame : AudioDepayloader → Outcome ⊥ (AudioDepayloader × Option AudioFrame)
  poll_frame d = poll_loop max_polls d

unfoldable pub try_skip_samples : AudioDepayloader → AudioDepayloader
try_skip_samples d = elim (find? (λ entry. leb d.current_sequence_number entry.0) d.data_packets) [
  | none ↦ d
  | some entry ↦ record d { current_sequence_number = entry.0 }
]
