-- ===== src/Audio/Depayloader/Reconstruct.antt =====
-- `try_reconstruct_fec_block` of src/stream/proto/audio/depayloader.rs.
use moonlight_common_rust.Common.{
  ℕ, suc, ◌+◌, ◌-◌, ◌*◌, ◌/◌, ◌%◌, ◌^◌, Bool, true, false, not, List, [], ◌∷◌, Option, none, some,
  Bytes, take, ltb, ◌==◌, if◌then◌else◌, wrapping_add_u16, wrapping_add_u32, Outcome, ok, err,
  panic,
}
use moonlight_common_rust.Common.Map.{Map, get, insert}
use moonlight_common_rust.ReedSolomon.{ReedSolomon, Shard}
use moonlight_common_rust.Audio.Packet.{rtp_audio_data_shards, rtp_audio_fec_shards}
use moonlight_common_rust.Audio.Depayloader.{
  AudioDepayloader, AudioDepayloaderError, reed_solomon, DataPacket, FecPacket,
}

unfoldable pub of_block : ℕ → FecPacket → Bool
of_block base p = p.header.base_sequence_number == base

unfoldable pub skip_others : ℕ → List FecPacket → List FecPacket
skip_others base [] = []
skip_others base (p ∷ packets) = if of_block base p then p ∷ packets else skip_others base packets

-- The two FEC shards at the front of the list, in their places.
unfoldable pub fec_shards : ℕ → List FecPacket → Option FecPacket × Option FecPacket
fec_shards base [] = (none, none)
fec_shards base (p ∷ []) = if ltb 0 p.header.fec_shard_index then (none, some p) else (some p, none)
fec_shards base (p ∷ q ∷ packets) =
    if ltb 0 p.header.fec_shard_index
    then (none, some p)
    else (some p, if of_block base q then some q else none)

unfoldable pub present : {A : Type 0} → Option A → ℕ
present none = 0
present (some a) = 1

unfoldable pub data_shard : Option DataPacket → Shard
data_shard none = record { present = false; content = [] }
data_shard (some p) = record { present = true; content = p.payload }

unfoldable pub fec_shard : Option FecPacket → Shard
fec_shard none = record { present = false; content = [] }
fec_shard (some p) = record { present = true; content = p.payload }

-- The time between two packets, from the first data packet after the base.
unfoldable pub timestamp_increment :
    ℕ → Option DataPacket → Option DataPacket → Option DataPacket → Option ℕ
timestamp_increment base_timestamp (some p) q r = some (p.timestamp - base_timestamp)
timestamp_increment base_timestamp none (some q) r = some ((q.timestamp - base_timestamp) / 2)
timestamp_increment base_timestamp none none (some r) = some ((r.timestamp - base_timestamp) / 3)
timestamp_increment base_timestamp none none none = none

-- `entry(key).or_insert_with(..)`
unfoldable pub or_insert : {V : Type 0} → ℕ → V → Map V → Map V
or_insert k v m = elim (get k m) [ none ↦ insert k v m | some w ↦ m ]

unfoldable pub store_shards : ℕ → ℕ → ℕ → ℕ → List Bytes → Map DataPacket → Map DataPacket
store_shards base timestamp increment index [] packets = packets
store_shards base timestamp increment index (payload ∷ rest) packets =
    let packet : DataPacket = record {
      timestamp = wrapping_add_u32 timestamp (increment * index % 2 ^ 32);
      payload = payload;
    } in
    store_shards base timestamp increment (suc index) rest
      (or_insert (wrapping_add_u16 base index) packet packets)

module _ (rs : ReedSolomon) where
  -- With enough shards, at least one data shard being missing.
  unfoldable pub recover :
      AudioDepayloader
      → ℕ
      → ℕ
      → List Shard
      → Option ℕ
      → Outcome (AudioDepayloaderError × AudioDepayloader) (AudioDepayloader × Bool)
  recover d base base_timestamp shards increment =
      let result = rs.reconstruct_data rtp_audio_data_shards rtp_audio_fec_shards shards in
      if not (result.1) then err (reed_solomon, d) else elim increment [
        | none ↦ panic
        | some inc ↦ ok (
          record d {
            data_packets =
                store_shards base base_timestamp inc 0 (take rtp_audio_data_shards result.0)
                  d.data_packets;
          },
          true,
        )
      ]

  unfoldable pub reconstruct_with :
      AudioDepayloader
      → ℕ
      → ℕ
      → Option FecPacket
      → Option FecPacket
      → Outcome (AudioDepayloaderError × AudioDepayloader) (AudioDepayloader × Bool)
  reconstruct_with d base base_timestamp fec1 fec2 =
      let data1 = get base d.data_packets in
      let data2 = get (wrapping_add_u16 base 1) d.data_packets in
      let data3 = get (wrapping_add_u16 base 2) d.data_packets in
      let data4 = get (wrapping_add_u16 base 3) d.data_packets in
      let data_shards = present data1 + present data2 + present data3 + present data4 in
      if ltb (data_shards + (present fec1 + present fec2)) rtp_audio_data_shards
      then ok (d, false)
      else if data_shards == rtp_audio_data_shards
      then ok (d, true)
      else recover d base base_timestamp
          (data_shard data1
            ∷ data_shard data2
            ∷ data_shard data3
            ∷ data_shard data4
            ∷ fec_shard fec1
            ∷ fec_shard fec2
            ∷ [])
          (timestamp_increment base_timestamp data2 data3 data4)

  unfoldable pub try_reconstruct_fec_block :
      AudioDepayloader
      → ℕ
      → Outcome (AudioDepayloaderError × AudioDepayloader) (AudioDepayloader × Bool)
  try_reconstruct_fec_block d base =
      if not d.fec_decoder then ok (d, false) else elim (skip_others base d.fec_packets) [
        | [] ↦ ok (d, false)
        | p ∷ packets ↦
            let fec = fec_shards base (p ∷ packets) in
            reconstruct_with d base p.header.base_timestamp (fec.0) (fec.1)
      ]
