-- ===== src/Video/Packet/Fec.antt =====
-- The two FEC computations of packet.rs against each other: the host sends a percentage, and the
-- client finds the number of parity shards from it.
use moonlight_common_rust.Common.{ℕ, ◌*◌, ◌≤◌, ◌<◌, ◌≡◌, arith}
use moonlight_common_rust.Video.Packet.{
  VideoFecInfo, serialize_fec_info, deserialize_fec_info, fec_percentage_to_parity_shards,
  fec_percentage_from,
}
use moonlight_common_rust.Video.Packet.RoundTrip.{
  IsVideoFecInfo, deserialize_fec_info-serialize_fec_info,
}
use native.Mathlib.Nat.{div-add-mod}

-- The percentage of a number of parity shards gives back that number.
parity-back :
    (d p : ℕ) → 0 < d → d ≤ 100 → fec_percentage_to_parity_shards d (fec_percentage_from d p) ≡ p
unfolding fec_percentage_to_parity_shards fec_percentage_from
parity-back d p pos small = ground (arith, div-add-mod (100 * p) d)

-- For a block of 1 to 100 data shards, and a number of parity shards for which the percentage that the
-- host derives has the 8 bits of its field: FEC information that is sent with this percentage, in fields that fit,
-- and read back, gives the client that number of parity shards.
pub fec_percentage_to_parity_shards-fec_percentage_from :
    (info : VideoFecInfo) (parity_shards : ℕ)
    → IsVideoFecInfo info
    → 0 < info.data_shards_total
    → info.data_shards_total ≤ 100
    → info.fec_percentage ≡ fec_percentage_from info.data_shards_total parity_shards
    → (let received = deserialize_fec_info (serialize_fec_info info) in
        fec_percentage_to_parity_shards received.data_shards_total received.fec_percentage
        ≡ parity_shards)
fec_percentage_to_parity_shards-fec_percentage_from info p fits pos small sent =
    rw (deserialize_fec_info-serialize_fec_info info fits, sent)
      (parity-back info.data_shards_total p pos small)
