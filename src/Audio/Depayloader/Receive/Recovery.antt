-- ===== src/Audio/Depayloader/Receive/Recovery.antt =====
-- What FEC recovery leaves alone, and what it completes.
use moonlight_common_rust.Common.{
  ℕ, suc, ◌≡◌, refl, arith, Bool, List, [], ◌∷◌, Option, none, some, inl, inr, ◌⊎◌,
  wrapping_add_u16, ok, take, Bytes,
}
use moonlight_common_rust.Common.Map.{Map, get, get-insert}
use moonlight_common_rust.ReedSolomon.{ReedSolomon, Shard}
use moonlight_common_rust.Audio.Depayloader.{AudioDepayloader, DataPacket, FecPacket}
use moonlight_common_rust.Audio.Depayloader.Reconstruct.{
  try_reconstruct_fec_block, reconstruct_with, recover, store_shards, or_insert, skip_others,
  fec_shards, timestamp_increment, data_shard, fec_shard,
}

get-or_insert_keeps :
    {V : Type 0} (k j : ℕ) (v w : V) (m : Map V)
    → get k m ≡ some w
    → get k (or_insert j v m) ≡ some w
unfolding or_insert
get-or_insert_keeps k j v w m h = ground (arith, get-insert j k v m)

get-store_shards_keeps :
    (base t inc i : ℕ) (shards : List Bytes) (k : ℕ) (w : DataPacket) (m : Map DataPacket)
    → get k m ≡ some w
    → get k (store_shards base t inc i shards m) ≡ some w
unfolding store_shards
get-store_shards_keeps base t inc i [] k w m h = h
get-store_shards_keeps base t inc i (s ∷ shards) k w m h =
    get-store_shards_keeps base t inc (suc i) shards k w _ (get-or_insert_keeps k _ _ w m h)

List-cases : {A : Type 0} (xs : List A) → (xs ≡ []) ⊎ ((x : A) × (rest : List A) × (xs ≡ x ∷ rest))
List-cases [] = inl refl
List-cases (x ∷ xs) = inr (x, xs, refl)

module _ (rs : ReedSolomon) where
  recover-keeps :
      (d : AudioDepayloader) (base t : ℕ) (shards : List Shard) (inc : Option ℕ)
      (after : AudioDepayloader) (b : Bool) (k : ℕ) (w : DataPacket)
      → get k d.data_packets ≡ some w
      → recover rs d base t shards inc ≡ ok (after, b)
      → get k after.data_packets ≡ some w
  unfolding recover
  recover-keeps d base t shards none after b k w there done = ground arith
  recover-keeps d base t shards (some i) after b k w there done =
      let result : List Bytes × Bool = rs.reconstruct_data 4 2 shards in
      ground (arith, get-store_shards_keeps base t i 0 (take 4 result.0) k w d.data_packets there)

  reconstruct_with-keeps :
      (d : AudioDepayloader) (base t : ℕ) (fec1 fec2 : Option FecPacket) (after : AudioDepayloader)
      (b : Bool) (k : ℕ) (w : DataPacket)
      → get k d.data_packets ≡ some w
      → reconstruct_with rs d base t fec1 fec2 ≡ ok (after, b)
      → get k after.data_packets ≡ some w
  unfolding reconstruct_with
  reconstruct_with-keeps d base t fec1 fec2 after b k w there done =
      let data1 = get base d.data_packets in
      let data2 = get (wrapping_add_u16 base 1) d.data_packets in
      let data3 = get (wrapping_add_u16 base 2) d.data_packets in
      let data4 = get (wrapping_add_u16 base 3) d.data_packets in
      ground (
        arith,
        recover-keeps d base t
            (data_shard data1
              ∷ data_shard data2
              ∷ data_shard data3
              ∷ data_shard data4
              ∷ fec_shard fec1
              ∷ fec_shard fec2
              ∷ [])
            (timestamp_increment t data2 data3 data4) after b k w there,
      )

  -- FEC recovery never replaces or removes a packet that was received: whenever
  -- `try_reconstruct_fec_block` returns without an error, a data packet that was stored before the call
  -- is stored, unchanged, after it, whatever the codec makes of the shards.
  pub try_reconstruct_fec_block-keeps :
      (d : AudioDepayloader) (base : ℕ) (after : AudioDepayloader) (b : Bool)
      → try_reconstruct_fec_block rs d base ≡ ok (after, b)
      → (k : ℕ) (w : DataPacket) → get k d.data_packets ≡ some w
      → get k after.data_packets ≡ some w
  unfolding try_reconstruct_fec_block
  try_reconstruct_fec_block-keeps d base after b done k w there =
      elim (List-cases (skip_others base d.fec_packets)) [
        | inl e ↦ ground arith
        | inr (p, packets, e) ↦ ground (
          arith,
          reconstruct_with-keeps d base p.header.base_timestamp (fec_shards base (p ∷ packets)).0
              (fec_shards base (p ∷ packets)).1 after b k w there,
        )
      ]
