-- ===== src/ReedSolomon.antt =====
-- The crate fec_rs is not part of the repository: a record of what src/stream/proto calls of it.
use moonlight_common_rust.Common.{ℕ, Bool, List, Bytes, Option}

-- A shard of `reconstruct_data`: its bytes, and whether they are present.
pub record Shard : Type 0 where
  pub present : Bool
  pub content : Bytes

-- `new d p` tells whether `ReedSolomon::new(d, p)` returns a codec. `encode_sep d p len
-- shards` is what it writes to the parity shards, buffers of `len` bytes, or `none` for an error. `reconstruct_data d p shards` is what the `d`
-- data shards hold afterwards, and whether it succeeded; the parity shards stay as they are.
pub record ReedSolomon : Type 0 where
  pub new : ℕ → ℕ → Bool
  pub encode_sep : ℕ → ℕ → ℕ → List Bytes → Option (List Bytes)
  pub reconstruct_data : ℕ → ℕ → List Shard → List Bytes × Bool
